-- ===== src/Shell/Laws.antt =====
-- What a connection that was asked for is.
use phone_cam.Prelude.{
  ℕ, ◌≡◌, refl, sym, ap, ◌∙◌, arith, Bool, false, none, some, [], ◌∷◌, ◌++◌, ok, err, Bool-cases,
  Option-cases, Result-cases, inl, inr,
}
use phone_cam.Text.{Text, trim, trim_start, trim_end, keep_unless_last, is_whitespace}
use phone_cam.Text.Split.{codes, strip_prefix}
use phone_cam.Adb.Binary.{Machine, Environment}
use phone_cam.Pipeline.Manager.{
  PipelineStartMode, wifi, usb, running, ManagerError, Runtime, Called, listen_port, start_worker,
  start_with_mode, stop,
}
use phone_cam.Pipeline.Manager.Laws.{IsForwarded, start_with_mode-IsForwarded, start_with_mode-none}
use phone_cam.Shell.{after_prefix, non_blank, target_of, connection_target_from_input, connect}

-- A character that is no space stays in front.
kept_front : (c : ℕ) (u : Text) → is_whitespace c ≡ false → keep_unless_last c u ≡ c ∷ u
unfolding keep_unless_last
kept_front c [] h = rw h refl
kept_front c (d ∷ ds) h = refl

keep-twice :
    (c : ℕ) (u : Text) → trim_end u ≡ u → trim_end (keep_unless_last c u) ≡ keep_unless_last c u
unfolding keep_unless_last trim_end
keep-twice c [] h = elim (Bool-cases (is_whitespace c)) [
  | inl b ↦ rw (b, trim_end) refl
  | inr b ↦ rw (b, trim_end, keep_unless_last, b) refl
]
keep-twice c (d ∷ ds) h = ap (keep_unless_last c) h

-- Trimming the end twice is trimming it once.
trim_end-trim_end : (t : Text) → trim_end (trim_end t) ≡ trim_end t
unfolding trim_end
trim_end-trim_end [] = refl
trim_end-trim_end (c ∷ cs) = keep-twice c (trim_end cs) (trim_end-trim_end cs)

-- Only the end is trimmed after two slashes, and after the prefix with them.
trim-slashes : (s : Text) → trim (codes "//" ++ s) ≡ codes "//" ++ trim_end s
unfolding trim trim_start trim_end is_whitespace
trim-slashes s =
    ap (keep_unless_last 47) (kept_front 47 (trim_end s) refl)
    ∙ kept_front 47 (47 ∷ trim_end s) refl

trim-prefix : (s : Text) → trim (codes "usb://" ++ s) ≡ codes "usb://" ++ trim_end s
unfolding trim trim_start trim_end is_whitespace keep_unless_last
trim-prefix s =
    ap
      (λ u.
        keep_unless_last 117 (keep_unless_last 115 (keep_unless_last 98 (keep_unless_last 58 u))))
      (trim-slashes s)

named :
    (t x y : Text)
    → after_prefix t ≡ some x
    → non_blank (some x) ≡ some y
    → target_of t ≡ usb (some y)
unfolding target_of after_prefix
named t x y a n = rw (a, n) refl

slashes_left : (s : Text) → after_prefix (codes "usb://" ++ s) ≡ some (codes "//" ++ s)
unfolding after_prefix strip_prefix
slashes_left s = refl

not_blank :
    (s : Text) → non_blank (some (codes "//" ++ trim_end s)) ≡ some (codes "//" ++ trim_end s)
not_blank s = rw (trim-slashes (trim_end s), trim_end-trim_end s) refl

-- An input that begins with usb:// does not name the device that follows: its serial keeps the two
-- slashes, since the shorter prefix is tried first. Only white space at its end is dropped.
pub connection_target_from_input-slashes :
    (s : Text)
    → connection_target_from_input (codes "usb://" ++ s) ≡ usb (some (codes "//" ++ trim_end s))
unfolding connection_target_from_input
connection_target_from_input-slashes s =
    ap target_of (trim-prefix s)
    ∙ named (codes "usb://" ++ trim_end s) (codes "//" ++ trim_end s) (codes "//" ++ trim_end s)
        (slashes_left (trim_end s)) (not_blank s)

module _ (M : Machine) (E : Environment M) where
  -- The tunnel that belongs to a target.
  abbrev pub IsTunnel : PipelineStartMode → ℕ → Called M E → Type 0
  IsTunnel wifi port c = c.runtime.usb_forward ≡ none
  IsTunnel (usb serial) port c = IsForwarded M E port serial c

  pub record IsConnected (mode : PipelineStartMode) (port : ℕ) (c : Called M E) : Type 0 where
    pub spawned_lem : c.spawned ≡ some port
    pub runs : c.runtime.worker ≡ some running
    pub tunnel : IsTunnel mode port c

  started :
      (mode : PipelineStartMode) (port : ℕ) (r : Runtime M E)
      → r.worker ≡ none
      → (start_with_mode M E port mode r).result ≡ ok tt
      → IsConnected mode (listen_port M E port) (start_with_mode M E port mode r)
  unfolding start_worker
  started wifi port r w h =
      let e = start_with_mode-none M E port wifi r w in
      record {
        spawned_lem = ap (λ c. c.spawned) e;
        runs = ap (λ c. c.runtime.worker) e;
        tunnel = ap (λ c. c.runtime.usb_forward) e;
      }
  started (usb serial) port r w h =
      let f = start_with_mode-IsForwarded M E port serial r (λ k. cc) h in
      record { spawned_lem = f.spawned_lem; runs = f.runs; tunnel = f }

  stopped_worker : (joins : Bool) (r : Runtime M E) → (stop M E joins r).runtime.worker ≡ none
  unfolding stop
  stopped_worker joins r = elim (Option-cases r.worker) [
    | inl w ↦ rw (w, stop) refl
    | inr (x, w) ↦ elim (Bool-cases joins) [
      | inl j ↦ rw (w, j, stop) refl
      | inr j ↦ rw (w, j, stop) refl
    ]
  ]

  listen_port_twice : (port : ℕ) → listen_port M E (listen_port M E port) ≡ listen_port M E port
  listen_port_twice port = ground arith

  connect-stop :
      (joins : Bool) (ip : Text) (port : ℕ) (r : Runtime M E)
      → (stop M E joins r).result ≡ ok tt
      → connect M E joins ip port r
        ≡ start_with_mode M E
            (listen_port M E port)
            (connection_target_from_input ip)
            (stop M E joins r).runtime
  unfolding connect
  connect-stop joins ip port r k = rw (connect, k) refl

  refused :
      (joins : Bool) (ip : Text) (port : ℕ) (r : Runtime M E) (e : ManagerError M.PathBuf)
      → (stop M E joins r).result ≡ err e
      → (connect M E joins ip port r).result ≡ ok tt
      → ⊥
  unfolding connect
  refused joins ip port r e k h = ground arith

  carried :
      (mode : PipelineStartMode) (port : ℕ) (r : Runtime M E) (c : Called M E)
      → c ≡ start_with_mode M E port mode r
      → r.worker ≡ none
      → c.result ≡ ok tt
      → IsConnected mode (listen_port M E port) c
  carried mode port r c e w h = rw e (started mode port r w (sym (ap (λ d. d.result) e) ∙ h))

  -- A connection that was made has a new worker on the port, 7878 for 0, whatever ran before; and over
  -- the network it keeps no tunnel, while over USB it keeps the one that adb forwarded to that port on
  -- the device that the input means.
  pub connect-IsConnected :
      (joins : Bool) (ip : Text) (port : ℕ) (r : Runtime M E)
      → (connect M E joins ip port r).result ≡ ok tt
      → IsConnected
          (connection_target_from_input ip)
          (listen_port M E port)
          (connect M E joins ip port r)
  connect-IsConnected joins ip port r h = elim (Result-cases (stop M E joins r).result) [
    | inr (e, k) ↦ absurd (refused joins ip port r e k h)
    | inl (u, k) ↦ rw (sym (listen_port_twice port)) (
        carried (connection_target_from_input ip) (listen_port M E port) (stop M E joins r).runtime
          (connect M E joins ip port r) (connect-stop joins ip port r k) (stopped_worker joins r) h)
  ]
