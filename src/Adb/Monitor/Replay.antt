-- ===== src/Adb/Monitor/Replay.antt =====
-- What a client that only reads the monitor's events knows, and one loop of a tick.
use phone_cam.Prelude.{
  ◌≡◌, ◌≢◌, refl, sym, ap, ◌∙◌, false, Option, none, some, List, [], ◌∷◌, ◌++◌, ◌==◌, if◌then◌else◌,
  Bool-cases, Option-cases, inl, inr,
}
use phone_cam.Text.{Text}
use phone_cam.Text.Order.{text_eq, text_beq_iff}
use phone_cam.Adb.Map.{BTreeMap, get, IsAbove, IsOrdered, get-IsAbove}
use phone_cam.Adb.Devices.{AdbDeviceState, state_eq, AdbDevice}
use phone_cam.Adb.Monitor.{connected, disconnected, state_changed, AdbDeviceEvent, each}

-- What a client knows: the state of each device that is there.
abbrev pub View : Type 0
View = Text → Option AdbDeviceState

-- The client takes up an event.
abbrev pub note : AdbDeviceEvent → View → View
note e view k = if k == e.serial then e.current_state else view k

unfoldable pub replay : List AdbDeviceEvent → View → View
replay [] view = view
replay (e ∷ es) view = replay es (note e view)

-- The kind of an event says which of its states are there.
abbrev pub KindFits : AdbDeviceEvent → Type 0
KindFits e = elim e.kind as (λ _. Type 0) [
  | connected ↦ (e.previous_state ≡ none) × (e.current_state ≢ none)
  | disconnected ↦ (e.previous_state ≢ none) × (e.current_state ≡ none)
  | state_changed ↦
      (e.previous_state ≢ none) × (e.current_state ≢ none) × (e.previous_state ≢ e.current_state)
]

-- Each event names the state that the client knows, and its kind is right.
abbrev pub IsChain : View → List AdbDeviceEvent → Type 0
IsChain view [] = Unit {0}
IsChain view (e ∷ es) = (e.previous_state ≡ view e.serial) × KindFits e × IsChain (note e view) es

abbrev pub state_of : Option AdbDevice → Option AdbDeviceState
state_of none = none
state_of (some d) = some d.state

-- The states that a map holds.
abbrev pub states : BTreeMap AdbDevice → View
states m k = state_of (get m k)

abbrev pub Body : Type 0
Body = Text × AdbDevice → Option AdbDeviceEvent

pub record Fits (view : View) (k : Text) (e : AdbDeviceEvent) : Type 0 where
  pub named : e.serial ≡ k
  pub known : e.previous_state ≡ view k
  pub kind_fits : KindFits e

-- Each event of a loop fits what is known before the loop.
abbrev pub IsFitting : Body → BTreeMap AdbDevice → View → Type 0
IsFitting body m view =
    (k : Text) (d : AdbDevice) (e : AdbDeviceEvent)
    → get m k ≡ some d
    → body (k, d) ≡ some e
    → Fits view k e

other_key :
    (j k : Text) (d x : AdbDevice) (m : BTreeMap AdbDevice)
    → IsAbove j m
    → get m k ≡ some x
    → (k == j) ≡ false
other_key j k d x m a h = elim (Bool-cases (k == j)) [
  | inl s ↦ let e = (text_beq_iff k j).0 s in let n = get-IsAbove j m a in absurd (cc)
  | inr s ↦ s
]

get-later :
    (j k : Text) (d x : AdbDevice) (m : BTreeMap AdbDevice)
    → IsAbove j m
    → get m k ≡ some x
    → get ((j, d) ∷ m) k ≡ some x
unfolding get
get-later j k d x m a h = rw (other_key j k d x m a h) h

get-first : (j : Text) (d : AdbDevice) (m : BTreeMap AdbDevice) → get ((j, d) ∷ m) j ≡ some d
unfolding get
get-first j d m = rw ((text_beq_iff j j).1 refl) refl

-- The rest of a loop fits as well, once an event of the first entry is noted.
fits_later :
    (body : Body) (j : Text) (d : AdbDevice) (m : BTreeMap AdbDevice) (view after : View)
    → IsAbove j m
    → ((k : Text) → (k == j) ≡ false → after k ≡ view k)
    → IsFitting body ((j, d) ∷ m) view
    → IsFitting body m after
fits_later body j d m view after a same fits k x e g b =
    let f = fits k x e (get-later j k d x m a g) b in
    record {
      named = f.named;
      known = f.known ∙ sym (same k (other_key j k d x m a g));
      kind_fits = f.kind_fits;
    }

note_other :
    (e : AdbDeviceEvent) (j : Text) (view : View)
    → e.serial ≡ j
    → (k : Text) → (k == j) ≡ false
    → note e view k ≡ view k
note_other e j view n k h = rw (n, h) refl

pub each-IsChain :
    (body : Body) (m : BTreeMap AdbDevice) (view : View)
    → IsOrdered m
    → IsFitting body m view
    → IsChain view (each body m)
unfolding each
each-IsChain body [] view o fits = tt
each-IsChain body ((j, d) ∷ m) view o fits = elim (Option-cases (body (j, d))) [
  | inl b ↦
      rw (b, IsChain)
        (each-IsChain body m view o.1 (fits_later body j d m view view o.0 (λ k h. refl) fits))
  | inr (e, b) ↦
      let f = fits j d e (get-first j d m) b in
      rw (b, IsChain)
        (
          f.known ∙ ap view (sym f.named),
          f.kind_fits,
          each-IsChain body m (note e view) o.1
              (fits_later body j d m view (note e view) o.0 (note_other e j view f.named) fits),
        )
]

pub replay-append :
    (es fs : List AdbDeviceEvent) (view : View)
    → replay (es ++ fs) view ≡ replay fs (replay es view)
unfolding replay
replay-append [] fs view = refl
replay-append (e ∷ es) fs view = replay-append es fs (note e view)

pub IsChain-append :
    (es fs : List AdbDeviceEvent) (view : View)
    → IsChain view es
    → IsChain (replay es view) fs
    → IsChain view (es ++ fs)
unfolding replay
IsChain-append [] fs view c d = d
IsChain-append (e ∷ es) fs view c d = (c.0, c.1, IsChain-append es fs (note e view) c.2 d)

abbrev pub changed : Option AdbDeviceEvent → Option AdbDeviceState → Option AdbDeviceState
changed none s = s
changed (some e) s = e.current_state

-- What is known of `k` after a loop.
abbrev pub after : Body → Text → Option AdbDevice → Option AdbDeviceState → Option AdbDeviceState
after body k none s = s
after body k (some d) s = changed (body (k, d)) s

abbrev pub IsNamed : Body → Type 0
IsNamed body = (k : Text) (d : AdbDevice) (e : AdbDeviceEvent) → body (k, d) ≡ some e → e.serial ≡ k

pub each-replay :
    (body : Body) (m : BTreeMap AdbDevice) (view : View) (k : Text)
    → IsOrdered m
    → IsNamed body
    → replay (each body m) view k ≡ after body k (get m k) (view k)
unfolding each replay get
each-replay body [] view k o n = refl
each-replay body ((j, d) ∷ m) view k o n = elim (Option-cases (body (j, d))) [
  | inl b ↦
      rw (b, each, each-replay body m view k o.1 n)
        (elim (Bool-cases (k == j)) [
          | inl s ↦
              rw ((text_beq_iff k j).0 s, (text_beq_iff j j).1 refl, get-IsAbove j m o.0, b) refl
          | inr s ↦ rw s refl
        ])
  | inr (e, b) ↦
      rw (b, each, each-replay body m (note e view) k o.1 n, n j d e b)
        (elim (Bool-cases (k == j)) [
          | inl s ↦
              rw ((text_beq_iff k j).0 s, (text_beq_iff j j).1 refl, get-IsAbove j m o.0, b) refl
          | inr s ↦ rw s refl
        ])
]
