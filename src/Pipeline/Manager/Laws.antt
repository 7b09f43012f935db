-- ===== src/Pipeline/Manager/Laws.antt =====
-- The worker's end, and what a start over USB made.
use phone_cam.Prelude.{
  ℕ, ◌≡◌, ◌≢◌, refl, sym, ap, ◌∙◌, arith, Bool, true, false, Option, none, some, List, [], ◌∷◌,
  ◌++◌, Result, ok, err, nat_eq, contains, ◌⊎◌, inl, inr,
}
use phone_cam.Text.{Text}
use phone_cam.Protocol.Profile.{profile_eq, h264_720p30}
use phone_cam.Pipeline.Profiles.{qualified_output_profiles}
use phone_cam.Pipeline.Session.{SessionError, StreamExit}
use phone_cam.Adb.Devices.{AdbError}
use phone_cam.Adb.Binary.{Machine, Environment}
use phone_cam.Adb.Manager.{AdbManager, reverse}
use phone_cam.Adb.Manager.Reverse.{Reversed, reverse-Reversed}
use phone_cam.Pipeline.Manager.{
  PipelineError, disconnected, error, PipelineStatus, error_status, final_status, Accepted,
  shut_down, refused, accepts, Surroundings, Step, publishes, sets_connection_sender,
  sets_command_sender, publish_all, after_accept, or_error, run_pipeline, running, finished, usb,
  UsbForwardSession, Runtime, Called, listen_port, start_worker, start_with_mode, PipelineStartMode,
  after_reverse, Worker, apply_step, apply_steps,
}

module _ (M : Machine) (E : Environment M) where
  -- The worker left nothing behind: no sender, and a status that says that it ended.
  pub record IsEnded (r : Runtime M E) : Type 0 where
    pub no_connection_sender : r.active_connection_sender ≡ none
    pub no_command_sender : r.active_command_sender ≡ none
    pub not_connected : r.status.is_connected ≡ false
    pub ended : (r.status.state ≡ disconnected) ⊎ (r.status.state ≡ error)

  -- Both slots are empty.
  record HasNoSenders (r : Runtime M E) : Type 0 where
    connection_lem : r.active_connection_sender ≡ none
    command_lem : r.active_command_sender ≡ none

  ends :
      (s : PipelineStatus) (r : Runtime M E)
      → HasNoSenders r
      → s.is_connected ≡ false
      → (s.state ≡ disconnected) ⊎ (s.state ≡ error)
      → IsEnded (record r { status = s })
  ends s r h n e = record {
    no_connection_sender = h.connection_lem;
    no_command_sender = h.command_lem;
    not_connected = n;
    ended = e;
  }

  emptied :
      (r : Runtime M E)
      → HasNoSenders (record r { active_connection_sender = none; active_command_sender = none })
  emptied r = record { connection_lem = refl; command_lem = refl }

  final-IsEnded :
      (x : Result SessionError StreamExit) (r : Runtime M E)
      → IsEnded (record r {
        status = final_status x;
        active_connection_sender = none;
        active_command_sender = none;
      })
  final-IsEnded (ok exit) r = ends _ _ (emptied r) refl (inl refl)
  final-IsEnded (err e) r = ends _ _ (emptied r) refl (inr refl)

  published-IsEnded :
      (ss : List PipelineStatus) (x : Result SessionError StreamExit) (r : Runtime M E)
      → IsEnded (
          apply_steps M E
            (publish_all ss
              ++ publishes (final_status x)
                ∷ sets_connection_sender none
                ∷ sets_command_sender none
                ∷ [])
            r)
  unfolding apply_steps apply_step
  published-IsEnded [] x r = final-IsEnded x r
  published-IsEnded (s ∷ ss) x r = published-IsEnded ss x (record r { status = s })

  accept-IsEnded :
      (a : Accepted) (x : List PipelineStatus × Result SessionError StreamExit) (r : Runtime M E)
      → HasNoSenders r
      → IsEnded (apply_steps M E (after_accept a x) r)
  unfolding after_accept apply_steps apply_step
  accept-IsEnded shut_down x r h = ends _ r h refl (inl refl)
  accept-IsEnded refused x r h = ends _ r h refl (inr refl)
  accept-IsEnded (accepts connection commands) (ss, x) r h = published-IsEnded ss x (record r {
    active_connection_sender = some connection;
    active_command_sender = some commands;
  })

  guarded-IsEnded :
      (works : Bool) (e : PipelineError) (rest : List Step) (r : Runtime M E)
      → HasNoSenders r
      → IsEnded (apply_steps M E rest r)
      → IsEnded (apply_steps M E (or_error works e rest) r)
  unfolding apply_steps apply_step
  guarded-IsEnded true e rest r h k = k
  guarded-IsEnded false e rest r h k = ends (error_status e) r h refl (inr refl)

  -- However the worker's calls are answered, when `run_pipeline` returns, both senders are gone and
  -- the last status is one of an error or of no connection.
  pub run_pipeline-IsEnded :
      (s : Surroundings) (r : Runtime M E) → IsEnded (apply_steps M E (run_pipeline s) r)
  unfolding run_pipeline apply_steps apply_step
  run_pipeline-IsEnded s r =
      let q : Runtime M E = record r {
        active_connection_sender = none;
        active_command_sender = none;
      } in
      let e = emptied r in
      guarded-IsEnded s.opens _ _ q e (
        guarded-IsEnded (contains (qualified_output_profiles s.v4l2) h264_720p30) _ _ q e (
          guarded-IsEnded s.advertises _ _ q e (
            guarded-IsEnded s.binds _ _ q e (
              accept-IsEnded s.accepted s.streamed (record q { status = _ })
                (record { connection_lem = refl; command_lem = refl })))))

  -- What a start over USB made.
  pub record IsForwarded (port : ℕ) (serial : Option Text) (c : Called M E) : Type 0 where
    pub forward : UsbForwardSession
    pub kept : c.runtime.usb_forward ≡ some forward
    pub same_port : forward.local_port ≡ port
    pub spawned_lem : c.spawned ≡ some port
    pub runs : c.runtime.worker ≡ some running
    pub reversed : Reversed M E port port serial c.runtime.adb forward.serial

  reversed-IsForwarded :
      (port : ℕ) (serial : Option Text) (r : Runtime M E)
      (x : AdbManager M E × Result (AdbError M.PathBuf) Text)
      → reverse M E port port serial r.adb ≡ x
      → (after_reverse M E port r x).result ≡ ok tt
      → IsForwarded port serial (after_reverse M E port r x)
  reversed-IsForwarded port serial r (adb, ok s) e h = record {
    forward = record { serial = s; local_port = port };
    kept = refl;
    same_port = refl;
    spawned_lem = refl;
    runs = refl;
    reversed = reverse-Reversed M E port port serial r.adb adb s e;
  }
  reversed-IsForwarded port serial r (adb, err e) h k = absurd (ground arith)

  abbrev by_worker : ℕ → PipelineStartMode → Runtime M E → Option Worker → Called M E
  by_worker port mode r none = start_worker M E (listen_port M E port) mode r
  by_worker port mode r (some running) = record { runtime = r; result = ok tt; spawned = none }
  by_worker port mode r (some finished) =
      start_worker M E (listen_port M E port) mode
        (record r { worker = none; has_shutdown = false })

  pub start_with_mode-none :
      (port : ℕ) (mode : PipelineStartMode) (r : Runtime M E)
      → r.worker ≡ none
      → start_with_mode M E port mode r ≡ start_worker M E (listen_port M E port) mode r
  unfolding start_with_mode
  start_with_mode-none port mode r w = ap (by_worker port mode r) w

  pub start_with_mode-finished :
      (port : ℕ) (mode : PipelineStartMode) (r : Runtime M E)
      → r.worker ≡ some finished
      → start_with_mode M E port mode r
        ≡ start_worker M E
            (listen_port M E port)
            mode
            (record r { worker = none; has_shutdown = false })
  unfolding start_with_mode
  start_with_mode-finished port mode r w = ap (by_worker port mode r) w

  -- A start over USB is one of a worker, of a runtime with the same adb.
  carried :
      (port : ℕ) (serial : Option Text) (c : Called M E) (q : Runtime M E)
      → c ≡ start_worker M E port (usb serial) q
      → c.result ≡ ok tt
      → IsForwarded port serial c
  unfolding start_worker
  carried port serial c q e h = rw e (
      reversed-IsForwarded port serial q (reverse M E port port serial q.adb) refl
        (sym (ap (λ d. d.result) e) ∙ h))

  -- A start over USB that goes well while no worker runs spawns one on the given port, or on 7878 if
  -- that is 0, and keeps the device to which adb forwarded just that port: one that was listed, that
  -- the request means, and on which the command ran with success.
  pub start_with_mode-IsForwarded :
      (port : ℕ) (serial : Option Text) (r : Runtime M E)
      → r.worker ≢ some running
      → (start_with_mode M E port (usb serial) r).result ≡ ok tt
      → IsForwarded (listen_port M E port) serial (start_with_mode M E port (usb serial) r)
  start_with_mode-IsForwarded port serial r n h = go r.worker refl
    where
      go :
          (w : Option Worker)
          → r.worker ≡ w
          → IsForwarded (listen_port M E port) serial (start_with_mode M E port (usb serial) r)
      go none e =
          carried (listen_port M E port) serial (start_with_mode M E port (usb serial) r) r
            (start_with_mode-none port (usb serial) r e) h
      go (some running) e = absurd (n e)
      go (some finished) e =
          carried (listen_port M E port) serial (start_with_mode M E port (usb serial) r)
            (record r { worker = none; has_shutdown = false })
            (start_with_mode-finished port (usb serial) r e) h
