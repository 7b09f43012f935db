-- ===== src/Mobile/History.antt =====
-- The invariant of the mobile core is kept by every call, so it holds after any history.
use phone_cam.Prelude.{
  ℕ, ◌≤◌, ◌≡◌, refl, Bool, ◌||◌, not, Option, none, some, List, [], ◌∷◌, Result, ok, err, arith,
  length, ◌==◌, nat_eq, inl, inr, Bool-cases, Option-cases,
}
use phone_cam.Text.{Text, trim, is_empty}
use phone_cam.Protocol.Profile.{StreamProfile, validate}
use phone_cam.Protocol.Profile.Laws.{validate-ok}
use phone_cam.Protocol.Message.{Bincode, Message, configure_stream, CameraControl}
use phone_cam.Transport.Wire.{TransportError}
use phone_cam.Transport.Connect.{Connection, connect}
use phone_cam.Transport.Connect.Laws.{IsAgreed, connect-IsAgreed}
use phone_cam.Mobile.State.{Link, TransportClient, Core, CStr, text, initial}
use phone_cam.Mobile.Setup.{
  VideoConfig, Environment, mobile_handshake, new_client, validate_config, configure_endpoint,
  set_streaming_enabled, store_client, initialize_transport_client, init_with, transport_init,
  transport_shutdown,
}
use phone_cam.Mobile.Control.{
  react, poll_inbound, Polled, gone, empty, control, finish_poll, poll_control_command_json,
  next_pending, answer,
}
use phone_cam.Mobile.Run.{
  Json, Call, configures, enables, inits, shuts_down, sends_frame, polls, updates, reports,
  takes_outbound, brings_inbound, writer_ends, reader_ends, changes_state, change_link, taken, step,
  run,
}
use phone_cam.Mobile.Invariant.{
  IsClient, IsSound, IsCore, Keeps, sound_client, after_refusal, send_video_frame-IsCore,
  update_video_capabilities-IsCore, report-IsCore,
}

new_client-IsClient :
    (c : VideoConfig) (k : Connection)
    → IsAgreed (mobile_handshake c) k.peer_handshake
    → IsClient (new_client c k)
new_client-IsClient c k a = record {
  offered = a.local_valid.profiles;
  active_offered = a.local_valid.active c.active_profile refl;
  peer = a.peer_valid;
  active_common = a.local_active c.active_profile refl;
  pending_supported = λ id p e. absurd (cc);
  bounded = omega arith;
}

configure_endpoint-IsCore :
    (host : Text) (port : ℕ) (s : Core) → IsCore s → IsCore (configure_endpoint host port s)
unfolding configure_endpoint
configure_endpoint-IsCore host port s h = elim (Bool-cases (is_empty (trim host))) [
  | inl e ↦ rw e h
  | inr e ↦ rw e h
]

module _ (B : Bincode) where
  store_client-IsCore :
      (c : VideoConfig) (r : Result (TransportError B) Connection) (s : Core)
      → ((k : Connection) → r ≡ ok k → IsAgreed (mobile_handshake c) k.peer_handshake)
      → IsCore s
      → Keeps (store_client B c r s)
  unfolding store_client
  store_client-IsCore c (ok k) s a h = record { kept = new_client-IsClient c k (a k refl) }
  store_client-IsCore c (err e) s a h = record { kept = h }

  initialize-IsCore :
      (env : Environment) (host : Text) (c : VideoConfig) (s : Core)
      → IsCore s
      → Keeps (initialize_transport_client B env host c s)
  unfolding initialize_transport_client
  initialize-IsCore env host c s h =
      after_refusal (is_empty (trim host) || not (validate_config c)) s _ h λ _.
        after_refusal (not env.runtime_built) s _ h λ _.
          after_refusal env.connect_elapsed s _ h λ _.
            store_client-IsCore c (connect B env.network (mobile_handshake c)).1 s
              (connect-IsAgreed B env.network (mobile_handshake c)) h

  init_with-IsCore :
      (env : Environment) (host : Text) (port : ℕ) (c : Option VideoConfig) (s : Core)
      → IsCore s
      → Keeps (init_with B env host port c s)
  unfolding init_with set_streaming_enabled
  init_with-IsCore env host port none s h = record { kept = h }
  init_with-IsCore env host port (some c) s h =
      after_refusal (is_empty host || not (validate_config c)) s _ h λ _. record {
        kept = (initialize-IsCore env host c _ (configure_endpoint-IsCore host port s h)).kept;
      }

  transport_init-IsCore :
      (read : Text → Option VideoConfig) (env : Environment) (host : CStr) (port : ℕ) (json : CStr)
      (s : Core)
      → IsCore s
      → Keeps (transport_init B read env host port json s)
  unfolding transport_init
  transport_init-IsCore read env (text host) port (text json) s h =
      after_refusal (port == 0) s _ h λ _. init_with-IsCore env (trim host) port (read json) s h
  transport_init-IsCore read env _ port _ s h = record { kept = h }

-- A configuration that the poll hands out has a supported profile.
answer-supported :
    (m : Message) (id : ℕ) (p : StreamProfile)
    → react m ≡ answer (configure_stream id p)
    → validate p ≡ ok tt
unfolding react
answer-supported (Message.camera_control (configure_stream j q)) id p h = ground arith
answer-supported _ id p h = absurd (cc)

-- What the loop hands out was the reaction to some message.
poll_inbound-control :
    (alive : Bool) (ms rest : List Message) (id : ℕ) (p : StreamProfile)
    → poll_inbound alive ms ≡ control (configure_stream id p) rest
    → validate p ≡ ok tt
unfolding poll_inbound
poll_inbound-control alive [] rest id p h = absurd (ground arith)
poll_inbound-control alive (m ∷ ms) rest id p h =
    ground (arith, poll_inbound-control alive ms rest id p, answer-supported m id p)

next_pending-supported :
    (k : CameraControl) (old : Option (ℕ × StreamProfile)) (id : ℕ) (p : StreamProfile)
    → next_pending k old ≡ some (id, p)
    → old ≡ none
    → k ≡ configure_stream id p
next_pending-supported (configure_stream j q) old id p h o = ground arith
next_pending-supported _ old id p h o = absurd (cc)

finish_poll-IsCore :
    (write : CameraControl → Option Text) (c : TransportClient) (s : Core) (x : Polled)
    → IsClient c
    → c.pending_configuration ≡ none
    → poll_inbound c.connection.reader_alive c.connection.inbound ≡ x
    → IsCore (finish_poll write c s x).0
unfolding finish_poll
finish_poll-IsCore write c s gone i n e = tt
finish_poll-IsCore write c s empty i n e = record {
  offered = i.offered;
  active_offered = i.active_offered;
  peer = i.peer;
  active_common = i.active_common;
  pending_supported = i.pending_supported;
  bounded = i.bounded;
}
finish_poll-IsCore write c s (control k rest) i n e = record {
  offered = i.offered;
  active_offered = i.active_offered;
  peer = i.peer;
  active_common = i.active_common;
  pending_supported = λ id p h.
      let q = next_pending-supported k c.pending_configuration id p h n in
      validate-ok p (poll_inbound-control _ _ rest id p (rw q at e));
  bounded = i.bounded;
}

poll_pending-IsCore :
    (write : CameraControl → Option Text) (c : TransportClient) (s : Core)
    (o : Option (ℕ × StreamProfile))
    → IsCore s
    → IsClient c
    → c.pending_configuration ≡ o
    → IsCore
        (elim o as (λ _. Core × Option Text) [
          | some _ ↦ (s, none)
          | none ↦
              finish_poll write c s (poll_inbound c.connection.reader_alive c.connection.inbound)
        ]).0
poll_pending-IsCore write c s (some x) h i e = h
poll_pending-IsCore write c s none h i e = finish_poll-IsCore write c s _ i e refl

poll-IsCore :
    (write : CameraControl → Option Text) (s : Core)
    → IsCore s
    → IsCore (poll_control_command_json write s).0
unfolding poll_control_command_json
poll-IsCore write s h = elim (Option-cases s.client) [
  | inl e ↦ rw (e, poll_control_command_json) h
  | inr (c, e) ↦
      rw (e, poll_control_command_json)
        (poll_pending-IsCore write c s c.pending_configuration h (sound_client s c h e) refl)
]

change_link-IsSound :
    (f : Link → Link) (o : Option TransportClient)
    → ((l : Link) → (f l).peer_handshake ≡ l.peer_handshake)
    → ((l : Link) → length (f l).outbound ≤ length l.outbound)
    → IsSound o
    → IsSound (change_link f o)
change_link-IsSound f none p b h = tt
change_link-IsSound f (some c) p b h = record {
  offered = h.offered;
  active_offered = h.active_offered;
  peer = rw (p c.connection) h.peer;
  active_common = rw (p c.connection) h.active_common;
  pending_supported = h.pending_supported;
  bounded = omega (arith, b c.connection, h.bounded);
}

length-taken : (ms : List Message) → length (taken ms) ≤ length ms
length-taken [] = omega arith
length-taken (m ∷ ms) = omega arith

-- Every call keeps the invariant.
step-IsCore :
    (B : Bincode) (json : Json) (c : Call) (s : Core) → IsCore s → IsCore (step B json c s)
unfolding step transport_shutdown set_streaming_enabled
step-IsCore B json (configures host port) s h = configure_endpoint-IsCore host port s h
step-IsCore B json (enables b) s h = h
step-IsCore B json (inits env host port config) s h =
    (transport_init-IsCore B json.read_config env host port config s h).kept
step-IsCore B json shuts_down s h = tt
step-IsCore B json (sends_frame f) s h = (send_video_frame-IsCore f s h).kept
step-IsCore B json polls s h = poll-IsCore json.write_control s h
step-IsCore B json (updates ps) s h =
    (update_video_capabilities-IsCore json.read_profiles ps s h).kept
step-IsCore B json (reports r) s h = (report-IsCore r s h).kept
step-IsCore B json takes_outbound s h =
    change_link-IsSound _ s.client (λ l. refl) (λ l. length-taken l.outbound) h
step-IsCore B json (brings_inbound m) s h =
    change_link-IsSound _ s.client (λ l. refl) (λ l. omega arith) h
step-IsCore B json writer_ends s h = change_link-IsSound _ s.client (λ l. refl) (λ l. omega arith) h
step-IsCore B json reader_ends s h = change_link-IsSound _ s.client (λ l. refl) (λ l. omega arith) h
step-IsCore B json (changes_state t) s h =
    change_link-IsSound _ s.client (λ l. refl) (λ l. omega arith) h

run-IsCore :
    (B : Bincode) (json : Json) (cs : List Call) (s : Core) → IsCore s → IsCore (run B json cs s)
unfolding run
run-IsCore B json [] s h = h
run-IsCore B json (c ∷ cs) s h = run-IsCore B json cs (step B json c s) (step-IsCore B json c s h)

-- After any history of calls and of what the connection's tasks do, a client offers a valid
-- profile list, its active profile is supported by both ends, the peer's handshake is valid, a
-- pending configuration names a supported profile, and at most eight messages wait to be sent.
pub run-initial-IsCore :
    (B : Bincode) (json : Json) (cs : List Call) → IsCore (run B json cs initial)
run-initial-IsCore B json cs = run-IsCore B json cs initial tt
