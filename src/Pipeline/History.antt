-- ===== src/Pipeline/History.antt =====
-- A session from its start on: the turns of the loop as a relation, and what holds after any number
-- of them.
use phone_cam.Prelude.{
  ◌≡◌, Bool, true, none, some, List, [], ◌∷◌, ◌++◌, ok, arith, Option-cases, inl, inr,
}
use phone_cam.Protocol.Profile.{StreamProfile, profile_eq}
use phone_cam.Protocol.Handshake.{Handshake}
use phone_cam.Protocol.Message.{Message}
use phone_cam.Output.Device.{OutputDevice}
use phone_cam.Pipeline.Session.{Session, World, Effect, goes_on, start, reset_decoder}
use phone_cam.Pipeline.Step.{
  Event, shutdown, state_changed, tick, command, decoded, received, is_enabled, step, on_message,
}
use phone_cam.Pipeline.Invariant.{
  IsSession, Keeps, no_pending, kept_of, failed, if-both, commit-cases,
}
use phone_cam.Pipeline.Invariant.Answers.{on_result-Keeps}
use phone_cam.Pipeline.Invariant.Turns.{
  on_tick-Keeps, on_command-Keeps, on_decoder_event-Keeps, on_video_frame-Keeps, on_update-Keeps,
}

-- Turns from one session to another, with what they did.
pub data Runs : Session → List Event → List Effect → Session → Type 0 where
  rest : {s : Session} → Runs s [] [] s
  next :
      {s t : Session} {es : List Event} {fx : List Effect} (w : World) (e : Event)
      → is_enabled e s ≡ true
      → (step w e s).flow ≡ goes_on
      → Runs (step w e s).session es fx t
      → Runs s (e ∷ es) ((step w e s).effects ++ fx) t

on_message-Keeps : (w : World) (m : Message) (s : Session) → IsSession s → Keeps (on_message w m s)
unfolding on_message
on_message-Keeps w (Message.video_frame f) s i = on_video_frame-Keeps w f s i
on_message-Keeps w (Message.video_capabilities_update u) s i = on_update-Keeps u s i
on_message-Keeps w (Message.stream_configuration_result r) s i = on_result-Keeps w r s i
on_message-Keeps w (Message.disconnect d) s i = failed _ (λ l. cc)
on_message-Keeps w (Message.handshake h) s i = kept_of _ i
on_message-Keeps w (Message.audio_frame f) s i = kept_of _ i
on_message-Keeps w (Message.camera_control c) s i = kept_of _ i
on_message-Keeps w (Message.status_update u) s i = kept_of _ i

step-Keeps :
    (w : World) (e : Event) (s : Session) → IsSession s → is_enabled e s ≡ true → Keeps (step w e s)
unfolding step is_enabled
step-Keeps w shutdown s i h = failed _ (λ l. cc)
step-Keeps w (state_changed b) s i h = if-both Keeps b (λ _. failed _ (λ l. cc)) (λ _. kept_of _ i)
step-Keeps w tick s i h = on_tick-Keeps w s i
step-Keeps w (command none) s i h = failed _ (λ l. cc)
step-Keeps w (command (some c)) s i h = on_command-Keeps w c s i (ground arith)
step-Keeps w (decoded none) s i h = failed _ (λ l. cc)
step-Keeps w (decoded (some e)) s i h = on_decoder_event-Keeps w e s i
step-Keeps w (received none) s i h = failed _ (λ l. cc)
step-Keeps w (received (some m)) s i h = on_message-Keeps w m s i

pub start-IsSession :
    (w : World) (decoder : Bool) (h : Handshake) (d : OutputDevice) (local : List StreamProfile)
    (s : Session) (fx : List Effect)
    → start w decoder h d local ≡ ok (s, fx)
    → IsSession s × (s.pending ≡ none)
unfolding start reset_decoder
start-IsSession w decoder h d local s fx k = elim (Option-cases h.active_profile) [
  | inl n ↦ absurd (ground arith)
  | inr (a, m) ↦ elim (commit-cases w d a) [
    | inl (e, o, c) ↦ absurd (ground arith)
    | inr (o, l, c) ↦
        let n : s.pending ≡ none = ground arith in
        (
          no_pending s n
              (record {
                common_lem = ground arith;
                active_common = ground arith;
                counter_bound = ground arith;
              })
              (record { committed_lem = ground arith; decoder_lem = ground arith }),
          n,
        )
  ]
]

pub Runs-IsSession :
    {s t : Session} {es : List Event} {fx : List Effect}
    → Runs s es fx t
    → IsSession s
    → IsSession t
Runs-IsSession rest i = i
Runs-IsSession (next w e h g r) i = Runs-IsSession r ((step-Keeps w e _ i h).kept g)

-- After any number of turns of a session that started: the common profiles are those of the lists
-- in force, and contain the active profile; a pending request has the counter's identifier, which
-- is not 0, and goes back to the active profile; and unless a compensation is pending, the output
-- device is committed to the active profile and the decoder is set to its codec.
pub start-Runs-IsSession :
    (w : World) (decoder : Bool) (h : Handshake) (d : OutputDevice) (local : List StreamProfile)
    (s t : Session) (fx gx : List Effect) (es : List Event)
    → start w decoder h d local ≡ ok (s, fx)
    → Runs s es gx t
    → IsSession t
start-Runs-IsSession w decoder h d local s t fx gx es k r =
    Runs-IsSession r (start-IsSession w decoder h d local s fx k).0
