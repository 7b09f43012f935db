-- ===== src/Pipeline/Replies.antt =====
-- Every command of the user is answered once.
pub mod Turns
use phone_cam.Prelude.{
  ℕ, ◌≡◌, refl, Bool, true, false, Option, none, some, List, [], ◌∷◌, ◌++◌, Result, ok, err, arith,
  contains, Option-cases, Result-cases, Bool-cases, inl, inr, ◌==◌, nat_eq, leb, is_ok,
  if◌then◌else◌,
}
use phone_cam.Protocol.Profile.{StreamProfile, profile_eq}
use phone_cam.Protocol.Handshake.{
  Handshake, VideoFrame, CapabilitiesUpdate, validate_update, validate_against,
}
use phone_cam.Protocol.Message.{
  Message, StreamConfigurationOutcome, applied, unsupported_profile, capture_configuration_failed,
  encoder_initialization_failed, StreamConfigurationResult,
}
use phone_cam.Output.Device.{OutputDevice, preflight, write_frame}
use phone_cam.Pipeline.Profiles.{accepts_applied_profile, resolve_profile}
use phone_cam.Pipeline.Session.{
  SessionError, PendingKind, configure, compensation, Pending, Command, Session, World, Effect,
  sends, publishes, replies, decodes, displays, Turn, goes_on, start, reply_to,
  request_configuration, apply_profile, applied_commit_failed,
}
use phone_cam.Pipeline.Results.{
  after_unsolicited, on_unsolicited, after_configure, on_configure_result, after_restore,
  after_recommit, restore, on_compensation_result, on_answer, on_result,
}
use phone_cam.Decoder.Worker.{DecodeEvent, frame, recovery_required, error}
use phone_cam.Pipeline.Step.{
  presentation_ns, Event, shutdown, state_changed, tick, command, decoded, received, expire,
  on_tick, on_resolved, on_command, ask_keyframe, on_decoder_event, submit, on_video_frame,
  on_update, on_message, is_enabled, step,
}
use phone_cam.Pipeline.Invariant.{
  if-both, option-both, result-both, apply_profile-cases, commit-cases,
}
use phone_cam.Pipeline.History.{Runs, rest, next, start-IsSession}

-- The reply channels that were answered.
unfoldable pub replied : List Effect → List ℕ
replied [] = []
replied (replies channel answer ∷ fx) = channel ∷ replied fx
replied (sends m ∷ fx) = replied fx
replied (publishes common active format ∷ fx) = replied fx
replied (decodes f ∷ fx) = replied fx
replied (displays bytes ∷ fx) = replied fx

abbrev pub channel_list : Option ℕ → List ℕ
channel_list none = []
channel_list (some channel) = channel ∷ []

abbrev pub reply_of : PendingKind → Option ℕ
reply_of (configure prior reply) = reply
reply_of (compensation prior e reply) = reply

-- The reply channel that the pending request keeps.
abbrev pub owed_by : Option Pending → List ℕ
owed_by none = []
owed_by (some p) = channel_list (reply_of p.kind)

abbrev pub owed : Session → List ℕ
owed s = owed_by s.pending

-- The reply channel that an event brings.
abbrev pub asked_by : Event → List ℕ
asked_by (command (some c)) = c.reply ∷ []
asked_by _ = []

unfoldable pub asked : List Event → List ℕ
asked [] = []
asked (e ∷ es) = asked_by e ++ asked es

-- A turn answers the channels `cs`, or still owes them.
record Settles (cs : List ℕ) (t : Turn) : Type 0 where
  settled : t.flow ≡ goes_on → replied t.effects ++ owed t.session ≡ cs

replied-reply_to :
    (reply : Option ℕ) (a : Result SessionError StreamProfile)
    → replied (reply_to reply a) ≡ channel_list reply
unfolding replied
replied-reply_to none a = refl
replied-reply_to (some c) a = refl

replied-append : (fx gx : List Effect) → replied (fx ++ gx) ≡ replied fx ++ replied gx
unfolding replied
replied-append [] gx = refl
replied-append (replies channel answer ∷ fx) gx = let h = replied-append fx gx in cc
replied-append (sends m ∷ fx) gx = replied-append fx gx
replied-append (publishes common active format ∷ fx) gx = replied-append fx gx
replied-append (decodes f ∷ fx) gx = replied-append fx gx
replied-append (displays bytes ∷ fx) gx = replied-append fx gx

answers :
    (s : Session) (fx : List Effect) (cs : List ℕ)
    → replied fx ++ owed s ≡ cs
    → Settles cs (record { session = s; effects = fx; flow = goes_on })
answers s fx cs h = record { settled = λ _. h }

ended : (cs : List ℕ) (t : Turn) → (t.flow ≡ goes_on → ⊥) → Settles cs t
ended cs t f = record { settled = λ h. absurd (f h) }

request_configuration-Settles :
    (w : World) (p : StreamProfile) (k : PendingKind) (s : Session)
    → Settles (channel_list (reply_of k)) (request_configuration w p k s)
unfolding request_configuration replied
request_configuration-Settles w p k s =
    if-both (Settles (channel_list (reply_of k))) w.send_works (λ _. answers _ _ _ refl)
      (λ _. ended _ _ (λ l. cc))

append-none :
    (reply : Option ℕ) (a : Result SessionError StreamProfile)
    → replied (reply_to reply a) ++ [] ≡ channel_list reply
unfolding replied
append-none none a = refl
append-none (some c) a = refl

on_unsolicited-Settles :
    (w : World) (o : StreamConfigurationOutcome) (s : Session)
    → s.pending ≡ none
    → Settles [] (on_unsolicited w o s)
unfolding on_unsolicited after_unsolicited replied
on_unsolicited-Settles w (applied p) s n =
    if-both (Settles []) (contains s.common p)
      (λ c. elim (apply_profile-cases w p s) [
        | inl (e, d, h) ↦
            rw h (request_configuration-Settles w s.active (compensation s.active e none) _)
        | inr (d, e, h) ↦ rw h (answers _ _ _ (ground arith))
      ])
      (λ _. answers _ _ _ (ground arith))
on_unsolicited-Settles w unsupported_profile s n = answers _ _ _ (ground arith)
on_unsolicited-Settles w capture_configuration_failed s n = answers _ _ _ (ground arith)
on_unsolicited-Settles w encoder_initialization_failed s n = answers _ _ _ (ground arith)

on_configure_result-Settles :
    (w : World) (requested prior : StreamProfile) (reply : Option ℕ)
    (o : StreamConfigurationOutcome) (s : Session)
    → s.pending ≡ none
    → Settles (channel_list reply) (on_configure_result w requested prior reply o s)
unfolding on_configure_result after_configure replied
on_configure_result-Settles w requested prior reply (applied p) s n =
    if-both (Settles (channel_list reply)) (accepts_applied_profile s.common requested p)
      (λ c. elim (apply_profile-cases w p s) [
        | inl (e, d, h) ↦ rw h (
            request_configuration-Settles w prior
              (compensation prior (applied_commit_failed e) reply) _)
        | inr (d, e, h) ↦ rw h (answers _ _ _ (rw n (append-none reply _)))
      ])
      (λ _. answers _ _ _ (rw n (append-none reply _)))
on_configure_result-Settles w requested prior reply unsupported_profile s n =
    answers _ _ _ (rw n (append-none reply _))
on_configure_result-Settles w requested prior reply capture_configuration_failed s n =
    answers _ _ _ (rw n (append-none reply _))
on_configure_result-Settles w requested prior reply encoder_initialization_failed s n =
    answers _ _ _ (rw n (append-none reply _))

restore-Settles :
    (w : World) (prior : StreamProfile) (e : SessionError) (reply : Option ℕ) (s : Session)
    → s.pending ≡ none
    → Settles (channel_list reply) (restore w prior e reply s)
unfolding restore after_recommit after_restore phone_cam.Pipeline.Session.reset_decoder replied
restore-Settles w prior e reply s n = elim (commit-cases w s.output prior) [
  | inl (f, c, h) ↦ rw h (ended _ _ (λ l. cc))
  | inr (d, k, h) ↦ rw h (elim (Bool-cases w.reset_works) [
    | inl r ↦ rw r (answers _ _ _ (rw n (append-none reply _)))
    | inr r ↦ rw r (ended _ _ (λ l. cc))
  ])
]

on_compensation_result-Settles :
    (w : World) (prior : StreamProfile) (e : SessionError) (reply : Option ℕ)
    (o : StreamConfigurationOutcome) (s : Session)
    → s.pending ≡ none
    → Settles (channel_list reply) (on_compensation_result w prior e reply o s)
unfolding on_compensation_result
on_compensation_result-Settles w prior e reply (applied p) s n =
    if-both (Settles (channel_list reply)) (p == prior) (λ _. restore-Settles w prior e reply s n)
      (λ _. ended _ _ (λ l. cc))
on_compensation_result-Settles w prior e reply unsupported_profile s n = ended _ _ (λ l. cc)
on_compensation_result-Settles w prior e reply capture_configuration_failed s n =
    ended _ _ (λ l. cc)
on_compensation_result-Settles w prior e reply encoder_initialization_failed s n =
    ended _ _ (λ l. cc)
