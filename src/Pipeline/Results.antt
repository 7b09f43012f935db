-- ===== src/Pipeline/Results.antt =====
-- `Message::StreamConfigurationResult` in `stream_connection`'s loop
-- (rust/phonecam-desktop/src-tauri/src/pipeline.rs).
use phone_cam.Prelude.{
  ℕ, Option, none, some, [], ◌∷◌, Result, ok, err, ◌==◌, nat_eq, if◌then◌else◌, contains,
}
use phone_cam.Protocol.Profile.{StreamProfile, profile_eq}
use phone_cam.Protocol.Message.{StreamConfigurationOutcome, applied, StreamConfigurationResult}
use phone_cam.Output.Device.{OutputDevice, OutputError, commit}
use phone_cam.Pipeline.Profiles.{accepts_applied_profile}
use phone_cam.Pipeline.Session.{
  SessionError, rejected, applied_commit_failed, compensation_failed, output_not_restored,
  decoder_not_restored, configure, compensation, Pending, Session, World, Turn, turn, stay,
  published, reply_to, goes_on, fails, request_configuration, reset_decoder, apply_profile,
}

-- A profile that the phone applied unasked, after the attempt to apply it here.
unfoldable pub after_unsolicited :
    World → StreamProfile → StreamProfile → Session × Result SessionError (Unit {0}) → Turn
after_unsolicited w prior p (s, ok _) =
    let next : Session = record s { active = p } in turn next (published next ∷ []) goes_on
after_unsolicited w prior p (s, err e) = request_configuration w prior (compensation prior e none) s

unfoldable pub on_unsolicited : World → StreamConfigurationOutcome → Session → Turn
unfolding after_unsolicited
on_unsolicited w (applied p) s =
    if contains s.common p then after_unsolicited w s.active p (apply_profile w p s) else stay s
on_unsolicited w _ s = stay s

-- The profile that answers a request of the user, after the attempt to apply it here.
unfoldable pub after_configure :
    World
    → StreamProfile
    → Option ℕ
    → StreamProfile
    → Session × Result SessionError (Unit {0})
    → Turn
after_configure w prior reply p (s, ok _) =
    let next : Session = record s { active = p } in
    turn next (published next ∷ reply_to reply (ok p)) goes_on
after_configure w prior reply p (s, err e) =
    request_configuration w prior (compensation prior (applied_commit_failed e) reply) s

abbrev pub refuse : Option ℕ → StreamConfigurationOutcome → Session → Turn
refuse reply outcome s = turn s (reply_to reply (err (rejected outcome))) goes_on

unfoldable pub on_configure_result :
    World → StreamProfile → StreamProfile → Option ℕ → StreamConfigurationOutcome → Session → Turn
unfolding after_configure
on_configure_result w requested prior reply (applied p) s =
    if accepts_applied_profile s.common requested p
    then after_configure w prior reply p (apply_profile w p s)
    else refuse reply (applied p) s
on_configure_result w requested prior reply outcome s = refuse reply outcome s

-- The decoder's answer once the former profile is committed again.
unfoldable pub after_restore :
    StreamProfile → SessionError → Option ℕ → Session × Result SessionError (Unit {0}) → Turn
after_restore prior e reply (s, ok _) =
    let next : Session = record s { active = prior } in
    turn next (published next ∷ reply_to reply (err e)) goes_on
after_restore prior e reply (s, err _) = turn s [] (fails (decoder_not_restored e))

-- What the device answered when the former profile was committed again.
unfoldable pub after_recommit :
    World
    → StreamProfile
    → SessionError
    → Option ℕ
    → Session
    → OutputDevice × Result OutputError (Unit {0})
    → Turn
unfolding after_restore
after_recommit w prior e reply s (d, ok _) =
    after_restore prior e reply (reset_decoder w prior.codec (record s { output = d }))
after_recommit w prior e reply s (d, err f) =
    turn (record s { output = d }) [] (fails (output_not_restored e f))

unfoldable pub restore : World → StreamProfile → SessionError → Option ℕ → Session → Turn
unfolding after_recommit
restore w prior e reply s = after_recommit w prior e reply s (commit w.v4l2 s.output prior)

-- The phone did not go back to the former profile.
abbrev pub give_up : SessionError → Option ℕ → StreamConfigurationOutcome → Session → Turn
give_up e reply outcome s = turn s (reply_to reply (err e)) (fails (compensation_failed e outcome))

unfoldable pub on_compensation_result :
    World → StreamProfile → SessionError → Option ℕ → StreamConfigurationOutcome → Session → Turn
unfolding restore
on_compensation_result w prior e reply (applied p) s =
    if p == prior then restore w prior e reply s else give_up e reply (applied p) s
on_compensation_result w prior e reply outcome s = give_up e reply outcome s

-- The answer to the pending request; `s` has no pending request any more.
unfoldable pub on_answer : World → Pending → StreamConfigurationOutcome → Session → Turn
unfolding on_configure_result on_compensation_result
on_answer w current outcome s = elim current.kind [
  | configure prior reply ↦ on_configure_result w current.requested prior reply outcome s
  | compensation prior e reply ↦ on_compensation_result w prior e reply outcome s
]

unfoldable pub on_result : World → StreamConfigurationResult → Session → Turn
unfolding on_answer on_unsolicited
on_result w r s = elim s.pending [
  | none ↦ if r.request_id == 0 then on_unsolicited w r.result s else stay s
  | some current ↦
      if r.request_id == current.request_id
      then on_answer w current r.result (record s { pending = none })
      else stay s
]
