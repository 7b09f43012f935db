-- ===== src/Pipeline/Invariant/Turns.antt =====
-- The other turns of the loop keep the session's invariant.
use phone_cam.Prelude.{ℕ, ◌≡◌, refl, Bool, true, false, none, some, arith, ◌==◌, nat_eq, is_ok, leb}
use phone_cam.Protocol.Profile.{StreamProfile, profile_eq}
use phone_cam.Protocol.Handshake.{CapabilitiesUpdate, validate_update, validate_against, VideoFrame}
use phone_cam.Output.Device.{preflight, write_frame}
use phone_cam.Pipeline.Profiles.{resolve_profile}
use phone_cam.Pipeline.Profiles.Laws.{contains-common_profiles}
use phone_cam.Pipeline.Session.{
  PendingKind, configure, compensation, Pending, Command, Session, World,
}
use phone_cam.Decoder.Worker.{DecodeEvent, frame, recovery_required, error}
use phone_cam.Pipeline.Step.{
  expire, on_tick, on_resolved, on_command, ask_keyframe, presentation_ns, on_decoder_event, submit,
  on_video_frame, on_update,
}
use phone_cam.Pipeline.Invariant.{
  IsSession, Keeps, if-both, option-both, result-both, kept_of, failed, IsBase-of,
}
use phone_cam.Pipeline.Invariant.Answers.{request_configuration-Keeps, taken}

expire-Keeps :
    (p : Pending) (k : PendingKind) (s : Session)
    → IsSession s
    → s.pending ≡ some p
    → p.kind ≡ k
    → Keeps (expire k (record s { pending = none }))
unfolding expire
expire-Keeps p (configure prior reply) s i h k = kept_of _ (taken s p i h (ground arith))
expire-Keeps p (compensation prior e reply) s i h k = failed _ (λ l. cc)

pub on_tick-Keeps : (w : World) (s : Session) → IsSession s → Keeps (on_tick w s)
unfolding on_tick
on_tick-Keeps w s i =
    option-both Keeps s.pending (λ n. kept_of _ i)
      (λ p h.
        if-both Keeps (leb p.deadline w.now) (λ _. expire-Keeps p p.kind s i h refl)
          (λ _. kept_of _ i))

on_resolved-Keeps :
    (w : World) (channel : ℕ) (p : StreamProfile) (s : Session)
    → IsSession s
    → s.pending ≡ none
    → Keeps (on_resolved w channel p s)
unfolding on_resolved
on_resolved-Keeps w channel p s i n =
    result-both Keeps (preflight w.v4l2 p)
      (λ u h.
        if-both Keeps (p == s.active) (λ _. kept_of _ i)
          (λ _.
            request_configuration-Keeps w p (configure s.active (some channel)) s i.base refl
              (λ _. i.settled (λ q l. absurd (cc)))))
      (λ e h. kept_of _ i)

pub on_command-Keeps :
    (w : World) (c : Command) (s : Session)
    → IsSession s
    → s.pending ≡ none
    → Keeps (on_command w c s)
unfolding on_command
on_command-Keeps w c s i n =
    option-both Keeps (resolve_profile s.common c.width c.height c.fps c.preference)
      (λ h. kept_of _ i) (λ p h. on_resolved-Keeps w c.reply p s i n)

-- The flag for key frames is not part of what a session must satisfy.
flagged :
    (s : Session) (b : Bool) → IsSession s → IsSession (record s { keyframe_request_in_flight = b })
flagged s b i = record {
  base = IsBase-of s _ i.base refl refl refl refl i.base.active_common;
  pending_lem = λ p h.
      let j = i.pending_lem p h in
      record { id_lem = j.id_lem; id_nonzero = j.id_nonzero; prior_lem = j.prior_lem };
  settled = λ f.
      let j = i.settled f in
      record { committed_lem = j.committed_lem; decoder_lem = j.decoder_lem };
}

ask_keyframe-Keeps : (w : World) (s : Session) → IsSession s → Keeps (ask_keyframe w s)
unfolding ask_keyframe
ask_keyframe-Keeps w s i =
    if-both Keeps s.keyframe_request_in_flight (λ _. kept_of _ i)
      (λ _.
        if-both Keeps w.send_works (λ _. kept_of _ (flagged s true i)) (λ _. failed _ (λ l. cc)))

pub on_decoder_event-Keeps :
    (w : World) (e : DecodeEvent) (s : Session) → IsSession s → Keeps (on_decoder_event w e s)
unfolding on_decoder_event
on_decoder_event-Keeps w (frame f) s i =
    result-both Keeps (write_frame w.v4l2 s.output f (presentation_ns f.pts_us))
      (λ b h. kept_of _ i) (λ e h. failed _ (λ l. cc))
on_decoder_event-Keeps w recovery_required s i = ask_keyframe-Keeps w s i
on_decoder_event-Keeps w error s i = kept_of _ i

submit-Keeps : (w : World) (f : VideoFrame) (s : Session) → IsSession s → Keeps (submit w f s)
unfolding submit
submit-Keeps w f s i =
    if-both Keeps w.takes_frame (λ _. kept_of _ i)
      (λ _. if-both Keeps f.is_keyframe (λ _. ask_keyframe-Keeps w s i) (λ _. kept_of _ i))

pub on_video_frame-Keeps :
    (w : World) (f : VideoFrame) (s : Session) → IsSession s → Keeps (on_video_frame w f s)
unfolding on_video_frame
on_video_frame-Keeps w f s i =
    if-both Keeps (is_ok (validate_against f s.active))
      (λ _. submit-Keeps w f _ (if-both IsSession f.is_keyframe (λ _. flagged s false i) (λ _. i)))
      (λ _. kept_of _ i)

pub on_update-Keeps : (u : CapabilitiesUpdate) (s : Session) → IsSession s → Keeps (on_update u s)
unfolding on_update validate_update
on_update-Keeps u s i =
    if-both Keeps (is_ok (validate_update u s.active))
      (λ h. kept_of _ (record {
        base = record {
          common_lem = refl;
          active_common =
              let k = (contains-common_profiles s.local_profiles u.supported_profiles s.active).1 in
              let l = (contains-common_profiles s.local_profiles s.peer_profiles s.active).0 in
              let m = i.base.active_common in
              let n = i.base.common_lem in k ((l (cc)).0, ground arith);
          counter_bound = i.base.counter_bound;
        };
        pending_lem = λ p l.
            let j = i.pending_lem p l in
            record { id_lem = j.id_lem; id_nonzero = j.id_nonzero; prior_lem = j.prior_lem };
        settled = λ f.
            let j = i.settled f in
            record { committed_lem = j.committed_lem; decoder_lem = j.decoder_lem };
      }))
      (λ _. kept_of _ i)
