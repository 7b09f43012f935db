-- ===== src/Pipeline/Switch.antt =====
-- A change of the profile from the user's command to the phone's answer, where it works and where
-- the desktop cannot follow and takes it back.
use phone_cam.Prelude.{
  ℕ, ◌≡◌, refl, sym, true, false, Option, none, some, [], ◌∷◌, ok, err, arith, ◌==◌, nat_eq, ◌+◌,
  inl, inr,
}
use phone_cam.Protocol.Profile.{StreamProfile, profile_eq}
use phone_cam.Protocol.Message.{Message, configure_stream, applied}
use phone_cam.Video.Convert.{Converter}
use phone_cam.Output.Device.{V4l2Device, OutputDevice, preflight, agreed_converter, commit}
use phone_cam.Output.Device.Laws.{agreed-IsAgreeable, asked_offered}
use phone_cam.Pipeline.Profiles.{next_request_id, resolve_profile, accepts_applied_profile}
use phone_cam.Pipeline.Session.{
  SessionError, Pending, PendingKind, configure, compensation, applied_commit_failed, Command,
  Session, World, sends, replies, turn, goes_on, published, configuration_timeout,
  request_configuration, apply_profile, reset_decoder,
}
use phone_cam.Pipeline.Results.{
  on_result, on_answer, on_configure_result, after_configure, on_compensation_result, restore,
  after_recommit, after_restore,
}
use phone_cam.Pipeline.Step.{received, command, step, on_command, on_resolved, on_message}
use phone_cam.Pipeline.Invariant.{commit-cases, commit_agreed}

abbrev pub answer : ℕ → StreamProfile → Message
answer id p = Message.stream_configuration_result (record { request_id = id; result = applied p })

-- The session while the request for `q` is pending.
abbrev pub requesting : World → StreamProfile → PendingKind → Session → Session
requesting w q kind s = record s {
  request_counter = next_request_id s.request_counter;
  pending = some (record {
    request_id = next_request_id s.request_counter;
    requested = q;
    deadline = w.now + configuration_timeout;
    kind = kind;
  });
}

requested :
    (w : World) (q : StreamProfile) (kind : PendingKind) (s : Session)
    → w.send_works ≡ true
    → request_configuration w q kind s
      ≡ turn
          (requesting w q kind s)
          (sends (Message.camera_control (configure_stream (next_request_id s.request_counter) q))
            ∷ [])
          goes_on
unfolding request_configuration
requested w q kind s h = rw h refl

command-sent :
    (w : World) (c : Command) (q : StreamProfile) (s : Session)
    → resolve_profile s.common c.width c.height c.fps c.preference ≡ some q
    → preflight w.v4l2 q ≡ ok tt
    → (q == s.active) ≡ false
    → w.send_works ≡ true
    → step w (command (some c)) s
      ≡ turn
          (requesting w q (configure s.active (some c.reply)) s)
          (sends (Message.camera_control (configure_stream (next_request_id s.request_counter) q))
            ∷ [])
          goes_on
unfolding step on_command on_resolved
command-sent w c q s r f d h =
    let k = requested w q (configure s.active (some c.reply)) s h in ground arith

-- An answer to the pending request is handled as such.
answered :
    (w : World) (s : Session) (q : Pending) (p : StreamProfile)
    → s.pending ≡ some q
    → step w (received (some (answer q.request_id p))) s
      ≡ on_answer w q (applied p) (record s { pending = none })
unfolding step on_message on_result
answered w s q p h = ground arith

-- The session once `p` is in use, with the driver's device as it then is and the converter that fits.
abbrev pub using : Session → ℕ → StreamProfile → V4l2Device → Converter → Session
using s id p device k = record s {
  active = p;
  output = record { device = device; converter = some k; committed_profile = some p };
  decoder_codec = p.codec;
  request_counter = id;
  pending = none;
}

-- A commit that the driver agrees to.
set_to :
    (w : World) (d : OutputDevice) (p : StreamProfile) (k : Converter)
    → agreed_converter w.v4l2 p ≡ ok k
    → commit w.v4l2 d p ≡ (
      record {
        device = w.v4l2.left_by_set_format p.width p.height p.fps d.device;
        converter = some k;
        committed_profile = some p;
      },
      ok tt,
    )
set_to w d p k h =
    let a = agreed-IsAgreeable w.v4l2 p k h in
    let n = asked_offered w.v4l2 d.device p (a.supported, a.offered) in
    rw (sym n) (commit_agreed w d p k h)

-- If the profile of a command is resolved and qualified, is not the active one, and the request is
-- sent, and if the phone then applies an acceptable profile that the driver agrees to and the
-- decoder takes, then the first turn sends the request and nothing else, and the second uses the
-- applied profile everywhere, publishes it, and answers the command with it.
pub switch-applied :
    (w v : World) (c : Command) (q p : StreamProfile) (k : Converter) (s : Session)
    → resolve_profile s.common c.width c.height c.fps c.preference ≡ some q
    → preflight w.v4l2 q ≡ ok tt
    → (q == s.active) ≡ false
    → w.send_works ≡ true
    → accepts_applied_profile s.common q p ≡ true
    → agreed_converter v.v4l2 p ≡ ok k
    → v.reset_works ≡ true
    → let id = next_request_id s.request_counter in
      let first = step w (command (some c)) s in
      let second = step v (received (some (answer id p))) first.session in
      let device = v.v4l2.left_by_set_format p.width p.height p.fps s.output.device in
      let final = using s id p device k in
      (first.effects ≡ sends (Message.camera_control (configure_stream id q)) ∷ [])
      × (second ≡ turn final (published final ∷ replies c.reply (ok p) ∷ []) goes_on)
unfolding on_answer on_configure_result after_configure apply_profile reset_decoder
switch-applied w v c q p k s r f d h a g b =
    let one = command-sent w c q s r f d h in
    let sent = requesting w q (configure s.active (some c.reply)) s in
    let two = answered v sent _ p refl in
    let m = set_to v s.output p k g in (rw one refl, rw (one, two) (ground arith))

-- What the second turn does where the profile cannot be applied.
after_failure :
    (v : World) (q p prior : StreamProfile) (reply : Option ℕ) (s t : Session) (e : SessionError)
    → accepts_applied_profile s.common q p ≡ true
    → apply_profile v p s ≡ (t, err e)
    → v.send_works ≡ true
    → on_configure_result v q prior reply (applied p) s
      ≡ turn
          (requesting v prior (compensation prior (applied_commit_failed e) reply) t)
          (sends
              (Message.camera_control (configure_stream (next_request_id t.request_counter) prior))
            ∷ [])
          goes_on
unfolding on_configure_result after_configure
after_failure v q p prior reply s t e a f h =
    let l = requested v prior (compensation prior (applied_commit_failed e) reply) t h in
    rw (a, f) l

-- A failure leaves all but the output; whether it happens does not depend on the counter and the
-- pending request.
failed_cases :
    (v : World) (p : StreamProfile) (s : Session) (id : ℕ) (e : SessionError)
    → (apply_profile v p s).1 ≡ err e
    → apply_profile v p (record s { request_counter = id; pending = none }) ≡ (
      record s { request_counter = id; pending = none; output = (apply_profile v p s).0.output },
      err e,
    )
unfolding apply_profile reset_decoder
failed_cases v p s id e h = elim (commit-cases v s.output p) [
  | inl (f, d, c) ↦ ground arith
  | inr (d, l, c) ↦ ground arith
]

-- If the profile of a command is resolved and qualified, is not the active one, and the request is
-- sent, and if the phone then applies an acceptable profile but the driver or the decoder fails to
-- take it with an error, the desktop asks the phone for the former profile, if that can be sent. If
-- the phone applies the former profile and the desktop can set it again, then the session uses it
-- everywhere again, publishes it, and answers the command with just that error, as one of an applied
-- profile that was not committed.
pub switch-compensated :
    (w v x : World) (c : Command) (q p : StreamProfile) (k : Converter) (s : Session)
    (e : SessionError)
    → resolve_profile s.common c.width c.height c.fps c.preference ≡ some q
    → preflight w.v4l2 q ≡ ok tt
    → (q == s.active) ≡ false
    → w.send_works ≡ true
    → accepts_applied_profile s.common q p ≡ true
    → (apply_profile v p s).1 ≡ err e
    → v.send_works ≡ true
    → agreed_converter x.v4l2 s.active ≡ ok k
    → x.reset_works ≡ true
    → let id = next_request_id s.request_counter in
      let back = next_request_id id in
      let first = step w (command (some c)) s in
      let second = step v (received (some (answer id p))) first.session in
      let third = step x (received (some (answer back s.active))) second.session in
      let left = (apply_profile v p s).0.output.device in
      let device = x.v4l2.left_by_set_format s.active.width s.active.height s.active.fps left in
      let final = using s back s.active device k in
      (second.effects ≡ sends (Message.camera_control (configure_stream back s.active)) ∷ [])
      × (third
          ≡ turn final
              (published final ∷ replies c.reply (err (applied_commit_failed e)) ∷ [])
              goes_on)
unfolding on_answer on_compensation_result restore after_recommit after_restore reset_decoder
switch-compensated w v x c q p k s e r f d h a g i b j =
    let one = command-sent w c q s r f d h in
    let id = next_request_id s.request_counter in
    let back = next_request_id id in
    let sent = requesting w q (configure s.active (some c.reply)) s in
    let two = answered v sent _ p refl in
    let taken : Session = record s { request_counter = id; pending = none } in
    let o = failed_cases v p s id e g in
    let left : Session = record taken { output = (apply_profile v p s).0.output } in
    let m = after_failure v q p s.active (some c.reply) taken left e a o i in
    let undoing =
      requesting v s.active (compensation s.active (applied_commit_failed e) (some c.reply)) left in
    let three = answered x undoing _ s.active refl in
    let set = set_to x ((apply_profile v p s).0.output) s.active k b in
    (rw (one, two, m) refl, rw (one, two, m, three) (ground arith))
