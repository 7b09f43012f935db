-- ===== src/Pipeline/Replies/Turns.antt =====
-- The replies of whole turns and histories.
use phone_cam.Prelude.{
  ℕ, ◌≡◌, refl, sym, Bool, true, Option, none, some, List, [], ◌∷◌, ◌++◌, Result, ok, arith, ◌==◌,
  nat_eq, leb, is_ok,
}
use phone_cam.Protocol.Profile.{StreamProfile, profile_eq}
use phone_cam.Protocol.Handshake.{Handshake, VideoFrame, validate_update, validate_against}
use phone_cam.Protocol.Message.{Message, StreamConfigurationOutcome, StreamConfigurationResult}
use phone_cam.Output.Device.{OutputDevice, preflight, write_frame}
use phone_cam.Pipeline.Profiles.{resolve_profile}
use phone_cam.Pipeline.Session.{
  SessionError, PendingKind, configure, compensation, Pending, Command, Session, World, Effect,
  Turn, goes_on, start,
}
use phone_cam.Pipeline.Results.{on_answer, on_result}
use phone_cam.Decoder.Worker.{DecodeEvent, frame, recovery_required, error}
use phone_cam.Pipeline.Step.{
  presentation_ns, Event, shutdown, state_changed, tick, command, decoded, received, expire,
  on_tick, on_resolved, on_command, ask_keyframe, reply_now, on_decoder_event, submit,
  on_video_frame, on_update, on_message, is_enabled, step,
}
use phone_cam.Pipeline.Invariant.{if-both, option-both, result-both}
use phone_cam.Pipeline.History.{Runs, rest, next, start-IsSession}
use phone_cam.Pipeline.Replies.{
  replied, channel_list, reply_of, owed_by, owed, asked_by, asked, Settles, answers, ended,
  append-none, request_configuration-Settles, on_unsolicited-Settles, on_configure_result-Settles,
  on_compensation_result-Settles, replied-append,
}

on_answer-Settles :
    (w : World) (p : Pending) (k : PendingKind) (o : StreamConfigurationOutcome) (s : Session)
    → s.pending ≡ none
    → Settles (channel_list (reply_of k)) (on_answer w (record p { kind = k }) o s)
unfolding on_answer
on_answer-Settles w p (configure prior reply) o s n =
    on_configure_result-Settles w p.requested prior reply o s n
on_answer-Settles w p (compensation prior e reply) o s n =
    on_compensation_result-Settles w prior e reply o s n

-- Nothing was answered, and the session owes what it owed.
unanswered :
    (s : Session) (o : Option Pending)
    → s.pending ≡ o
    → Settles (owed_by o) (record { session = s; effects = []; flow = goes_on })
unfolding replied
unanswered s o h = answers _ _ _ (rw h refl)

settled_as : {cs ds : List ℕ} {t : Turn} → cs ≡ ds → Settles cs t → Settles ds t
settled_as e s = rw e at s

on_result-Settles :
    (w : World) (r : StreamConfigurationResult) (s : Session) → Settles (owed s) (on_result w r s)
unfolding on_result
on_result-Settles w r s =
    option-both (Settles (owed s)) s.pending
      (λ n.
        if-both (Settles (owed s)) (r.request_id == 0)
          (λ _. settled_as (rw n refl) (on_unsolicited-Settles w r.result s n))
          (λ _. unanswered s _ refl))
      (λ p h.
        if-both (Settles (owed s)) (r.request_id == p.request_id)
          (λ _. settled_as (rw h refl) (on_answer-Settles w p p.kind r.result _ refl))
          (λ _. unanswered s _ refl))

expire-Settles :
    (k : PendingKind) (s : Session)
    → s.pending ≡ none
    → Settles (channel_list (reply_of k)) (expire k s)
unfolding expire
expire-Settles (configure prior reply) s n = answers _ _ _ (rw n (append-none reply _))
expire-Settles (compensation prior e reply) s n = ended _ _ (λ l. cc)

on_tick-Settles : (w : World) (s : Session) → Settles (owed s) (on_tick w s)
unfolding on_tick
on_tick-Settles w s =
    option-both (Settles (owed s)) s.pending (λ n. unanswered s _ refl)
      (λ p h.
        if-both (Settles (owed s)) (leb p.deadline w.now)
          (λ _. settled_as (rw h refl) (expire-Settles p.kind _ refl)) (λ _. unanswered s _ refl))

replied_now :
    (channel : ℕ) (a : Result SessionError StreamProfile) (s : Session)
    → s.pending ≡ none
    → Settles (channel ∷ []) (reply_now channel a s)
unfolding replied
replied_now channel a s n = answers _ _ _ (rw n refl)

on_resolved-Settles :
    (w : World) (channel : ℕ) (p : StreamProfile) (s : Session)
    → s.pending ≡ none
    → Settles (channel ∷ []) (on_resolved w channel p s)
unfolding on_resolved
on_resolved-Settles w channel p s n =
    result-both (Settles (channel ∷ [])) (preflight w.v4l2 p)
      (λ u h.
        if-both (Settles (channel ∷ [])) (p == s.active) (λ _. replied_now channel _ s n)
          (λ _. request_configuration-Settles w p (configure s.active (some channel)) s))
      (λ e h. replied_now channel _ s n)

on_command-Settles :
    (w : World) (c : Command) (s : Session)
    → s.pending ≡ none
    → Settles (c.reply ∷ []) (on_command w c s)
unfolding on_command
on_command-Settles w c s n =
    option-both (Settles (c.reply ∷ []))
      (resolve_profile s.common c.width c.height c.fps c.preference)
      (λ h. replied_now c.reply _ s n) (λ p h. on_resolved-Settles w c.reply p s n)

ask_keyframe-Settles : (w : World) (s : Session) → Settles (owed s) (ask_keyframe w s)
unfolding ask_keyframe replied
ask_keyframe-Settles w s =
    if-both (Settles (owed s)) s.keyframe_request_in_flight (λ _. unanswered s _ refl)
      (λ _.
        if-both (Settles (owed s)) w.send_works (λ _. answers _ _ _ refl)
          (λ _. ended _ _ (λ l. cc)))

on_decoder_event-Settles :
    (w : World) (e : DecodeEvent) (s : Session) → Settles (owed s) (on_decoder_event w e s)
unfolding on_decoder_event replied
on_decoder_event-Settles w (frame f) s =
    result-both (Settles (owed s)) (write_frame w.v4l2 s.output f (presentation_ns f.pts_us))
      (λ b h. answers _ _ _ refl) (λ e h. ended _ _ (λ l. cc))
on_decoder_event-Settles w recovery_required s = ask_keyframe-Settles w s
on_decoder_event-Settles w error s = unanswered s _ refl

submit-Settles : (w : World) (f : VideoFrame) (s : Session) → Settles (owed s) (submit w f s)
unfolding submit replied
submit-Settles w f s =
    if-both (Settles (owed s)) w.takes_frame (λ _. answers _ _ _ refl)
      (λ _.
        if-both (Settles (owed s)) f.is_keyframe (λ _. ask_keyframe-Settles w s)
          (λ _. unanswered s _ refl))

on_message-Settles : (w : World) (m : Message) (s : Session) → Settles (owed s) (on_message w m s)
unfolding on_message on_video_frame on_update replied
on_message-Settles w (Message.video_frame f) s =
    if-both (Settles (owed s)) (is_ok (validate_against f s.active))
      (λ _.
        settled_as (if-both (λ t. owed t ≡ owed s) f.is_keyframe (λ _. refl) (λ _. refl))
          (submit-Settles w f _))
      (λ _. unanswered s _ refl)
on_message-Settles w (Message.video_capabilities_update u) s =
    if-both (Settles (owed s)) (is_ok (validate_update u s.active)) (λ _. answers _ _ _ refl)
      (λ _. unanswered s _ refl)
on_message-Settles w (Message.stream_configuration_result r) s = on_result-Settles w r s
on_message-Settles w (Message.disconnect d) s = ended _ _ (λ l. cc)
on_message-Settles w (Message.handshake h) s = unanswered s _ refl
on_message-Settles w (Message.audio_frame f) s = unanswered s _ refl
on_message-Settles w (Message.camera_control c) s = unanswered s _ refl
on_message-Settles w (Message.status_update u) s = unanswered s _ refl

owed-append-none : (o : Option Pending) → owed_by o ++ [] ≡ owed_by o
owed-append-none none = refl
owed-append-none (some p) = ground arith

step-Settles :
    (w : World) (e : Event) (s : Session)
    → is_enabled e s ≡ true
    → Settles (owed s ++ asked_by e) (step w e s)
unfolding step is_enabled
step-Settles w shutdown s h = ended _ _ (λ l. cc)
step-Settles w (state_changed b) s h =
    if-both (Settles (owed s ++ [])) b (λ _. ended _ _ (λ l. cc))
      (λ _. settled_as (sym (owed-append-none s.pending)) (unanswered s _ refl))
step-Settles w tick s h = settled_as (sym (owed-append-none s.pending)) (on_tick-Settles w s)
step-Settles w (command none) s h = ended _ _ (λ l. cc)
step-Settles w (command (some c)) s h =
    let n : s.pending ≡ none = ground arith in settled_as (rw n refl) (on_command-Settles w c s n)
step-Settles w (decoded none) s h = ended _ _ (λ l. cc)
step-Settles w (decoded (some e)) s h =
    settled_as (sym (owed-append-none s.pending)) (on_decoder_event-Settles w e s)
step-Settles w (received none) s h = ended _ _ (λ l. cc)
step-Settles w (received (some m)) s h =
    settled_as (sym (owed-append-none s.pending)) (on_message-Settles w m s)

append_assoc : {A : Type 0} (xs ys zs : List A) → (xs ++ ys) ++ zs ≡ xs ++ (ys ++ zs)
append_assoc [] ys zs = refl
append_assoc (x ∷ xs) ys zs = let h = append_assoc xs ys zs in cc

Runs-replied :
    {s t : Session} {es : List Event} {fx : List Effect}
    → Runs s es fx t
    → replied fx ++ owed t ≡ owed s ++ asked es
unfolding replied asked
Runs-replied {s = s} rest = sym (owed-append-none s.pending)
Runs-replied {s = s} {t = t} (next {es = es} {fx = fx} w e h g r) =
    let turn = step w e s in
    let ih = Runs-replied r in
    let one = (step-Settles w e s h).settled g in
    let split = replied-append turn.effects fx in
    let a = append_assoc (replied turn.effects) (replied fx) (owed t) in
    let b = append_assoc (replied turn.effects) (owed turn.session) (asked es) in
    let c = append_assoc (owed s) (asked_by e) (asked es) in cc

-- From the start of a session on, as long as its loop goes on, the commands are answered in the
-- order in which they came and each exactly once; only the last one may still wait, for the pending
-- request that keeps its reply channel.
pub start-Runs-replied :
    (w : World) (decoder : Bool) (h : Handshake) (d : OutputDevice) (local : List StreamProfile)
    (s t : Session) (fx gx : List Effect) (es : List Event)
    → start w decoder h d local ≡ ok (s, fx)
    → Runs s es gx t
    → replied gx ++ owed t ≡ asked es
start-Runs-replied w decoder h d local s t fx gx es k r =
    let n = (start-IsSession w decoder h d local s fx k).1 in let a = Runs-replied r in cc
