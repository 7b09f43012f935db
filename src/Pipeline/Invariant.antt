-- ===== src/Pipeline/Invariant.antt =====
-- What holds of a session between two turns of its loop.
pub mod Answers
pub mod Turns
use phone_cam.Prelude.{
  ℕ, ◌<◌, ◌^◌, ◌≡◌, ◌⊎◌, inl, inr, refl, Bool, true, false, not, ◌&&◌, Option, none, some, List, [],
  ◌∷◌, Result, ok, err, arith, contains, Bool-cases, Option-cases, Result-cases, if◌then◌else◌,
  ◌==◌, nat_eq, is_ok, leb, is_ok→ok,
}
use phone_cam.Protocol.Profile.{VideoCodec, StreamProfile, profile_eq}
use phone_cam.Protocol.Handshake.{CapabilitiesUpdate, validate_update, validate_against, VideoFrame}
use phone_cam.Protocol.Message.{
  Message, StreamConfigurationOutcome, applied, unsupported_profile, capture_configuration_failed,
  encoder_initialization_failed, StreamConfigurationResult,
}
use phone_cam.Video.Convert.{Converter}
use phone_cam.Output.Device.{
  OutputDevice, OutputError, commit, asked, preflight, write_frame, agreed_converter,
}
use phone_cam.Pipeline.Profiles.{
  common_profiles, accepts_applied_profile, resolve_profile, next_request_id,
}
use phone_cam.Pipeline.Profiles.Laws.{contains-common_profiles, next_request_id-fresh}
use phone_cam.Pipeline.Session.{
  SessionError, output_error, decoder_reset_failed, PendingKind, configure, compensation,
  applied_commit_failed, Pending, Command, Session, World, Turn, goes_on, turn, stay, reply_to,
  request_configuration, reset_decoder, apply_profile,
}
use phone_cam.Pipeline.Results.{
  after_unsolicited, on_unsolicited, after_configure, on_configure_result, after_restore, restore,
  on_compensation_result, on_answer, on_result, after_recommit,
}
use phone_cam.Decoder.Worker.{DecodeEvent, frame, recovery_required, error}
use phone_cam.Pipeline.Step.{
  Event, shutdown, state_changed, tick, command, decoded, received, expire, on_tick, on_resolved,
  on_command, ask_keyframe, presentation_ns, on_decoder_event, submit, on_video_frame, on_update,
  on_message, is_enabled, step,
}

-- The profile in use before the pending request.
abbrev pub prior_of : PendingKind → StreamProfile
prior_of (configure prior reply) = prior
prior_of (compensation prior e reply) = prior

abbrev pub is_compensation : PendingKind → Bool
is_compensation (configure prior reply) = false
is_compensation (compensation prior e reply) = true

-- The lists and the active profile fit together, and the counter is a `u32`.
pub record IsBase (s : Session) : Type 0 where
  pub common_lem : s.common ≡ common_profiles s.local_profiles s.peer_profiles
  pub active_common : contains s.common s.active ≡ true
  pub counter_bound : s.request_counter < 2 ^ 32

-- The output device and the decoder are set to the active profile.
pub record IsSettled (s : Session) : Type 0 where
  pub committed_lem : s.output.committed_profile ≡ some s.active
  pub decoder_lem : s.decoder_codec ≡ s.active.codec

pub record IsPending (s : Session) (p : Pending) : Type 0 where
  pub id_lem : p.request_id ≡ s.request_counter
  pub id_nonzero : ¬ (p.request_id ≡ 0)
  pub prior_lem : prior_of p.kind ≡ s.active

-- Only while a compensation is pending may the output and the decoder differ from the active
-- profile.
pub record IsSession (s : Session) : Type 0 where
  pub base : IsBase s
  pub pending_lem : (p : Pending) → s.pending ≡ some p → IsPending s p
  pub settled : ((p : Pending) → s.pending ≡ some p → is_compensation p.kind ≡ false) → IsSettled s

-- A turn after which the loop goes on leaves a session.
pub record Keeps (t : Turn) : Type 0 where
  pub kept : t.flow ≡ goes_on → IsSession t.session

-- Splitting a property of a conditional.
pub if-both {ℓ κ} :
    {A : Type ℓ} (P : A → Type κ) (b : Bool) {x y : A}
    → (b ≡ true → P x)
    → (b ≡ false → P y)
    → P (if b then x else y)
if-both P true f g = f refl
if-both P false f g = g refl

pub option-both {α ℓ κ} :
    {A : Type α} {B : Type ℓ} (P : B → Type κ) (o : Option A) {x : B} {f : A → B}
    → (o ≡ none → P x)
    → ((a : A) → o ≡ some a → P (f a))
    → P (elim o as (λ _. B) [ none ↦ x | some a ↦ f a ])
option-both P none g h = g refl
option-both P (some a) g h = h a refl

pub result-both {ε α ℓ κ} :
    {E : Type ε} {A : Type α} {B : Type ℓ} (P : B → Type κ) (r : Result E A) {f : A → B} {g : E → B}
    → ((a : A) → r ≡ ok a → P (f a))
    → ((e : E) → r ≡ err e → P (g e))
    → P (elim r as (λ _. B) [ ok a ↦ f a | err e ↦ g e ])
result-both P (ok a) h k = h a refl
result-both P (err e) h k = k e refl

pub no_pending : (s : Session) → s.pending ≡ none → IsBase s → IsSettled s → IsSession s
no_pending s e b t = record { base = b; pending_lem = λ p h. absurd (cc); settled = λ _. t }

-- The output device that took a profile.
abbrev pub committed : World → OutputDevice → StreamProfile → Converter → OutputDevice
committed w d p k = record {
  device = asked w.v4l2 d.device p;
  converter = some k;
  committed_profile = some p;
}

pub commit_agreed :
    (w : World) (d : OutputDevice) (p : StreamProfile) (k : Converter)
    → agreed_converter w.v4l2 p ≡ ok k
    → commit w.v4l2 d p ≡ (committed w d p k, ok tt)
unfolding commit
commit_agreed w d p k h = rw (commit, h) refl

pub commit_refused :
    (w : World) (d : OutputDevice) (p : StreamProfile) (e : OutputError)
    → agreed_converter w.v4l2 p ≡ err e
    → commit w.v4l2 d p ≡ (record d { device = asked w.v4l2 d.device p }, err e)
unfolding commit
commit_refused w d p e h = rw (commit, h) refl

-- What `apply_profile` leaves: on an error the output may be changed, and nothing else.
pub apply_profile-cases :
    (w : World) (p : StreamProfile) (s : Session)
    → ((e : SessionError) × (d : OutputDevice) × (apply_profile w p s
          ≡ (record s { output = d }, err e)))
      ⊎ ((d : OutputDevice) × (d.committed_profile ≡ some p)
          × (apply_profile w p s ≡ (record s { output = d; decoder_codec = p.codec }, ok tt)))
unfolding apply_profile reset_decoder
apply_profile-cases w p s = elim (Result-cases (agreed_converter w.v4l2 p)) [
  | inl (k, h) ↦ elim (Bool-cases w.reset_works) [
    | inl r ↦
        let m = commit_agreed w s.output p k h in inr (committed w s.output p k, refl, ground arith)
    | inr r ↦
        let m = commit_agreed w s.output p k h in
        inl (decoder_reset_failed, committed w s.output p k, ground arith)
  ]
  | inr (e, h) ↦ inl (
    output_error e,
    record s.output { device = asked w.v4l2 s.output.device p },
    let m = commit_refused w s.output p e h in ground arith,
  )
]

pub kept_of : (t : Turn) → IsSession t.session → Keeps t
kept_of t i = record { kept = λ _. i }

pub failed : (t : Turn) → (t.flow ≡ goes_on → ⊥) → Keeps t
failed t f = record { kept = λ h. absurd (f h) }

pub IsBase-of :
    (s t : Session)
    → IsBase s
    → t.common ≡ s.common
    → t.local_profiles ≡ s.local_profiles
    → t.peer_profiles ≡ s.peer_profiles
    → t.request_counter ≡ s.request_counter
    → contains t.common t.active ≡ true
    → IsBase t
IsBase-of s t b c l p r a = record {
  common_lem = let h = b.common_lem in cc;
  active_common = a;
  counter_bound = let h = b.counter_bound in rw r h;
}

-- A device that took a profile has it.
pub commit-cases :
    (w : World) (d : OutputDevice) (p : StreamProfile)
    → ((e : OutputError) × (c : OutputDevice) × (commit w.v4l2 d p ≡ (c, err e)))
      ⊎ ((c : OutputDevice) × (c.committed_profile ≡ some p) × (commit w.v4l2 d p ≡ (c, ok tt)))
commit-cases w d p = elim (Result-cases (agreed_converter w.v4l2 p)) [
  | inl (k, h) ↦ inr (committed w d p k, refl, commit_agreed w d p k h)
  | inr (e, h) ↦ inl (e, record d { device = asked w.v4l2 d.device p }, commit_refused w d p e h)
]
