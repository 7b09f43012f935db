-- ===== src/Pipeline/Invariant/Answers.antt =====
-- The configuration requests and the phone's answers keep the session's invariant.
use phone_cam.Prelude.{
  ℕ, ◌≡◌, inl, inr, refl, true, false, Option, none, some, List, arith, contains, Bool-cases, ◌==◌,
  nat_eq,
}
use phone_cam.Protocol.Profile.{StreamProfile, profile_eq}
use phone_cam.Protocol.Message.{
  StreamConfigurationOutcome, applied, unsupported_profile, capture_configuration_failed,
  encoder_initialization_failed, StreamConfigurationResult,
}
use phone_cam.Output.Device.{OutputDevice}
use phone_cam.Pipeline.Profiles.{accepts_applied_profile}
use phone_cam.Pipeline.Profiles.Laws.{next_request_id-fresh}
use phone_cam.Pipeline.Session.{
  SessionError, PendingKind, configure, compensation, applied_commit_failed, Pending, Session,
  World, request_configuration, reset_decoder,
}
use phone_cam.Pipeline.Results.{
  after_unsolicited, on_unsolicited, after_configure, on_configure_result, after_restore, restore,
  on_compensation_result, on_answer, on_result, after_recommit,
}
use phone_cam.Pipeline.Invariant.{
  prior_of, is_compensation, IsBase, IsSettled, IsSession, Keeps, if-both, option-both, no_pending,
  apply_profile-cases, kept_of, failed, IsBase-of, commit-cases,
}

pub request_configuration-Keeps :
    (w : World) (p : StreamProfile) (k : PendingKind) (s : Session)
    → IsBase s
    → prior_of k ≡ s.active
    → (is_compensation k ≡ false → IsSettled s)
    → Keeps (request_configuration w p k s)
unfolding request_configuration
request_configuration-Keeps w p k s b e f =
    if-both Keeps w.send_works
      (λ h.
        let fresh = next_request_id-fresh s.request_counter b.counter_bound in
        record {
          kept = λ _. record {
            base = record {
              common_lem = b.common_lem;
              active_common = b.active_common;
              counter_bound = fresh.0;
            };
            pending_lem = λ q l. record {
              id_lem = ground arith;
              id_nonzero = ground arith;
              prior_lem = ground arith;
            };
            settled = λ l.
                let t = f (l _ refl) in
                record { committed_lem = t.committed_lem; decoder_lem = t.decoder_lem };
          };
        })
      (λ h. record { kept = λ l. absurd (cc) })

-- A session without a pending request whose output and decoder were set to a common profile.
adopted :
    (s : Session) (p : StreamProfile) (d : OutputDevice)
    → IsBase s
    → s.pending ≡ none
    → contains s.common p ≡ true
    → d.committed_profile ≡ some p
    → IsSession (record s { output = d; decoder_codec = p.codec; active = p })
adopted s p d b n c e =
    no_pending _ n (IsBase-of s _ b refl refl refl refl c)
      (record { committed_lem = e; decoder_lem = refl })

-- An attempt to apply a profile leaves the lists and the active profile.
still_based : (s : Session) (d : OutputDevice) → IsBase s → IsBase (record s { output = d })
still_based s d b = IsBase-of s _ b refl refl refl refl b.active_common

on_unsolicited-Keeps :
    (w : World) (o : StreamConfigurationOutcome) (s : Session)
    → IsSession s
    → s.pending ≡ none
    → Keeps (on_unsolicited w o s)
unfolding on_unsolicited after_unsolicited
on_unsolicited-Keeps w (applied p) s i n =
    if-both Keeps (contains s.common p)
      (λ c. elim (apply_profile-cases w p s) [
        | inl (e, d, h) ↦ rw h (
            request_configuration-Keeps w s.active (compensation s.active e none) _
              (still_based s d i.base) refl (λ f. absurd (cc)))
        | inr (d, e, h) ↦ rw h (kept_of _ (adopted s p d i.base n c e))
      ])
      (λ _. kept_of _ i)
on_unsolicited-Keeps w unsupported_profile s i n = kept_of _ i
on_unsolicited-Keeps w capture_configuration_failed s i n = kept_of _ i
on_unsolicited-Keeps w encoder_initialization_failed s i n = kept_of _ i

accepted_common :
    (common : List StreamProfile) (requested p : StreamProfile)
    → accepts_applied_profile common requested p ≡ true
    → contains common p ≡ true
unfolding accepts_applied_profile
accepted_common common requested p h = ground arith

on_configure_result-Keeps :
    (w : World) (requested prior : StreamProfile) (reply : Option ℕ)
    (o : StreamConfigurationOutcome) (s : Session)
    → IsSession s
    → s.pending ≡ none
    → prior ≡ s.active
    → Keeps (on_configure_result w requested prior reply o s)
unfolding on_configure_result after_configure
on_configure_result-Keeps w requested prior reply (applied p) s i n a =
    if-both Keeps (accepts_applied_profile s.common requested p)
      (λ c. elim (apply_profile-cases w p s) [
        | inl (e, d, h) ↦ rw h (
            request_configuration-Keeps w prior (compensation prior (applied_commit_failed e) reply)
              _ (still_based s d i.base) a (λ f. absurd (cc)))
        | inr (d, e, h) ↦
            rw h (kept_of _ (adopted s p d i.base n (accepted_common s.common requested p c) e))
      ])
      (λ _. kept_of _ i)
on_configure_result-Keeps w requested prior reply unsupported_profile s i n a = kept_of _ i
on_configure_result-Keeps w requested prior reply capture_configuration_failed s i n a = kept_of _ i
on_configure_result-Keeps w requested prior reply encoder_initialization_failed s i n a =
    kept_of _ i

restore-Keeps :
    (w : World) (prior : StreamProfile) (e : SessionError) (reply : Option ℕ) (s : Session)
    → IsBase s
    → s.pending ≡ none
    → prior ≡ s.active
    → Keeps (restore w prior e reply s)
unfolding restore after_recommit after_restore reset_decoder
restore-Keeps w prior e reply s b n a = elim (commit-cases w s.output prior) [
  | inl (f, c, h) ↦ rw h (failed _ (λ l. cc))
  | inr (d, k, h) ↦ rw h (elim (Bool-cases w.reset_works) [
    | inl r ↦ rw r (kept_of _ (adopted s prior d b n (let c = b.active_common in cc) k))
    | inr r ↦ rw r (failed _ (λ l. cc))
  ])
]

on_compensation_result-Keeps :
    (w : World) (prior : StreamProfile) (e : SessionError) (reply : Option ℕ)
    (o : StreamConfigurationOutcome) (s : Session)
    → IsBase s
    → s.pending ≡ none
    → prior ≡ s.active
    → Keeps (on_compensation_result w prior e reply o s)
unfolding on_compensation_result
on_compensation_result-Keeps w prior e reply (applied p) s b n a =
    if-both Keeps (p == prior) (λ _. restore-Keeps w prior e reply s b n a)
      (λ _. failed _ (λ l. cc))
on_compensation_result-Keeps w prior e reply unsupported_profile s b n a = failed _ (λ l. cc)
on_compensation_result-Keeps w prior e reply capture_configuration_failed s b n a =
    failed _ (λ l. cc)
on_compensation_result-Keeps w prior e reply encoder_initialization_failed s b n a =
    failed _ (λ l. cc)

-- The session once the pending request is taken.
taken-IsBase : (s : Session) → IsBase s → IsBase (record s { pending = none })
taken-IsBase s b = IsBase-of s _ b refl refl refl refl b.active_common

pub taken :
    (s : Session) (p : Pending)
    → IsSession s
    → s.pending ≡ some p
    → is_compensation p.kind ≡ false
    → IsSession (record s { pending = none })
taken s p i h k =
    let t = i.settled (λ q l. ground arith) in
    no_pending _ refl (taken-IsBase s i.base)
      (record { committed_lem = t.committed_lem; decoder_lem = t.decoder_lem })

answered-Keeps :
    (w : World) (p : Pending) (k : PendingKind) (o : StreamConfigurationOutcome) (s : Session)
    → IsSession s
    → s.pending ≡ some p
    → p.kind ≡ k
    → Keeps (on_answer w (record p { kind = k }) o (record s { pending = none }))
unfolding on_answer
answered-Keeps w p (configure prior reply) o s i h k =
    on_configure_result-Keeps w p.requested prior reply o _ (taken s p i h (ground arith)) refl
      (let j = (i.pending_lem p h).prior_lem in ground arith)
answered-Keeps w p (compensation prior e reply) o s i h k =
    on_compensation_result-Keeps w prior e reply o _ (taken-IsBase s i.base) refl
      (let j = (i.pending_lem p h).prior_lem in ground arith)

pub on_result-Keeps :
    (w : World) (r : StreamConfigurationResult) (s : Session)
    → IsSession s
    → Keeps (on_result w r s)
unfolding on_result
on_result-Keeps w r s i =
    option-both Keeps s.pending
      (λ n.
        if-both Keeps (r.request_id == 0) (λ _. on_unsolicited-Keeps w r.result s i n)
          (λ _. kept_of _ i))
      (λ p h.
        if-both Keeps (r.request_id == p.request_id)
          (λ _. answered-Keeps w p p.kind r.result s i h refl) (λ _. kept_of _ i))
