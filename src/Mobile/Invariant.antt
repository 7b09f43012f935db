-- ===== src/Mobile/Invariant.antt =====
-- What holds of the mobile core after any history.
use phone_cam.Prelude.{
  ℕ, ◌≤◌, ◌≡◌, refl, Bool, true, false, ◌&&◌, ◌==◌, nat_eq, option_eq, not, Option, none, some,
  List, [], ◌∷◌, Mem, Result, ok, err, arith, contains→mem, is_ok, is_ok→ok, length, length-append,
  if◌then◌else◌,
}
use phone_cam.Text.{Text}
use phone_cam.Protocol.Profile.{StreamProfile, VideoCodec, profile_eq, codec_try_from}
use phone_cam.Protocol.Profile.Laws.{IsSupported, IsProfileList}
use phone_cam.Protocol.Handshake.{validate_against, validate_update, CapabilitiesUpdate}
use phone_cam.Protocol.Handshake.Laws.{IsHandshake, validate_update-ok_iff}
use phone_cam.Protocol.Message.{Message, StreamConfigurationOutcome, applied}
use phone_cam.Mobile.State.{
  Link, TransportClient, Core, CStr, null, invalid_utf8, text, try_enqueue,
  outbound_channel_capacity,
}
use phone_cam.Mobile.Stream.{
  FrameCall, frame_of, send_frame, send_video_frame, update_client, update_with,
  update_video_capabilities, Report, pending_id, reported_profile, reported_outcome, next_active,
  report_client, report_stream_configuration,
}

-- The active profile is one that both ends support, the offered list is valid, a pending
-- configuration names a supported profile, and the outbound channel keeps to its capacity.
pub record IsClient (c : TransportClient) : Type 0 where
  pub offered : IsProfileList c.supported_profiles
  pub active_offered : Mem c.active_profile c.supported_profiles
  pub peer : IsHandshake c.connection.peer_handshake
  pub active_common : Mem c.active_profile c.connection.peer_handshake.supported_profiles
  pub pending_supported :
      (id : ℕ) (p : StreamProfile) → c.pending_configuration ≡ some (id, p) → IsSupported p
  pub bounded : length c.connection.outbound ≤ outbound_channel_capacity

-- The same of the client, if there is one.
abbrev pub IsSound : Option TransportClient → Type 0
IsSound none = Unit {0}
IsSound (some c) = IsClient c

abbrev pub IsCore : Core → Type 0
IsCore s = IsSound s.client

try_enqueue-peer :
    (l m : Link) (x : Message)
    → try_enqueue l x ≡ some m
    → (m.peer_handshake ≡ l.peer_handshake) × (length m.outbound ≤ outbound_channel_capacity)
unfolding try_enqueue
try_enqueue-peer l m x h = ground (arith, length-append l.outbound (x ∷ []))

-- Putting a message into the channel, with other lists.
enqueued-IsClient :
    (c : TransportClient) (l : Link) (m : Message)
    → IsClient c
    → try_enqueue c.connection m ≡ some l
    → IsClient (record c { connection = l })
enqueued-IsClient c l m i e =
    let k = try_enqueue-peer c.connection l m e in
    record {
      offered = i.offered;
      active_offered = i.active_offered;
      peer = rw k.0 i.peer;
      active_common = rw k.0 i.active_common;
      pending_supported = i.pending_supported;
      bounded = k.1;
    }

-- The result of a call leaves a sound core.
pub record Keeps (k : Core × Bool) : Type 0 where
  pub kept : IsCore k.0

-- A test, or an option, that decides whether the state changes.
pub after_test :
    (b : Bool) (s : Core) (k : Core × Bool)
    → IsCore s
    → (b ≡ true → Keeps k)
    → Keeps (if b then k else (s, false))
after_test true s k h f = f refl
after_test false s k h f = record { kept = h }

pub after_refusal :
    (b : Bool) (s : Core) (k : Core × Bool)
    → IsCore s
    → (b ≡ false → Keeps k)
    → Keeps (if b then (s, false) else k)
after_refusal true s k h f = record { kept = h }
after_refusal false s k h f = f refl

pub after_option {ℓ} :
    {A : Type ℓ} (o : Option A) (s : Core) (k : A → Core × Bool)
    → IsCore s
    → ((a : A) → o ≡ some a → Keeps (k a))
    → Keeps (elim o as (λ _. Core × Bool) [ none ↦ (s, false) | some a ↦ k a ])
after_option none s k h f = record { kept = h }
after_option (some a) s k h f = f a refl

pub after_result {ε ℓ} :
    {E : Type ε} {A : Type ℓ} (r : Result E A) (s : Core) (k : A → Core × Bool)
    → IsCore s
    → ((a : A) → r ≡ ok a → Keeps (k a))
    → Keeps (elim r as (λ _. Core × Bool) [ ok a ↦ k a | err e ↦ (s, false) ])
after_result (ok a) s k h f = f a refl
after_result (err e) s k h f = record { kept = h }

pub sound_client : (s : Core) (c : TransportClient) → IsCore s → s.client ≡ some c → IsClient c
sound_client s c h e = rw e at h

send_frame-IsCore :
    (f : FrameCall) (payload : List ℕ) (codec : VideoCodec) (c : TransportClient) (s : Core)
    → IsCore s
    → IsClient c
    → Keeps (send_frame f payload codec c s)
unfolding send_frame
send_frame-IsCore f payload codec c s h i =
    after_test (is_ok (validate_against (frame_of f payload codec) c.active_profile)) s _ h λ _.
      after_option (try_enqueue c.connection (Message.video_frame (frame_of f payload codec))) s _ h
        λ l e. record { kept = enqueued-IsClient c l _ i e }

pub send_video_frame-IsCore : (f : FrameCall) (s : Core) → IsCore s → Keeps (send_video_frame f s)
unfolding send_video_frame
send_video_frame-IsCore f s h = after_option f.bytes s _ h λ payload _.
    after_refusal (length payload == 0) s _ h λ _.
      after_result (codec_try_from f.codec) s _ h λ codec _.
        after_option s.client s _ h
          λ c e. send_frame-IsCore f payload codec c s h (sound_client s c h e)

update_client-IsCore :
    (ps : List StreamProfile) (c : TransportClient) (s : Core)
    → IsCore s
    → IsClient c
    → Keeps (update_client ps c s)
unfolding update_client
update_client-IsCore ps c s h i =
    let update : CapabilitiesUpdate = record { supported_profiles = ps } in
    after_test (is_ok (validate_update update c.active_profile)) s _ h λ v.
      after_option (try_enqueue c.connection (Message.video_capabilities_update update)) s _ h
        λ l e.
          let k = try_enqueue-peer c.connection l _ e in
          let u = (validate_update-ok_iff update c.active_profile).0 (is_ok→ok _ v) in
          record {
            kept = record {
              offered = u.0;
              active_offered = u.1;
              peer = rw k.0 i.peer;
              active_common = rw k.0 i.active_common;
              pending_supported = i.pending_supported;
              bounded = k.1;
            };
          }

update_with-IsCore :
    (ps : Option (List StreamProfile)) (s : Core) → IsCore s → Keeps (update_with ps s)
unfolding update_with
update_with-IsCore none s h = record { kept = h }
update_with-IsCore (some ps) s h =
    after_option s.client s _ h λ c e. update_client-IsCore ps c s h (sound_client s c h e)

pub update_video_capabilities-IsCore :
    (read : Text → Option (List StreamProfile)) (a : CStr) (s : Core)
    → IsCore s
    → Keeps (update_video_capabilities read a s)
unfolding update_video_capabilities
update_video_capabilities-IsCore read null s h = record { kept = h }
update_video_capabilities-IsCore read invalid_utf8 s h = record { kept = h }
update_video_capabilities-IsCore read (text json) s h = update_with-IsCore (read json) s h

reported_profile-mem :
    (r : Report) (c : TransportClient) (p : StreamProfile)
    → reported_profile r c ≡ some p
    → Mem p c.supported_profiles × Mem p c.connection.peer_handshake.supported_profiles
unfolding reported_profile
reported_profile-mem r c p h = (contains→mem _ p (ground arith), contains→mem _ p (ground arith))

-- The active profile after a report is in every list that the old one and each reported one are in.
next_active-mem :
    (r : Report) (c : TransportClient) (o : StreamConfigurationOutcome)
    → IsClient c
    → reported_outcome r c ≡ some o
    → Mem (next_active o c.active_profile) c.supported_profiles
      × Mem (next_active o c.active_profile) c.connection.peer_handshake.supported_profiles
unfolding reported_outcome
next_active-mem r c (applied p) i h = reported_profile-mem r c p (ground arith)
next_active-mem r c _ i h = (i.active_offered, i.active_common)

cleared_pending :
    (b : Bool) (c : TransportClient) (id : ℕ) (p : StreamProfile)
    → IsClient c
    → (if b then c.pending_configuration else none) ≡ some (id, p)
    → IsSupported p
cleared_pending true c id p i e = i.pending_supported id p e
cleared_pending false c id p i e = absurd (cc)

report_client-IsCore :
    (r : Report) (o : StreamConfigurationOutcome) (c : TransportClient) (s : Core)
    → IsCore s
    → IsClient c
    → reported_outcome r c ≡ some o
    → Keeps (report_client r o c s)
unfolding report_client
report_client-IsCore r o c s h i q =
    let message : Message =
      Message.stream_configuration_result (record { request_id = r.request_id; result = o }) in
    after_option (try_enqueue c.connection message) s _ h λ l e.
      let k = try_enqueue-peer c.connection l _ e in
      let a = next_active-mem r c o i q in
      record {
        kept = record {
          offered = i.offered;
          active_offered = a.0;
          peer = rw k.0 i.peer;
          active_common = rw k.0 a.1;
          pending_supported = λ id p. cleared_pending _ c id p i;
          bounded = k.1;
        };
      }

pub report-IsCore : (r : Report) (s : Core) → IsCore s → Keeps (report_stream_configuration r s)
unfolding report_stream_configuration
report-IsCore r s h = after_option s.client s _ h λ c e.
    after_refusal (not (r.request_id == 0) && not (pending_id c == some r.request_id)) s _ h λ _.
      after_option (reported_outcome r c) s _ h
        λ o q. report_client-IsCore r o c s h (sound_client s c h e) q
