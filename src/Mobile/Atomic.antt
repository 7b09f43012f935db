-- ===== src/Mobile/Atomic.antt =====
-- The calls that queue a message are all or nothing, and what a report does exactly.
use phone_cam.Prelude.{
  ℕ, ◌≡◌, ◌<◌, true, false, Option, none, some, List, [], ◌∷◌, ◌++◌, ◌⊎◌, inl, inr, arith,
  if◌then◌else◌, ◌==◌, nat_eq, option_eq, option_beq, option_beq_iff, ◌↔◌, length, Option-cases,
}
use phone_cam.Text.{Text}
use phone_cam.Protocol.Profile.{StreamProfile}
use phone_cam.Protocol.Message.{Message, StreamConfigurationOutcome}
use phone_cam.Mobile.State.{TransportClient, Core, CStr, try_enqueue, outbound_channel_capacity}
use phone_cam.Mobile.Stream.{
  FrameCall, send_video_frame, update_video_capabilities, Report, pending_id, reported_outcome,
  next_active, report_stream_configuration,
}

id_beq_iff : (a b : Option ℕ) → (option_beq nat_eq a b ≡ true) ↔ (a ≡ b)
id_beq_iff = option_beq_iff nat_eq

send_refused :
    (f : FrameCall) (s : Core) → (send_video_frame f s).1 ≡ false → (send_video_frame f s).0 ≡ s
unfolding send_video_frame
send_refused f s h = ground arith

update_refused :
    (read : Text → Option (List StreamProfile)) (a : CStr) (s : Core)
    → (update_video_capabilities read a s).1 ≡ false
    → (update_video_capabilities read a s).0 ≡ s
unfolding update_video_capabilities
update_refused read a s h = ground arith

report_refused :
    (r : Report) (s : Core)
    → (report_stream_configuration r s).1 ≡ false
    → (report_stream_configuration r s).0 ≡ s
unfolding report_stream_configuration
report_refused r s h = ground arith

-- A frame, a capability update or a configuration report that is refused, also because the
-- outbound channel is full or closed, changes nothing at all.
pub refused_unchanged :
    (s : Core)
    → ((f : FrameCall) → (send_video_frame f s).1 ≡ false → (send_video_frame f s).0 ≡ s)
      × ((read : Text → Option (List StreamProfile)) (a : CStr)
          → (update_video_capabilities read a s).1 ≡ false
          → (update_video_capabilities read a s).0 ≡ s)
      × ((r : Report)
          → (report_stream_configuration r s).1 ≡ false
          → (report_stream_configuration r s).0 ≡ s)
refused_unchanged s =
    ((λ f. send_refused f s), (λ read a. update_refused read a s), (λ r. report_refused r s))

-- The client after a report that was accepted with an outcome.
abbrev pub reported : Report → StreamConfigurationOutcome → TransportClient → TransportClient
reported r o c = record c {
  connection = record c.connection {
    outbound =
        c.connection.outbound
        ++ Message.stream_configuration_result (record { request_id = r.request_id; result = o })
          ∷ [];
  };
  active_profile = next_active o c.active_profile;
  pending_configuration = if r.request_id == 0 then c.pending_configuration else none;
}

-- When a report is accepted with an outcome: its id is 0 or the pending one, its outcome is
-- acceptable, and the channel has room.
pub record Accepted (r : Report) (o : StreamConfigurationOutcome) (c : TransportClient)
    : Type 0 where
  pub outcome : reported_outcome r c ≡ some o
  pub matching : (r.request_id ≡ 0) ⊎ (pending_id c ≡ some r.request_id)
  pub alive : c.connection.writer_alive ≡ true
  pub room : length c.connection.outbound < outbound_channel_capacity

report-Accepted :
    (r : Report) (s : Core) (c : TransportClient) (o : StreamConfigurationOutcome)
    → s.client ≡ some c
    → Accepted r o c
    → report_stream_configuration r s ≡ (record s { client = some (reported r o c) }, true)
unfolding report_stream_configuration try_enqueue
report-Accepted r s c o e a = ground arith

accepted_match :
    (r : Report) (s : Core) (c : TransportClient)
    → s.client ≡ some c
    → (report_stream_configuration r s).1 ≡ true
    → (r.request_id ≡ 0) ⊎ (pending_id c ≡ some r.request_id)
unfolding report_stream_configuration
accepted_match r s c e h = ground (arith, id_beq_iff (pending_id c) (some r.request_id))

Accepted-outcome :
    (r : Report) (s : Core) (c : TransportClient)
    → s.client ≡ some c
    → (report_stream_configuration r s).1 ≡ true
    → (o : StreamConfigurationOutcome) × Accepted r o c
unfolding report_stream_configuration try_enqueue
Accepted-outcome r s c e h = elim (Option-cases (reported_outcome r c)) [
  | inl n ↦ absurd (ground arith)
  | inr (o, q) ↦ (
    o,
    record {
      outcome = q;
      matching = accepted_match r s c e h;
      alive = ground arith;
      room = ground arith;
    },
  )
]

-- A report is accepted exactly if it answers the pending request or is unsolicited (id 0), has an
-- acceptable outcome, and the outbound channel is open with room; then the result message is
-- queued last, the active profile becomes the applied one, if any, a solicited report clears the
-- pending request, and nothing else changes.
pub report_lem :
    (r : Report) (s : Core) (c : TransportClient)
    → s.client ≡ some c
    → ((report_stream_configuration r s).1 ≡ true
        → (o : StreamConfigurationOutcome) × Accepted r o c
          × (report_stream_configuration r s ≡ (record s { client = some (reported r o c) }, true)))
      × ((o : StreamConfigurationOutcome)
          → Accepted r o c
          → report_stream_configuration r s ≡ (record s { client = some (reported r o c) }, true))
report_lem r s c e = (
  (λ h. let a = Accepted-outcome r s c e h in (a.0, a.1, report-Accepted r s c a.0 e a.1)),
  λ o a. report-Accepted r s c o e a,
)
