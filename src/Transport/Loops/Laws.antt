-- ===== src/Transport/Loops/Laws.antt =====
-- What the reader delivers, for any bytes, and for the bytes that a writer wrote.
use phone_cam.Prelude.{
  ℕ, ◌≡◌, ◌≢◌, sym, refl, ◌∙◌, Bool, true, false, List, [], ◌∷◌, ◌++◌, Result, ok, err, arith, All,
  if◌then◌else◌, Result-cases, inl, inr,
}
use mathlib.Core.List.{append_assoc, append-nil}
use phone_cam.Protocol.Message.{Bincode, Message}
use phone_cam.Protocol.Message.Laws.{IsLawful}
use phone_cam.Protocol.Frame.{encode_frame}
use phone_cam.Transport.Wire.{TransportError, write_message}
use phone_cam.Transport.Wire.Laws.{read_message-write}
use phone_cam.Transport.Loops.{
  Exit, failed, running, WriterEvent, received, senders_dropped, ticked, Round, is_ping,
  is_handshake, ping, writer_loop, RoundResult, stop, skip, deliver, handle_message, reader_round,
  after_round, after_write, reader_loop,
}

-- A message that the inbound channel may carry.
abbrev pub IsInbound : Message → Type 0
IsInbound m = (is_handshake m ≡ false) × (is_ping m ≡ false)

module _ (B : Bincode) where
  reader_round-deliver :
      (r : Round) (incoming : List ℕ) (m : Message) (rest : List ℕ)
      → reader_round B r incoming ≡ deliver m rest
      → IsInbound m
  unfolding reader_round handle_message
  reader_round-deliver r incoming m rest h = ground arith

  after_round-IsInbound :
      (x : RoundResult B) (continue : List ℕ → Exit B × List Message)
      → ((m : Message) (rest : List ℕ) → x ≡ deliver m rest → IsInbound m)
      → ((rest : List ℕ) → All IsInbound (continue rest).1)
      → All IsInbound (after_round B x continue).1
  unfolding after_round
  after_round-IsInbound (stop e) continue d c = tt
  after_round-IsInbound (skip rest) continue d c = c rest
  after_round-IsInbound (deliver m rest) continue d c = (d m rest refl, c rest)

  -- Whatever bytes arrive, no handshake and no keepalive reaches the inbound channel.
  pub reader_loop-IsInbound :
      (rounds : List Round) (incoming : List ℕ) → All IsInbound (reader_loop B rounds incoming).1
  unfolding reader_loop
  reader_loop-IsInbound [] incoming = tt
  reader_loop-IsInbound (r ∷ rounds) incoming =
      after_round-IsInbound (reader_round B r incoming) (reader_loop B rounds)
        (reader_round-deliver r incoming) (reader_loop-IsInbound rounds)

  -- The messages that a run of the writer's events sends, and those that the peer should see.
  abbrev pub outgoing : List (WriterEvent × Bool) → List Message
  outgoing [] = []
  outgoing ((received m, works) ∷ events) = m ∷ outgoing events
  outgoing ((senders_dropped, works) ∷ events) = []
  outgoing ((ticked, works) ∷ events) = ping ∷ outgoing events

  abbrev pub visible : List Message → List Message
  visible [] = []
  visible (m ∷ ms) = if is_ping m then visible ms else m ∷ visible ms

  -- The peer's reader is not starved: each of its rounds completes in time, and its channel is
  -- open.
  abbrev pub prompt : Round
  prompt = record { timed_out = false; receiver_open = true }

  abbrev pub prompt_rounds : List Message → List Round
  prompt_rounds [] = []
  prompt_rounds (m ∷ ms) = prompt ∷ prompt_rounds ms

  -- `ms` as a peer's bytes.
  pub data Encodes : List Message → List ℕ → Type 0 where
    none_left : Encodes [] []
    one_more :
        (m : Message) (f : List ℕ) {ms : List Message} {rest : List ℕ}
        → encode_frame B m ≡ ok f
        → Encodes ms rest
        → Encodes (m ∷ ms) (f ++ rest)

  NotFailed : Exit B → Type 0
  NotFailed e = (x : TransportError B) → e ≢ failed x

  write_message-ok :
      (works : Bool) (m : Message) (sent sent' : List ℕ)
      → write_message B works m sent ≡ ok sent'
      → (f : List ℕ) × (encode_frame B m ≡ ok f) × (sent' ≡ sent ++ f)
  unfolding write_message
  write_message-ok works m sent sent' h = elim (Result-cases (encode_frame B m)) [
    | inl (f, q) ↦ (f, q, ground arith)
    | inr (c, q) ↦ absurd (ground arith)
  ]

  -- All that a run wrote after `sent`.
  record Wrote (ms : List Message) (sent all : List ℕ) : Type 0 where
    bytes : List ℕ
    appended : all ≡ sent ++ bytes
    encodes : Encodes ms bytes

  Wrote-cons :
      (m : Message) (ms : List Message) (f sent sent' all : List ℕ)
      → encode_frame B m ≡ ok f
      → sent' ≡ sent ++ f
      → Wrote ms sent' all
      → Wrote (m ∷ ms) sent all
  Wrote-cons m ms f sent sent' all q e w = record {
    bytes = f ++ w.bytes;
    appended = w.appended ∙ rw e (append_assoc sent f w.bytes);
    encodes = one_more m f q w.encodes;
  }

  after_write-Wrote :
      (works : Bool) (m : Message) (ms : List Message) (sent : List ℕ)
      (r : Result (TransportError B) (List ℕ)) (continue : List ℕ → Exit B × List ℕ)
      → write_message B works m sent ≡ r
      → ((sent' : List ℕ) → NotFailed (continue sent').0 → Wrote ms sent' (continue sent').1)
      → NotFailed (after_write B sent r continue).0
      → Wrote (m ∷ ms) sent (after_write B sent r continue).1
  unfolding after_write NotFailed
  after_write-Wrote works m ms sent (ok sent') continue e c n =
      let w = write_message-ok works m sent sent' e in
      Wrote-cons m ms w.0 sent sent' _ w.1 w.2 (c sent' n)
  after_write-Wrote works m ms sent (err x) continue e c n = absurd (n x refl)

  writer_loop-Wrote :
      (events : List (WriterEvent × Bool)) (sent : List ℕ)
      → NotFailed (writer_loop B events sent).0
      → Wrote (outgoing events) sent (writer_loop B events sent).1
  unfolding writer_loop NotFailed
  writer_loop-Wrote [] sent n = record {
    bytes = [];
    appended = sym (append-nil sent);
    encodes = none_left;
  }
  writer_loop-Wrote ((senders_dropped, works) ∷ events) sent n = record {
    bytes = [];
    appended = sym (append-nil sent);
    encodes = none_left;
  }
  writer_loop-Wrote ((received m, works) ∷ events) sent n =
      after_write-Wrote works m (outgoing events) sent _ (writer_loop B events) refl
        (writer_loop-Wrote events) n
  writer_loop-Wrote ((ticked, works) ∷ events) sent n =
      after_write-Wrote works ping (outgoing events) sent _ (writer_loop B events) refl
        (writer_loop-Wrote events) n

  reader_round-prompt :
      IsLawful B
      → (m : Message) (f rest : List ℕ) → encode_frame B m ≡ ok f
      → is_handshake m ≡ false
      → reader_round B prompt (f ++ rest) ≡ (if is_ping m then skip rest else deliver m rest)
  unfolding reader_round handle_message
  reader_round-prompt l m f rest e h = rw (read_message-write B l m f rest e) (rw h refl)

  reader_loop-Encodes :
      IsLawful B
      → {ms : List Message} {bytes : List ℕ} → Encodes ms bytes
      → All (λ m. is_handshake m ≡ false) ms
      → reader_loop B (prompt_rounds ms) bytes ≡ (running, visible ms)
  unfolding reader_loop
  reader_loop-Encodes l none_left h = refl
  reader_loop-Encodes l (one_more m f {ms} {rest} e es) h =
      rw (reader_round-prompt l m f rest e h.0) (ground (arith, reader_loop-Encodes l es h.1))

  -- End to end: if the writer's run did not fail and sent no handshake, then a reader that is not
  -- starved delivers, from the bytes that the writer wrote, exactly the messages that were handed
  -- to the writer, in order, without the keepalives.
  pub reader_loop-writer_loop :
      IsLawful B
      → (events : List (WriterEvent × Bool))
      → ((x : TransportError B) → (writer_loop B events []).0 ≢ failed x)
      → All (λ m. is_handshake m ≡ false) (outgoing events)
      → reader_loop B (prompt_rounds (outgoing events)) (writer_loop B events []).1
        ≡ (running, visible (outgoing events))
  unfolding NotFailed
  reader_loop-writer_loop l events n h =
      let w = writer_loop-Wrote events [] n in rw w.appended (reader_loop-Encodes l w.encodes h)
