-- ===== src/Transport/Loops.antt =====
-- The writer and reader tasks of a connection: `writer_loop` and `reader_loop` of
-- rust/phonecam-transport/src/client.rs. Each `select!` or `timeout` that completes is one entry of
-- a list that the environment chooses; a task that is still running at the end of its list is
-- `running`.
pub mod Laws
use phone_cam.Prelude.{
  ℕ, Bool, true, false, List, [], ◌∷◌, ◌++◌, String, Result, ok, err, ◌>>=◌, ◌==◌, string_eq,
  if◌then◌else◌,
}
use phone_cam.Protocol.Message.{Bincode, Message, StatusUpdate}
use phone_cam.Transport.Wire.{
  TransportError, keepalive_timeout, unexpected_handshake, read_message, write_message,
}

abbrev pub keepalive_interval_secs : ℕ
keepalive_interval_secs = 1

abbrev pub keepalive_timeout_secs : ℕ
keepalive_timeout_secs = 5

abbrev pub keepalive_ping : String
keepalive_ping = "__phonecam_ping__"

abbrev pub ping : Message
ping = Message.status_update (record { status = keepalive_ping })

-- How a task stands: `Ok(())`, an error, or not yet ended.
pub data Exit (B : Bincode) : Type 0 where
  finished : Exit B
  failed : TransportError B → Exit B
  running : Exit B

-- One completed branch of the writer's `select!`.
pub data WriterEvent : Type 0 where
  received : Message → WriterEvent  -- `outbound_rx.recv()` gave a message
  senders_dropped : WriterEvent  -- it gave `None`
  ticked : WriterEvent  -- the keepalive interval

-- One round of the reader: whether the timeout came first, and whether the receiving end of the
-- inbound channel is still open.
pub record Round : Type 0 where
  pub timed_out : Bool
  pub receiver_open : Bool

-- `status.status == KEEPALIVE_PING` on a status update.
unfoldable pub is_ping : Message → Bool
is_ping (Message.status_update s) = s.status == keepalive_ping
is_ping _ = false

unfoldable pub is_handshake : Message → Bool
is_handshake (Message.handshake _) = true
is_handshake _ = false

module _ (B : Bincode) where
  -- Goes on after a write that worked; `?` ends the task after one that failed.
  unfoldable pub after_write :
      List ℕ → Result (TransportError B) (List ℕ) → (List ℕ → Exit B × List ℕ) → Exit B × List ℕ
  after_write sent (ok sent') continue = continue sent'
  after_write sent (err e) continue = (failed e, sent)

  unfoldable pub writer_loop : List (WriterEvent × Bool) → List ℕ → Exit B × List ℕ
  unfolding after_write
  writer_loop [] sent = (running, sent)
  writer_loop ((received m, works) ∷ events) sent =
      after_write sent (write_message B works m sent) (writer_loop events)
  writer_loop ((senders_dropped, works) ∷ events) sent = (finished, sent)
  writer_loop ((ticked, works) ∷ events) sent =
      after_write sent (write_message B works ping sent) (writer_loop events)

  -- What a round does: it ends the task, drops a ping, or hands a message on.
  pub data RoundResult : Type 0 where
    stop : Exit B → RoundResult
    skip : List ℕ → RoundResult
    deliver : Message → List ℕ → RoundResult

  -- The body of the reader's loop once a message is there.
  unfoldable pub handle_message : Round → Message → List ℕ → RoundResult
  handle_message r m rest =
      if is_handshake m
      then stop (failed unexpected_handshake)
      else if is_ping m
      then skip rest
      else if r.receiver_open
      then deliver m rest
      else stop finished

  unfoldable pub reader_round : Round → List ℕ → RoundResult
  unfolding handle_message
  reader_round r incoming =
      if r.timed_out
      then stop (failed (keepalive_timeout keepalive_timeout_secs))
      else elim (read_message B incoming) [
        | ok (m, rest) ↦ handle_message r m rest
        | err e ↦ stop (failed e)
      ]

  -- Goes on with the rest of the stream, unless the round ended the task.
  unfoldable pub after_round :
      RoundResult → (List ℕ → Exit B × List Message) → Exit B × List Message
  after_round (stop e) continue = (e, [])
  after_round (skip rest) continue = continue rest
  after_round (deliver m rest) continue = let later = continue rest in (later.0, m ∷ later.1)

  -- The messages that were sent into the inbound channel, in their order, beside the exit.
  unfoldable pub reader_loop : List Round → List ℕ → Exit B × List Message
  unfolding after_round
  reader_loop [] incoming = (running, [])
  reader_loop (r ∷ rounds) incoming = after_round (reader_round r incoming) (reader_loop rounds)
