-- ===== src/Writer/Batching.antt =====
-- writer.go: how the writer of a partition, writer.run, collects messages in batches. An event is what
-- the select of its loop takes. Sizes of messages are below 2 ^ 31.
pub mod Conserved
pub mod Bounds
pub mod Lost
use kafka_go.Prelude.{
  ℕ, ◌+◌, Bool, true, false, ◌||◌, List, [], ◌∷◌, ◌++◌, Option, none, some, length, leb, ltb, ◌==◌,
  if◌then◌else◌,
}
use kafka_go.Wire.Bytes.{content}
use kafka_go.Message.{Message}
use kafka_go.Message.Raw.{to_raw, size_message}

-- writerMessage: a message, and the number of the channel that its result goes to.
pub record WriterMessage : Type 0 where
  pub msg : Message
  pub res : ℕ

pub record Limits : Type 0 where
  pub batch_size : ℕ
  pub max_message_bytes : ℕ

-- The variables of the loop. `last` is lastMsg, `none` for its zero value; `running` batchTimerRunning.
pub record Batcher : Type 0 where
  pub batch : List WriterMessage
  pub last : Option WriterMessage
  pub bytes : ℕ
  pub running : Bool
  pub done : Bool

pub data BatchEvent : Type 0 where
  arrived : WriterMessage → BatchEvent
  closed batch_timeout : BatchEvent

abbrev pub new_batcher : Batcher
new_batcher = record { batch = []; last = none; bytes = 0; running = false; done = false }

unfoldable pub message_size : WriterMessage → ℕ
message_size wm = size_message (to_raw wm.msg)

-- `len(lastMsg.msg.Value) != 0`
unfoldable pub has_value : WriterMessage → Bool
has_value wm = ltb 0 (length (content wm.msg.value))

unfoldable pub add_to_batch : WriterMessage → Batcher → Batcher
add_to_batch wm s = record s {
  batch = s.batch ++ wm ∷ [];
  bytes = s.bytes + message_size wm;
  running = true;
}

-- The start of a round: the message that was put off joins the batch.
unfoldable pub refill : Option WriterMessage → Batcher → Batcher
refill none s = s
refill (some wm) s = if has_value wm then add_to_batch wm (record s { last = none }) else s

unfoldable pub then_round :
    Batcher × List (List WriterMessage)
    → Batcher × List (List WriterMessage)
    → Batcher × List (List WriterMessage)
then_round (s, out) (t, more) = (t, out ++ more)

module _ (w : Limits) where
  unfoldable pub is_full : Batcher → Bool
  is_full s = leb w.batch_size (length s.batch) || leb w.max_message_bytes s.bytes

  -- The select, with mustFlush.
  unfoldable pub take_event : BatchEvent → Batcher → Batcher × Bool
  take_event closed s = (record s { done = true; running = true }, true)
  take_event batch_timeout s = (record s { running = false }, true)
  take_event (arrived wm) s =
      if ltb w.max_message_bytes (message_size wm + s.bytes)
      then (record s { last = some wm }, true)
      else (add_to_batch wm s, is_full (add_to_batch wm s))

  -- The state after the select, and the batch that is written, if one is.
  unfoldable pub flush : Batcher × Bool → Batcher × List (List WriterMessage)
  flush (s, must) =
      if must
      then (if length s.batch == 0
          then (record s { running = false }, [])
          else (record s { batch = []; bytes = 0; running = false }, s.batch ∷ []))
      else (s, [])

  unfoldable pub round : Batcher → BatchEvent → Batcher × List (List WriterMessage)
  round s e = flush (take_event e (refill s.last s))

  -- The batches that are written, in their order, and the state at the end of the events.
  unfoldable pub run : Batcher → List BatchEvent → Batcher × List (List WriterMessage)
  run s [] = (s, [])
  run s (e ∷ es) =
      let rest = run (round s e).0 es in if s.done then (s, []) else then_round (round s e) rest
