-- ===== src/Examples/Batches.antt =====
-- Examples for the Writer: batches of two messages, one of which is put off, and a batch that is sent at
-- the second attempt.
use kafka_go.Prelude.{
  ℕ, ◌+◌, ◌%◌, ◌^◌, ◌≡◌, refl, true, false, List, [], ◌∷◌, ◌++◌, none, some, length, ◌==◌,
  if◌then◌else◌, All, arith,
}
use kafka_go.Wire.Bytes.{content}
use kafka_go.Wire.Reader.{kafka}
use kafka_go.Wire.Size.{◌⊕◌, sizeof_bytes}
use kafka_go.Message.Raw.{to_raw, size_message}
use kafka_go.Writer.Batching.{
  WriterMessage, Limits, BatchEvent, arrived, closed, batch_timeout, new_batcher, Batcher,
  has_value, message_size, run, round, refill, take_event, flush, add_to_batch, is_full, then_round,
}
use kafka_go.Writer.Batching.Conserved.{concat, held, arrivals, run-written}
use kafka_go.Writer.Batching.Bounds.{InBounds, total, WithinLimits, run-WithinLimits}
use kafka_go.Writer.Batching.Lost.{run-lost}
use kafka_go.Writer.Sending.{other, World, send}
use kafka_go.Writer.Sending.Attempts.{Ended, send-Ended}
use kafka_go.Writer.Partitions.{Writers, rebalance_writers}
use kafka_go.Writer.Partitions.Opened.{IsOpened, sorted, rebalance_writers-IsOpened}

abbrev message_with : List ℕ → ℕ → WriterMessage
message_with value res = record {
  msg = record {
    topic = 116 ∷ [];
    partition = 0;
    offset = 0;
    key = none;
    value = some value;
    headers = [];
    time = none;
  };
  res = res;
}

abbrev events : List BatchEvent
events =
    arrived (message_with (1 ∷ []) 0)
    ∷ arrived (message_with (2 ∷ 3 ∷ []) 1)
    ∷ batch_timeout
    ∷ arrived (message_with (4 ∷ []) 2)
    ∷ closed
    ∷ []

abbrev limits : Limits
limits = record { batch_size = 2; max_message_bytes = 40 }

sizes :
    (value : List ℕ) (res : ℕ)
    → message_size (message_with value res) ≡ (22 + length value) % 2 ^ 32
unfolding message_size size_message to_raw sizeof_bytes content ◌⊕◌
sizes value res = omega arith

ended : (run limits new_batcher events).0.done ≡ true
unfolding run round refill take_event flush add_to_batch is_full has_value content then_round
    message_size size_message to_raw sizeof_bytes ◌⊕◌
ended = refl

valued : All (λ (wm : WriterMessage). has_value wm ≡ true) (arrivals events)
unfolding arrivals has_value content
valued = (refl, (refl, (refl, tt)))

run-written_example : concat (run limits new_batcher events).1 ≡ held new_batcher ++ arrivals events
run-written_example = run-written limits new_batcher events refl tt valued ended

new_batcher-InBounds : InBounds limits new_batcher
unfolding total
new_batcher-InBounds = record {
  messages = omega arith;
  bytes = refl;
  size = omega arith;
  fitting = tt;
  alone = tt;
}

run-WithinLimits_example : All (WithinLimits limits) (run limits new_batcher events).1
run-WithinLimits_example =
    run-WithinLimits limits new_batcher events (omega arith) new_batcher-InBounds (
      omega (arith, sizes (1 ∷ []) 0),
      (omega (arith, sizes (2 ∷ 3 ∷ []) 1), (tt, (omega (arith, sizes (4 ∷ []) 2), (tt, tt)))),
    )

abbrev half_full : Batcher
half_full = record new_batcher { batch = message_with (1 ∷ []) 0 ∷ []; bytes = 23 }

no_value : has_value (message_with [] 1) ≡ false
unfolding has_value content
no_value = refl

run-lost_example :
    (run limits half_full (arrived (message_with [] 1) ∷ events)).1
    ≡ (run limits half_full (batch_timeout ∷ events)).1
run-lost_example =
    run-lost limits half_full (message_with [] 1) events refl no_value (omega (arith, sizes [] 1))

abbrev flaky : World
flaky = record { dial = λ n. none; write = λ n. if n == 0 then some (other (kafka 7)) else none }

send-Ended_example : Ended 3 flaky (send 3 flaky 4 0 false)
send-Ended_example = send-Ended 3 flaky 4 0 false (omega arith) (omega arith)

abbrev opened : Writers
opened = record { writers = []; partitions = [] }

rebalance_writers-IsOpened_example : IsOpened (rebalance_writers (some (2 ∷ 0 ∷ 1 ∷ [])) opened)
unfolding sorted
rebalance_writers-IsOpened_example =
    rebalance_writers-IsOpened (some (2 ∷ 0 ∷ 1 ∷ [])) opened
      (record { order = refl; writers = λ p. refl })
