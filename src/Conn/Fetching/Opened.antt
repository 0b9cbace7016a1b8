-- ===== src/Conn/Fetching/Opened.antt =====
-- The batch of ReadBatchWith is one that its readers can use.
use kafka_go.Prelude.{ℕ, ◌≢◌, none, some, ℤ, Bool-cases, inl, inr}
use kafka_go.Wire.Reader.{Error, short_read, Cursor, Outcome, done, fail}
use kafka_go.Time.{Time}
use kafka_go.Protocol.FetchHeader.{FetchHeader}
use kafka_go.Message.Set.{MessageSetReader}
use kafka_go.Errors.{dont_expect_eof, is_eof}
use kafka_go.Batch.{is_short}
use kafka_go.Batch.Settled.{Ready, long_read, timeout-settled}
use kafka_go.Conn.{Conn}
use kafka_go.Conn.Fetching.{
  timed_out, batch_of, with_msgs, with_header, open_batch, read_msgs, read_fetch_header,
  throttle_of,
}

timed_out-settled : (d : Time) (now : ℤ) (e : Error) → timed_out d now e ≢ short_read
unfolding timed_out
timed_out-settled d now e = elim (Bool-cases (is_short e)) [
  | inl q ↦ rw q (timeout-settled d now)
  | inr q ↦ rw q (long_read e q)
]

expected : (e : Error) → e ≢ short_read → dont_expect_eof (some e) ≢ some short_read
unfolding dont_expect_eof
expected e h = elim (Bool-cases (is_eof e)) [
  | inl q ↦ rw q (λ p. cc p)
  | inr q ↦ rw q (λ p. h (cc p))
]

has_error : (e : Error) → dont_expect_eof (some e) ≢ none
unfolding dont_expect_eof
has_error e = elim (Bool-cases (is_eof e)) [ inl q ↦ rw q (λ p. cc p) | inr q ↦ rw q (λ p. cc p) ]

module _ (c : Conn) (deadline : Time) (now : ℤ) (offset : ℕ) where
  failed-Ready :
      (h : FetchHeader) (e : Error)
      → e ≢ short_read
      → Ready (batch_of c deadline now offset h none (some e))
  unfolding batch_of
  failed-Ready h e k = record { known = expected e k; reader = λ p q. has_error e p }

  with_msgs-Ready :
      (h : FetchHeader) (o : Outcome MessageSetReader) → Ready (with_msgs c deadline now offset h o)
  unfolding with_msgs
  with_msgs-Ready h (done s d) =
      unfold batch_of dont_expect_eof in record { known = λ p. cc p; reader = λ p q. cc q }
  with_msgs-Ready h (fail e d) =
      failed-Ready h (timed_out deadline now e) (timed_out-settled deadline now e)

  with_header-Ready :
      (throttle : ℕ) (o : Outcome FetchHeader)
      → Ready (with_header c deadline now offset throttle o)
  unfolding with_header
  with_header-Ready throttle (done h d) = with_msgs-Ready h (read_msgs h offset d)
  with_header-Ready throttle (fail e d) =
      failed-Ready (record { throttle = throttle; watermark = 0 }) (timed_out deadline now e)
        (timed_out-settled deadline now e)

  -- Whatever the response to a fetch request, the batch that ReadBatchWith makes of it keeps no
  -- errShortRead, and has a reader or an error.
  pub open_batch-Ready : (response : Cursor) → Ready (open_batch c deadline now offset response)
  unfolding open_batch
  open_batch-Ready response =
      with_header-Ready (throttle_of response) (read_fetch_header c response)
