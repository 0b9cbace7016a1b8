-- ===== src/Protocol/Exchange.antt =====
-- conn.go and protocol.go: how an operation takes its response off the connection. The bytes that
-- the connection still delivers are its state. `size - 4` is an int32 subtraction.
pub mod Safety
use kafka_go.Prelude.{
  ℕ, ◌+◌, ◌-◌, ◌%◌, ◌^◌, List, length, take, drop, ltb, ◌==◌, if◌then◌else◌, ℤ, pos, negsuc,
}
use kafka_go.Wire.Bytes.{make_int, signed32}
use kafka_go.Wire.Reader.{Error, eof, kafka, unread, Outcome, done, fail, Reader, at}
use kafka_go.Wire.Read.{discard_n}
use kafka_go.Protocol.Frame.{◌⊖◌}

-- expectZeroSize: an error of the read is passed on, and a response must be used up.
unfoldable pub check_zero {ℓ} : {A : Type ℓ} → Outcome A → Outcome A
check_zero (done a c) = if c.remain == 0 then done a c else fail (unread c.remain) c
check_zero (fail e c) = fail e c

unfoldable pub expect_zero_size {ℓ} : {A : Type ℓ} → Reader A → Reader A
unfolding check_zero
expect_zero_size m c = check_zero (m c)

-- The switch of readResponse: behind an error that the broker reports, the rest is discarded.
unfoldable pub discard_rest {ℓ} : {A : Type ℓ} → Outcome A → Outcome A
discard_rest (done a c) = done a c
discard_rest (fail (kafka code) c) = elim (discard_n (pos c.remain) c) [
  | done _ d ↦ fail (kafka code) d
  | fail e d ↦ fail e d
]
discard_rest (fail e c) = fail e c

unfoldable pub read_response {ℓ} : {A : Type ℓ} → Reader A → Reader A
unfolding discard_rest check_zero
read_response m c = check_zero (discard_rest (m c))

-- One round of waitResponse.
pub data Turn : Type 0 where
  -- the size and the bytes behind the size and the id
  ours : ℤ → List ℕ → Turn
  -- the response is for another operation, and stays where it is
  of_another : Turn
  -- the connection is closed on the error
  broken : Error → Turn

unfoldable pub peek_turn : ℕ → List ℕ → Turn
peek_turn id input =
    if ltb (length input) 8
    then broken eof
    else if make_int (take 4 (drop 4 input)) == id
    then ours (signed32 (make_int (take 4 input) ⊖ 4)) (drop 8 input)
    else of_another

-- What an operation gets in its round. A response with a negative size is told apart: its reader
-- would run with a negative `remain`.
pub data Reply {ℓ} (A : Type ℓ) : Type ℓ where
  answered : Outcome A → Reply A
  not_yet : Reply A
  negative_size : Reply A
  closed : Error → Reply A

unfoldable pub take_turn {ℓ} : {A : Type ℓ} → Reader A → Turn → Reply A
take_turn m (ours (pos size) input) = answered (m (at input size))
take_turn m (ours (negsuc n) input) = negative_size
take_turn m of_another = not_yet
take_turn m (broken e) = closed e

unfoldable pub exchange {ℓ} : {A : Type ℓ} → ℕ → Reader A → List ℕ → Reply A
unfolding take_turn
exchange id m input = take_turn m (peek_turn id input)
