-- ===== src/Writer/Sending.antt =====
-- writer.go: how the writer of a partition sends a batch, writer.write with shouldRetry and
-- needsReconnect. What a dial and a write give at an attempt are arguments.
pub mod Attempts
use kafka_go.Prelude.{
  ℕ, zero, suc, ◌+◌, Bool, true, false, ◌||◌, not, List, [], ◌∷◌, Option, none, some, map, leb,
  ◌==◌, if◌then◌else◌,
}
use kafka_go.Wire.Reader.{Error, kafka}
use kafka_go.Errors.{is_temporary}
use kafka_go.Writer.Batching.{WriterMessage}

-- An error of a dial or a write: a net.Error, with its Temporary, or another.
pub data Failure : Type 0 where
  network : Bool → Failure
  other : Error → Failure

unfoldable pub is_transient : Failure → Bool
is_transient (network temporary) = temporary
is_transient (other e) = is_temporary e

-- `err == code`
unfoldable pub is_code : ℕ → Failure → Bool
is_code code (network temporary) = false
is_code code (other (kafka c)) = c == code
is_code code (other e) = false

unfoldable pub needs_reconnect : Failure → Bool
needs_reconnect (network temporary) = true
needs_reconnect (other e) = is_code 6 (other e)

unfoldable pub should_retry : Failure → ℕ → ℕ → Bool
should_retry e max_retries attempts =
    if leb max_retries attempts then false else is_transient e || needs_reconnect e

-- What the broker does at each attempt.
pub record World : Type 0 where
  pub dial : ℕ → Option Failure
  pub write : ℕ → Option Failure

-- The end of the loop: whether there is a connection, and the error; `retries` is the attempts made again.
pub record Sent : Type 0 where
  pub connected : Bool
  pub error : Option Failure
  pub retries : ℕ

abbrev pub duplicate_sequence_number : ℕ
duplicate_sequence_number = 46

module _ (retries : ℕ) (world : World) where
  -- After a write: the loop goes on with `again`, with or without the connection.
  unfoldable pub after_write : (Bool → Option Sent) → ℕ → Option Failure → Option Sent
  after_write again attempts none =
      some (record { connected = true; error = none; retries = attempts })
  after_write again attempts (some e) =
      if is_code duplicate_sequence_number e
      then some (record { connected = true; error = none; retries = attempts })
      else if should_retry e retries attempts
      then again (not (needs_reconnect e))
      else some (record { connected = true; error = some e; retries = attempts })

  unfoldable pub after_dial :
      (Bool → Option Sent) → ℕ → Option Failure → Option Failure → Option Sent
  after_dial again attempts none written = after_write again attempts written
  after_dial again attempts (some e) written =
      if should_retry e retries attempts
      then again false
      else some (record { connected = false; error = some e; retries = attempts })

  -- The loop, on fuel: `none` is out of fuel.
  unfoldable pub send : ℕ → ℕ → Bool → Option Sent
  send zero attempts conn = none
  send (suc fuel) attempts conn =
      let again = send fuel (attempts + 1) in
      if conn
      then after_write again attempts (world.write attempts)
      else after_dial again attempts (world.dial attempts) (world.write attempts)

-- What is sent on the channels of the messages of a batch.
unfoldable pub results : Option Failure → List WriterMessage → List (ℕ × Option Failure)
results e batch = map (λ (wm : WriterMessage). (wm.res, e)) batch
