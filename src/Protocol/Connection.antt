-- ===== src/Protocol/Connection.antt =====
-- conn.go: operations that share a connection. Each sends its request under the write lock, with the
-- next correlation id, and then takes turns under the read lock until the response at the front of
-- the stream is its own. Locks make these the steps of a run, in any order. The broker answers each
-- request once, at any time and in any order; the stream delivers whole responses.
pub mod Queue
pub mod Shared
pub mod Delivery
use kafka_go.Prelude.{
  ℕ, zero, suc, ◌+◌, ◌%◌, ◌^◌, ◌<◌, ◌≡◌, List, [], ◌∷◌, ◌++◌, length, take, drop, pos, ◌==◌,
  if◌then◌else◌,
}
use kafka_go.Wire.Write.{write_int32}
use kafka_go.Protocol.Frame.{frame}
use kafka_go.Protocol.Exchange.{peek_turn, ours}

-- An id with the bytes of a response.
abbrev pub Response : Type 0
Response = ℕ × List ℕ

abbrev pub response_frame : Response → List ℕ
response_frame r = frame (write_int32 r.0 ++ r.1)

pub record Conn : Type 0 where
  -- c.correlationID, the id of the last operation
  pub correlation_id : ℕ
  -- the operations in waitResponse
  pub waiting : List ℕ
  -- what c.rbuf delivers
  pub input : List ℕ
  -- the requests that the broker has not answered, and the answers that it has given
  pub unanswered : List ℕ
  pub answers : List Response
  -- the operations that have read a response, each with its bytes
  pub got : List Response

abbrev pub new_conn : Conn
new_conn = record {
  correlation_id = 0;
  waiting = [];
  input = [];
  unanswered = [];
  answers = [];
  got = [];
}

abbrev pub next_id : Conn → ℕ
next_id c = (c.correlation_id + 1) % 2 ^ 32

-- doRequest
unfoldable pub do_request : Conn → Conn
do_request c = record c {
  correlation_id = next_id c;
  waiting = next_id c ∷ c.waiting;
  unanswered = next_id c ∷ c.unanswered;
}

-- The broker writes a response.
unfoldable pub respond : Response → List ℕ → Conn → Conn
respond r unanswered c = record c {
  input = c.input ++ response_frame r;
  unanswered = unanswered;
  answers = c.answers ++ r ∷ [];
}

-- waitResponse returns, and the operation reads its response to the end.
unfoldable pub take_response : ℕ → ℕ → List ℕ → List ℕ → Conn → Conn
take_response id size input waiting c = record c {
  waiting = waiting;
  input = drop size input;
  got = c.got ++ (id, take size input) ∷ [];
}

-- The runs with `k` requests. An operation whose turn finds the response of another one changes
-- nothing, and is no step.
pub data Run : ℕ → Conn → Type 0 where
  start : Run 0 new_conn
  request : {k : ℕ} {c : Conn} → Run k c → Run (suc k) (do_request c)
  response :
      {k : ℕ} {c : Conn} (before after : List ℕ) (r : Response)
      → Run k c
      → c.unanswered ≡ before ++ r.0 ∷ after
      → length r.1 + 4 < 2 ^ 31
      → Run k (respond r (before ++ after) c)
  turn :
      {k : ℕ} {c : Conn} (before after : List ℕ) (id size : ℕ) (input : List ℕ)
      → Run k c
      → c.waiting ≡ before ++ id ∷ after
      → peek_turn id c.input ≡ ours (pos size) input
      → Run k (take_response id size input (before ++ after) c)
