-- ===== src/Conn/Fetching.antt =====
-- conn.go: ReadBatchWith, from the bounds of the configuration to the batch.
pub mod Opened
use kafka_go.Prelude.{
  ℕ, Bool, true, false, ◌+◌, ◌-◌, ◌%◌, ◌^◌, List, [], ◌∷◌, Option, none, some, ℤ, pos, negsuc,
  ltb_ℤ, add_ℤ, ◌==◌, ◌||◌, if◌then◌else◌,
}
use kafka_go.Wire.Reader.{Error, bad_bounds, short_read, Cursor, Outcome, done, fail, Reader}
use kafka_go.Wire.Read.{read_int32}
use kafka_go.Time.{Time, adjust_deadline_for_rtt, default_rtt, deadline_to_timeout, duration}
use kafka_go.Protocol.Direct.{write_fetch_request_v2, write_fetch_request_v5}
use kafka_go.Protocol.FetchHeader.{
  FetchHeader, read_fetch_response_header_v2, read_fetch_response_header_v5,
}
use kafka_go.Message.Set.{MessageSetReader, empty, new_message_set_reader}
use kafka_go.Errors.{dont_expect_eof}
use kafka_go.Batch.{Batch, check_timeout_err, is_short}
use kafka_go.Conn.{Conn}

pub record ReadBatchConfig : Type 0 where
  pub min_bytes : ℤ
  pub max_bytes : ℤ
  pub isolation_level : ℕ

-- The three tests of the bounds.
unfoldable pub check_bounds : Conn → ReadBatchConfig → Option Error
check_bounds c cfg =
    if ltb_ℤ cfg.min_bytes (pos 0) || ltb_ℤ (pos c.fetch_max_bytes) cfg.min_bytes
    then some bad_bounds
    else if ltb_ℤ cfg.max_bytes (pos 0) || ltb_ℤ (pos c.fetch_max_bytes) cfg.max_bytes
    then some bad_bounds
    else if ltb_ℤ cfg.max_bytes cfg.min_bytes
    then some bad_bounds
    else none

-- What the fetch sends, with the deadline and the time of the call.
unfoldable pub fetch_request : Conn → ℕ → ℕ → ReadBatchConfig → Time → Time → List ℕ
fetch_request c id offset cfg deadline now =
    let adjusted = adjust_deadline_for_rtt deadline now default_rtt in
    let max_bytes = add_ℤ cfg.max_bytes (pos c.fetch_min_size) in
    let wait = deadline_to_timeout adjusted now in
    if c.fetch_version == 5
    then write_fetch_request_v5 id c.client_id c.topic c.partition offset cfg.min_bytes max_bytes
        wait cfg.isolation_level
    else write_fetch_request_v2 id c.client_id c.topic c.partition offset cfg.min_bytes max_bytes
        wait

unfoldable pub read_fetch_header : Conn → Reader FetchHeader
read_fetch_header c =
    if c.fetch_version == 5 then read_fetch_response_header_v5 else read_fetch_response_header_v2

-- A batch that is only its error.
unfoldable pub failed_batch : Option Error → Batch
failed_batch e = record {
  has_conn = false;
  has_lock = false;
  msgs = none;
  deadline = none;
  throttle = pos 0;
  topic = [];
  partition = 0;
  offset = 0;
  high_water_mark = 0;
  err = e;
}

-- `if err == errShortRead { err = checkTimeoutErr(adjustedDeadline) }`
unfoldable pub timed_out : Time → ℤ → Error → Error
timed_out deadline now e = if is_short e then check_timeout_err deadline now else e

-- The reader of the messages; with none to read, at the high watermark, it is empty.
unfoldable pub read_msgs : FetchHeader → ℕ → Cursor → Outcome MessageSetReader
read_msgs h offset c = if h.watermark == offset then done empty c else new_message_set_reader c

-- The throttle time at the start of a response.
unfoldable pub throttle_of : Cursor → ℕ
throttle_of response = elim (read_int32 response) [ done t c ↦ t | fail e c ↦ 0 ]

module _ (c : Conn) (deadline : Time) (now : ℤ) (offset : ℕ) where
  -- The batch at the end.
  unfoldable pub batch_of : FetchHeader → Option MessageSetReader → Option Error → Batch
  batch_of h msgs err = record {
    has_conn = true;
    has_lock = true;
    msgs = msgs;
    deadline = deadline;
    throttle = duration h.throttle;
    topic = c.topic;
    partition = c.partition;
    offset = offset;
    high_water_mark = h.watermark;
    err = dont_expect_eof err;
  }

  unfoldable pub with_msgs : FetchHeader → Outcome MessageSetReader → Batch
  with_msgs h (done s d) = batch_of h (some s) none
  with_msgs h (fail e d) = batch_of h none (some (timed_out deadline now e))

  -- With no header, the throttle time may still have been read.
  unfoldable pub with_header : ℕ → Outcome FetchHeader → Batch
  with_header throttle (fail e d) =
      batch_of (record { throttle = throttle; watermark = 0 }) none
        (some (timed_out deadline now e))
  with_header throttle (done h d) = with_msgs h (read_msgs h offset d)

  -- What follows waitResponse.
  unfoldable pub open_batch : Cursor → Batch
  unfolding throttle_of
  open_batch response = with_header (throttle_of response) (read_fetch_header c response)
