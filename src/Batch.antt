-- ===== src/Batch.antt =====
-- batch.go: the messages of a Fetch response, read one by one. The clock is an argument, and so is
-- the state of the connection that the batch holds: its offset, and whether it is closed or locked.
pub mod Settled
use kafka_go.Prelude.{
  ℕ, zero, suc, Bool, true, false, ◌+◌, ◌-◌, ◌%◌, ◌^◌, min, List, [], ◌∷◌, ◌++◌, Option, none, some,
  length, ltb, ℤ, pos, negsuc, ltb_ℤ, ◌==◌, ◌&&◌, if◌then◌else◌,
}
use kafka_go.Wire.Bytes.{Slice, signed64}
use kafka_go.Wire.Reader.{
  Error, short_read, short_buffer, kafka, eof, out_of_fuel, overrun, panics, Cursor, Outcome, done,
  fail, Reader, pure, ◌>>=◌, ◌>>◌, settle, at,
}
use kafka_go.Wire.Read.{read_full, read_new_bytes, discard_n}
use kafka_go.Time.{Time, timestamp_to_time}
use kafka_go.Errors.{silent_eof}
use kafka_go.Message.{Message}
use kafka_go.Message.Compression.{Codecs}
use kafka_go.Message.Stack.{Read}
use kafka_go.Message.Set.{MessageSetReader, Taken, got, failed, remaining, discard_set}
use kafka_go.Message.Set

-- `none` is the nil reader of a batch with an error.
pub record Batch : Type 0 where
  pub has_conn : Bool
  pub has_lock : Bool
  pub msgs : Option MessageSetReader
  pub deadline : Time
  pub throttle : ℤ
  pub topic : List ℕ
  pub partition : ℕ
  pub offset : ℕ
  pub high_water_mark : ℕ
  pub err : Option Error

-- RequestTimedOut
abbrev pub request_timed_out : Error
request_timed_out = kafka 7

unfoldable pub check_timeout_err : Time → ℤ → Error
check_timeout_err none now = eof
check_timeout_err (some deadline) now = if ltb_ℤ deadline now then request_timed_out else eof

-- A message, an error, or neither.
pub data Answer (A : Type 0) : Type 0 where
  message : A → Answer A
  error : Error → Answer A
  nothing : Answer A

-- The case of errShortRead: the rest of the set is discarded.
unfoldable pub after_short_read :
    {A : Type 0} → ℤ → Batch → Option Error × MessageSetReader → Answer A × Batch
after_short_read now b (some e, s) = (error e, record b { msgs = some s; err = some e })
after_short_read now b (none, s) =
    let e = check_timeout_err b.deadline now in
    if remaining s == 0
    then (error e, record b { msgs = some s; err = some e })
    else (nothing, record b { msgs = some s })

-- `err == errShortRead`
unfoldable pub is_short : Error → Bool
is_short short_read = true
is_short e = false

-- `switch err`
unfoldable pub after_read :
    {K V : Type 0} → ℤ → Batch → Taken (Read K V) → Answer (Read K V) × Batch
after_read now b (got m s) =
    (message m, record b { msgs = some s; offset = (m.offset + 1) % 2 ^ 64 })
after_read now b (failed e s) =
    if is_short e
    then after_short_read now b (discard_set s)
    else (error e, record b { msgs = some s; err = some e })

module _ {K V : Type 0} (codecs : Codecs) (key : ℤ → Reader K) (value : ℤ → Reader V) (fuel : ℕ)
    (now : ℤ) where
  -- By the error and the reader of the batch; one with neither dereferences nil.
  unfoldable pub read_from :
      Batch → Option Error → Option MessageSetReader → Answer (Read K V) × Batch
  read_from b (some e) msgs = (error e, b)
  read_from b none none = (error panics, b)
  read_from b none (some s) = after_read now b (Set.read_message codecs key value fuel b.offset s)

  unfoldable pub read_next : Batch → Answer (Read K V) × Batch
  read_next b = read_from b b.err b.msgs

-- The Message that ReadMessage returns.
abbrev pub message_of : Batch → Read Slice Slice → Message
message_of b m = record {
  topic = b.topic;
  partition = b.partition;
  offset = m.offset;
  key = m.key;
  value = m.value;
  headers = m.headers;
  time = timestamp_to_time m.timestamp;
}

-- ReadMessage, with the offset of the connection: messages before it are passed over. `rounds`
-- bounds the loop.
unfoldable pub read_message : Codecs → ℕ → ℤ → ℕ → ℕ → Batch → Answer Message × Batch
read_message codecs fuel now conn_offset zero b = (error out_of_fuel, b)
read_message codecs fuel now conn_offset (suc rounds) b =
    let (a, next) = read_next codecs read_new_bytes read_new_bytes fuel now b in
    let again = read_message codecs fuel now conn_offset rounds next in
    elim a [
      | error e ↦ (error e, next)
      | nothing ↦ (nothing, next)
      | message m ↦
          if b.has_conn && ltb_ℤ (signed64 m.offset) (signed64 conn_offset)
          then again
          else (message (message_of b m), next)
    ]

-- The callbacks of Read. A value that is longer than the response is read beyond it.
unfoldable pub skip_key : ℤ → Reader (Unit {0})
skip_key (negsuc n) = pure tt
skip_key (pos n) = discard_n (pos n)

unfoldable pub read_into : ℕ → ℤ → Reader (ℕ × List ℕ)
unfolding read_full settle
read_into len (negsuc n) c = done (0, []) c
read_into len (pos n) c =
    let m = min n len in
    let (b, rest, e) = read_full m c.input in
    if ltb c.remain m
    then fail overrun c
    else ((λ _. settle e (at rest (c.remain - length b))) >> discard_n (pos (n - m)) >> pure (n, b))
        c

-- The bytes that Read leaves in a buffer of `len` bytes.
unfoldable pub read : Codecs → ℕ → ℤ → ℕ → Batch → Answer (List ℕ) × Batch
read codecs fuel now len b =
    let (a, next) = read_next codecs skip_key (read_into len) fuel now b in
    elim a [
      | error e ↦ (error e, next)
      | nothing ↦ (nothing, next)
      | message m ↦
          let (n, bs) = m.value in
          if ltb len n
          then (error short_buffer, record next { err = some short_buffer; offset = b.offset })
          else (message bs, next)
    ]

-- What a batch holds of its connection.
pub record Held : Type 0 where
  pub offset : ℕ
  pub closed : Bool
  pub locked : Bool

-- `err != nil`, no Error of kafka, and not io.ErrShortBuffer: the connection is closed.
unfoldable pub closes : Error → Bool
closes (kafka code) = false
closes short_buffer = false
closes e = true

unfoldable pub close : Batch → Held → Option Error × Batch × Held
close b held =
    let err = silent_eof b.err in
    let msgs : Option MessageSetReader = elim b.msgs [
      | none ↦ none
      | some s ↦ (let (e, s) = discard_set s in some s)
    ] in
    let bad : Bool = elim err [ none ↦ false | some e ↦ closes e ] in
    let returned =
      if b.has_conn
      then record held { offset = b.offset; closed = if bad then true else held.closed }
      else held in
    (
      err,
      record b { has_conn = false; has_lock = false; msgs = msgs },
      if b.has_lock then record returned { locked = false } else returned,
    )
