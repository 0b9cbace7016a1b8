-- ===== src/Message/Stack/RoundTrip.antt =====
-- The reader of message sets takes back the messages that writeMessage wrote.
use kafka_go.Prelude.{
  ℕ, zero, suc, ◌+◌, ◌%◌, ◌^◌, ◌<◌, ◌≡◌, refl, ◌∙◌, ap, false, List, [], ◌∷◌, ◌++◌, none, some,
  length, length-append, arith, ◌==◌, if◌then◌else◌, append_assoc, All, Bool-cases, inl, inr, pos,
  ltb_ℤ,
}
use kafka_go.Wire.Bytes.{Slice, content, signed64}
use kafka_go.Wire.Reader.{short_read, done, at, ◌>>◌}
use kafka_go.Wire.Read.{read_new_bytes, discard_bytes, discard_n}
use kafka_go.Wire.Write.{write_int8, write_int32, write_int64, write_bytes, write_items}
use kafka_go.Wire.Sizes.{lengths, length-bytes}
use kafka_go.Wire.Reads.{Reads, >>=-Reads, last-Reads, first-whole}
use kafka_go.Wire.Primitives.{
  canonical, int8-Reads, int64-Reads, discard_n-Reads, discard_bytes-Reads, bytes-Reads,
}
use kafka_go.Wire.Read.{read_bytes, read_bytes_with}
use kafka_go.Time.{Time, timestamp}
use kafka_go.Message.{Message}
use kafka_go.Message.Crc.{crc32_of_message}
use kafka_go.Message.Encode.{msg_size, write_message, write_messages}
use kafka_go.Message.Compression.{Codecs}
use kafka_go.Message.Stack.{
  MessageHeader, read_timestamp, read_message_header, Levels, Next, got, failed, Read, read_pair,
  is_before, read_message,
}

pub timestamp-lt : (t : Time) → timestamp t < 2 ^ 64
unfolding timestamp
timestamp-lt none = omega arith
timestamp-lt (some t) = ground arith

timestamp-Reads : (ts : ℕ) → ts < 2 ^ 64 → Reads (read_timestamp 1) (write_int64 ts) ts
unfolding read_timestamp
timestamp-Reads ts h = int64-Reads ts h

skipped-Reads : (a b : ℕ) → Reads (discard_n (pos 8)) (write_int32 a ++ write_int32 b) tt
skipped-Reads a b =
    let e : length (write_int32 a ++ write_int32 b) ≡ 8 = omega (lengths, length-bytes) in
    rw e at (discard_n-Reads (write_int32 a ++ write_int32 b))

abbrev header_bytes : ℕ → ℕ → ℕ → ℕ → ℕ → List ℕ
header_bytes offset size crc attributes ts =
    write_int64 offset
    ++ ((write_int32 size ++ write_int32 crc)
        ++ (write_int8 1 ++ (write_int8 attributes ++ write_int64 ts)))

header-Reads :
    (offset size crc attributes ts : ℕ)
    → offset < 2 ^ 64
    → attributes < 2 ^ 8
    → ts < 2 ^ 64
    → Reads read_message_header
        (header_bytes offset size crc attributes ts)
        (record { offset = offset; attributes = attributes; timestamp = ts })
unfolding read_message_header
header-Reads offset size crc attributes ts h k l = >>=-Reads _ (int64-Reads offset h) (
    >>=-Reads _ (skipped-Reads size crc) (
      >>=-Reads _ (int8-Reads 1 (omega arith))
        (>>=-Reads _ (int8-Reads attributes k) (last-Reads _ (timestamp-Reads ts l)))))

-- The fields of a message fit their encodings.
pub record Fits (m : Message) : Type 0 where
  pub offset : m.offset < 2 ^ 64
  pub key : length (content m.key) < 2 ^ 31
  pub value : length (content m.value) < 2 ^ 31

abbrev pub bytes_of : Message → List ℕ
bytes_of m = write_message m.offset 0 m.time m.key m.value

-- What is read of a message.
abbrev pub read_of : Message → Read Slice Slice
read_of m = record {
  offset = m.offset;
  timestamp = timestamp m.time;
  key = canonical m.key;
  value = canonical m.value;
  headers = [];
}

abbrev body_of : Message → List ℕ
body_of m = write_bytes m.key ++ write_bytes m.value

abbrev head_of : Message → List ℕ
head_of m =
    header_bytes m.offset (msg_size m.key m.value)
      (crc32_of_message 1 0 (timestamp m.time) m.key m.value) 0 (timestamp m.time)

bytes_of_lem : (m : Message) → bytes_of m ≡ head_of m ++ body_of m
unfolding write_message
bytes_of_lem m = simp append_assoc

bytes_with :
    (b : Slice)
    → length (content b) < 2 ^ 31
    → Reads (read_bytes_with read_new_bytes) (write_bytes b) (canonical b)
unfolding read_bytes
bytes_with b l = bytes-Reads b l

skip-Reads : (m : Message) → Fits m → Reads (discard_bytes >> discard_bytes) (body_of m) tt
skip-Reads m f = >>=-Reads _ (discard_bytes-Reads m.key f.key) (discard_bytes-Reads m.value f.value)

abbrev header_of : Message → MessageHeader
header_of m = record { offset = m.offset; attributes = 0; timestamp = timestamp m.time }

header_at :
    (m : Message) (rest : List ℕ) (k : ℕ)
    → Fits m
    → read_message_header (at (bytes_of m ++ rest) (length (bytes_of m) + k))
      ≡ done (header_of m) (at (body_of m ++ rest) (length (body_of m) + k))
header_at m rest k f = rw (bytes_of_lem m) (
    first-whole
      (header-Reads m.offset (msg_size m.key m.value)
        (crc32_of_message 1 0 (timestamp m.time) m.key m.value) 0 (timestamp m.time) f.offset
        (omega arith) (timestamp-lt m.time))
      (body_of m) rest k)

bytes_of-pos : (m : Message) → 0 < length (bytes_of m)
unfolding write_message
bytes_of-pos m = omega (lengths, length-bytes)

module _ (codecs : Codecs) (min : ℕ) where
  pair-Reads :
      (m : Message) (h : MessageHeader)
      → Fits m
      → h.timestamp ≡ timestamp m.time
      → Reads
          (read_pair codecs min read_new_bytes read_new_bytes h m.offset)
          (body_of m)
          (read_of m)
  unfolding read_pair
  pair-Reads m h f e =
      >>=-Reads _ (bytes_with m.key f.key) (rw (← e) (last-Reads _ (bytes_with m.value f.value)))

  abbrev reader : ℕ → Levels → Next (Read Slice Slice)
  reader = read_message codecs min read_new_bytes read_new_bytes

  one_message :
      (m : Message) (rest : List ℕ) (k fuel : ℕ) (ls : Levels)
      → Fits m
      → reader
          (suc fuel)
          (record { cursor = at (bytes_of m ++ rest) (length (bytes_of m) + k); base = 0 } ∷ ls)
        ≡ (if is_before codecs min read_new_bytes read_new_bytes m.offset
            then reader fuel (record { cursor = at rest k; base = 0 } ∷ ls)
            else got (read_of m) (record { cursor = at rest k; base = 0 } ∷ ls))
  unfolding read_message
  one_message m rest k fuel ls f =
      let e : (length (bytes_of m) + k == 0) ≡ false = ground (arith, bytes_of-pos m) in
      let hd = header_at m rest k f in
      let o : (m.offset + 0) % 2 ^ 64 ≡ m.offset = omega (arith, f.offset) in
      elim (Bool-cases (is_before codecs min read_new_bytes read_new_bytes m.offset)) [
        | inl b ↦ rw (e, hd, o, b, (skip-Reads m f).whole rest k) refl
        | inr b ↦ rw (e, hd, o, b, (pair-Reads m (header_of m) f refl).whole rest k) refl
      ]

-- The stack on a set of messages, with the bytes of `behind` behind it.
abbrev pub on_set : List Message → List ℕ → Levels
on_set ms behind =
    record { cursor = at (write_messages 0 ms ++ behind) (length (write_messages 0 ms)); base = 0 }
    ∷ []

-- The messages from the first one on whose offset is not below `min`.
unfoldable pub skip_to : ℕ → List Message → List Message
skip_to min [] = []
skip_to min (m ∷ ms) = if ltb_ℤ (signed64 m.offset) (signed64 min) then skip_to min ms else m ∷ ms

-- The first message, with the others left on the stack.
abbrev pub first_of : List ℕ → List Message → Next (Read Slice Slice)
first_of behind [] = failed short_read []
first_of behind (m ∷ ms) = got (read_of m) (on_set ms behind)

on_set-∷ :
    (m : Message) (ms : List Message) (behind : List ℕ)
    → on_set (m ∷ ms) behind
      ≡ record {
        cursor =
            at
              (bytes_of m ++ (write_messages 0 ms ++ behind))
              (length (bytes_of m) + length (write_messages 0 ms));
        base = 0;
      }
        ∷ []
unfolding write_messages write_items
on_set-∷ m ms behind = rw (append_assoc, length-append (bytes_of m) (write_messages 0 ms)) refl

-- The reader of message sets, on a set of messages that writeMessage wrote, uncompressed and with
-- fields that fit their encodings, gives the first message whose offset is not below the one asked
-- for, as it was written but for an empty key or value, which is nil, and leaves those behind it to
-- be read; if there is none it ends with errShortRead. Its rounds are at least two more than the
-- messages.
pub read_message-write_messages :
    (codecs : Codecs) (min : ℕ) (ms : List Message) (behind : List ℕ) (fuel : ℕ)
    → All Fits ms
    → length ms + 1 < fuel
    → read_message codecs min read_new_bytes read_new_bytes fuel (on_set ms behind)
      ≡ first_of behind (skip_to min ms)
unfolding skip_to
read_message-write_messages codecs min ms behind zero f l = absurd (omega arith)
read_message-write_messages codecs min [] behind (suc zero) f l = absurd (omega arith)
read_message-write_messages codecs min [] behind (suc (suc fuel)) f l =
    unfold read_message write_messages write_items in refl
read_message-write_messages codecs min (m ∷ ms) behind (suc fuel) (f, fs) l =
    let ih = read_message-write_messages codecs min ms behind fuel fs (omega arith) in
    ap (reader codecs min (suc fuel)) (on_set-∷ m ms behind)
    ∙ one_message codecs min m (write_messages 0 ms ++ behind) (length (write_messages 0 ms)) fuel
        [] f
    ∙ elim (Bool-cases (is_before codecs min read_new_bytes read_new_bytes m.offset)) [
      | inl b ↦ rw (b, ih) refl
      | inr b ↦ rw b refl
    ]
