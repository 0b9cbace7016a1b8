-- ===== src/Message/Stack.antt =====
-- message.go: the reader of message sets in the formats 0 and 1, with a stack of sets: a compressed
-- message holds a set, which is read before what follows it.
pub mod RoundTrip
pub mod Offsets
use Prim.Native.Nat.{bit_and}
use kafka_go.Prelude.{
  ℕ, zero, suc, Bool, ◌+◌, ◌-◌, ◌%◌, ◌^◌, List, [], ◌∷◌, Option, none, some, length, ℤ, pos, ltb_ℤ,
  ◌==◌, if◌then◌else◌,
}
use kafka_go.Wire.Bytes.{Slice, content, signed32, signed64}
use kafka_go.Wire.Reader.{
  Error, short_read, unsupported_version, unknown_codec, codec_error, out_of_fuel, Cursor, Outcome,
  done, fail, Reader, pure, throw, ◌>>=◌, ◌>>◌, at,
}
use kafka_go.Wire.Read.{
  read_int8, read_int32, read_int64, read_bytes_with, read_new_bytes, discard_n, discard_bytes,
}
use kafka_go.Message.{Header}
use kafka_go.Message.Compression.{Codec, Codecs, resolve_codec, compression_codec_mask}

pub record MessageHeader : Type 0 where
  pub offset : ℕ
  pub attributes : ℕ
  pub timestamp : ℕ

-- The switch over the version.
unfoldable pub read_timestamp : ℕ → Reader ℕ
read_timestamp version =
    if version == 0
    then pure 0
    else if version == 1
    then read_int64
    else throw (unsupported_version version)

-- readMessageHeader of read.go
unfoldable pub read_message_header : Reader MessageHeader
read_message_header = do
  offset ← read_int64
  discard_n (pos 8)
  version ← read_int8
  attributes ← read_int8
  timestamp ← read_timestamp version
  pure (record { offset = offset; attributes = attributes; timestamp = timestamp })

-- The loop of extractOffset, with the offset read last.
unfoldable pub scan_offsets : ℕ → ℕ → Reader ℕ
scan_offsets zero last c = fail out_of_fuel c
scan_offsets (suc fuel) last c =
    let rest =
      (do offset ← read_int64; sz ← read_int32; discard_n (signed32 sz); scan_offsets fuel offset)
        c in
    if c.remain == 0 then done last c else rest

-- Every round takes twelve bytes or more.
unfoldable pub extract_offset : ℕ → List ℕ → Outcome ℕ
extract_offset base set =
    ((do offset ← scan_offsets (suc (length set)) 0; pure ((base + 2 ^ 64 - offset) % 2 ^ 64))
      (at set (length set)))

-- readerStack: what is left of a set, and the offset that its messages count from.
pub record Level : Type 0 where
  pub cursor : Cursor
  pub base : ℕ

abbrev pub Levels : Type 0
Levels = List Level

-- What readMessage gives, with the stack after it.
pub data Next (A : Type 0) : Type 0 where
  got : A → Levels → Next A
  failed : Error → Levels → Next A

-- `r.remain, err = ...; if err != nil { return }`
abbrev pub on_level :
    {A : Type 0} {B : Type 0} → Outcome A → ℕ → Levels → (A → Cursor → Next B) → Next B
on_level (done a c) base ls f = f a c
on_level (fail e c) base ls f = failed e (record { cursor = c; base = base } ∷ ls)

-- The value of a compressed message, decompressed.
unfoldable pub read_compressed : Codec → Reader (List ℕ)
read_compressed codec = do
  discard_n (pos 4)
  read_bytes_with (λ n. do
    value ← read_new_bytes n
    elim (codec.decode (content value)) [ none ↦ throw codec_error | some bs ↦ pure bs ])

pub record Read (K V : Type 0) : Type 0 where
  pub offset : ℕ
  pub timestamp : ℕ
  pub key : K
  pub value : V
  pub headers : List Header

module _ {K V : Type 0} (codecs : Codecs) (min : ℕ) (key : ℤ → Reader K)
    (value : ℤ → Reader V) where
  unfoldable pub read_pair : MessageHeader → ℕ → Reader (Read K V)
  read_pair h offset = do
    k ← read_bytes_with key
    v ← read_bytes_with value
    pure (record { offset = offset; timestamp = h.timestamp; key = k; value = v; headers = [] })

  -- `offset < min`
  abbrev pub is_before : ℕ → Bool
  is_before offset = ltb_ℤ (signed64 offset) (signed64 min)

  -- The loop of readMessage. The fuel bounds its rounds: a codec may give ever new sets.
  unfoldable pub read_message : ℕ → Levels → Next (Read K V)
  unfolding read_pair read_compressed
  read_message zero ls = failed out_of_fuel ls
  read_message (suc fuel) [] = failed short_read []
  read_message (suc fuel) (l ∷ ls) =
      let up = read_message fuel ls in
      let body = on_level (read_message_header l.cursor) l.base ls λ h c.
        let code = bit_and h.attributes compression_codec_mask in
        let offset = (h.offset + l.base) % 2 ^ 64 in
        let skip =
          on_level ((discard_bytes >> discard_bytes) c) l.base ls
            λ _ d. read_message fuel (record { cursor = d; base = l.base } ∷ ls) in
        let take =
          on_level (read_pair h offset c) l.base ls
            λ r d. got r (record { cursor = d; base = l.base } ∷ ls) in
        let unpack = elim (resolve_codec codecs code) as (λ _. Next (Read K V)) [
          | none ↦ failed unknown_codec (record { cursor = c; base = l.base } ∷ ls)
          | some codec ↦ on_level (read_compressed codec c) l.base ls λ set d.
              elim (extract_offset h.offset set) as (λ _. Next (Read K V)) [
                | fail e x ↦ failed e (record { cursor = d; base = l.base } ∷ ls)
                | done base x ↦ read_message fuel (
                    record { cursor = at set (length set); base = base }
                    ∷ record { cursor = d; base = l.base }
                    ∷ ls)
              ]
        ] in
        if code == 0 then (if is_before offset then skip else take) else unpack in
      if l.cursor.remain == 0 then up else body

-- messageSetReaderV1.remaining
unfoldable pub remaining : Levels → ℕ
remaining [] = 0
remaining (l ∷ ls) = l.cursor.remain + remaining ls

-- messageSetReaderV1.discard: back to the outermost set, whose rest is discarded.
unfoldable pub discard_set : Levels → Option Error × Levels
discard_set [] = (none, [])
discard_set (l ∷ []) = elim (discard_n (pos l.cursor.remain) l.cursor) [
  | done _ d ↦ (none, record { cursor = d; base = l.base } ∷ [])
  | fail e d ↦ (some e, record { cursor = d; base = l.base } ∷ [])
]
discard_set (l ∷ m ∷ ls) = discard_set (m ∷ ls)
