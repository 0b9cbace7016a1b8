-- ===== src/Message/Raw.antt =====
-- message.go: a message on the wire in the formats 0 and 1, and sets of them.
use kafka_go.Prelude.{
  ℕ, ◌+◌, ◌%◌, ◌^◌, ◌<◌, ◌≡◌, sym, ◌∙◌, ap, List, [], ◌∷◌, ◌++◌, none, some, length, arith, ◌==◌,
  if◌then◌else◌, Bool-cases, inl, inr,
}
use kafka_go.Wire.Bytes.{Slice, big_endian}
use kafka_go.Wire.Write.{write_int8, write_int32, write_int64, write_bytes, write_items}
use kafka_go.Wire.Size.{◌⊕◌, sizeof_bytes, sizeof_items}
use kafka_go.Wire.Sizes.{Sizes, sizes, sizeof_items_lem, length-write_int64}
use kafka_go.Time.{timestamp}
use kafka_go.Message.{Message}
use kafka_go.Message.Crc.{
  ieee, crc_update, crc32_update, crc_write_bytes, crc32_of_message, crc_update-append,
  crc_update-lt, crc_update-nil,
}

pub record RawMessage : Type 0 where
  pub crc : ℕ
  pub magic_byte : ℕ
  pub attributes : ℕ
  pub timestamp : ℕ
  pub key : Slice
  pub value : Slice

unfoldable pub crc32 : RawMessage → ℕ
crc32 m = crc32_of_message m.magic_byte m.attributes m.timestamp m.key m.value

unfoldable pub size_message : RawMessage → ℕ
size_message m =
    let size = 4 + 1 + 1 ⊕ sizeof_bytes m.key ⊕ sizeof_bytes m.value in
    if m.magic_byte == 0 then size else size ⊕ 8

-- What follows the checksum.
unfoldable pub write_summed : RawMessage → List ℕ
write_summed m =
    write_int8 m.magic_byte
    ++ (write_int8 m.attributes
        ++ ((if m.magic_byte == 0 then [] else write_int64 m.timestamp)
            ++ (write_bytes m.key ++ write_bytes m.value)))

unfoldable pub write_message_raw : RawMessage → List ℕ
unfolding write_summed
write_message_raw m = write_int32 m.crc ++ write_summed m

pub record MessageSetItem : Type 0 where
  pub offset : ℕ
  pub message_size : ℕ
  pub message : RawMessage

unfoldable pub size_item : MessageSetItem → ℕ
size_item m = 8 + 4 ⊕ size_message m.message

unfoldable pub write_item : MessageSetItem → List ℕ
write_item m = write_int64 m.offset ++ (write_int32 m.message_size ++ write_message_raw m.message)

unfoldable pub size_message_set : List MessageSetItem → ℕ
size_message_set s = sizeof_items 0 size_item s

unfoldable pub write_message_set : List MessageSetItem → List ℕ
write_message_set s = write_items write_item s

-- `msg.message()`, with its checksum.
unfoldable pub to_raw : Message → RawMessage
unfolding crc32
to_raw msg =
    let m : RawMessage = record {
      crc = 0;
      magic_byte = 1;
      attributes = 0;
      timestamp = timestamp msg.time;
      key = msg.key;
      value = msg.value;
    } in
    record m { crc = crc32 m }

unfoldable pub to_item : Message → MessageSetItem
to_item msg = record {
  offset = msg.offset;
  message_size = size_message (to_raw msg);
  message = to_raw msg;
}

size_fields :
    (m : RawMessage) (ts : List ℕ)
    → (4 + 1 + 1 ⊕ sizeof_bytes m.key ⊕ sizeof_bytes m.value ⊕ length ts)
      ≡ length (
          write_int32 m.crc
          ++ (write_int8 m.magic_byte
              ++ (write_int8 m.attributes ++ (ts ++ (write_bytes m.key ++ write_bytes m.value)))))
        % 2 ^ 32
size_fields m ts = omega sizes

no_more : (a b : ℕ) → a ⊕ b ⊕ 0 ≡ a ⊕ b
no_more a b = omega sizes

pub size_message-Sizes : (m : RawMessage) → Sizes (size_message m) (write_message_raw m)
unfolding size_message write_message_raw write_summed
size_message-Sizes m = elim (Bool-cases (m.magic_byte == 0)) [
  | inl e ↦
      rw e
        (sym (no_more (4 + 1 + 1 ⊕ sizeof_bytes m.key) (sizeof_bytes m.value)) ∙ size_fields m [])
  | inr e ↦ rw e (
      ap (λ (n : ℕ). 4 + 1 + 1 ⊕ sizeof_bytes m.key ⊕ sizeof_bytes m.value ⊕ n)
        (sym (length-write_int64 m.timestamp))
      ∙ size_fields m (write_int64 m.timestamp))
]

size_item-Sizes : (m : MessageSetItem) → Sizes (size_item m) (write_item m)
unfolding size_item write_item
size_item-Sizes m = omega (sizes, size_message-Sizes m.message)

-- The size of a message set is the number of bytes that it is written as.
pub size_message_set-Sizes :
    (s : List MessageSetItem) → Sizes (size_message_set s) (write_message_set s)
unfolding size_message_set write_message_set
size_message_set-Sizes s =
    omega (arith, sizeof_items_lem size_item write_item size_item-Sizes 0 s (omega arith))

crc_bytes_lem :
    (sum : ℕ) (b : Slice)
    → sum < 2 ^ 32
    → crc_write_bytes sum b ≡ crc_update ieee sum (write_bytes b)
unfolding crc_write_bytes crc32_update write_bytes write_int32
crc_bytes_lem sum none h =
    crc_update-nil ieee (omega arith) _ (crc_update-lt ieee (omega arith) sum _)
crc_bytes_lem sum (some b) h =
    crc_update-append ieee (omega arith) sum (big_endian 4 (length b % 2 ^ 32)) b h

abbrev summed : ℕ → List ℕ → ℕ
summed sum bs = crc_update ieee sum bs

crc_fields :
    (a b ts : List ℕ) (key value : Slice)
    → crc_write_bytes (crc_write_bytes (summed (summed (summed 0 a) b) ts) key) value
      ≡ summed 0 (a ++ (b ++ (ts ++ (write_bytes key ++ write_bytes value))))
crc_fields a b ts key value =
    let p : ieee < 2 ^ 32 = omega arith in
    let small = λ (sum : ℕ) (bs : List ℕ). crc_update-lt ieee p sum bs in
    let join = crc_update-append ieee p in
    let wk = write_bytes key in
    let wv = write_bytes value in
    let t = summed (summed (summed 0 a) b) ts in
    crc_bytes_lem (crc_write_bytes t key) value (rw (crc_bytes_lem t key (small _ ts)) (small t wk))
    ∙ ap (λ sum. summed sum wv) (crc_bytes_lem t key (small _ ts))
    ∙ join t wk wv (small _ ts)
    ∙ join (summed (summed 0 a) b) ts (wk ++ wv) (small _ b)
    ∙ join (summed 0 a) b (ts ++ (wk ++ wv)) (small 0 a)
    ∙ join 0 a (b ++ (ts ++ (wk ++ wv))) (omega arith)

-- The checksum of a message, which crc32OfMessage computes from its fields, is the CRC-32 of the
-- bytes that are written behind it.
pub crc32-write_summed : (m : RawMessage) → crc32 m ≡ crc_update ieee 0 (write_summed m)
unfolding crc32 crc32_of_message crc32_update write_summed write_int8 write_int64
crc32-write_summed m =
    let first = summed (summed 0 (m.magic_byte % 2 ^ 8 ∷ [])) (m.attributes % 2 ^ 8 ∷ []) in
    elim (Bool-cases (m.magic_byte == 0)) [
      | inl e ↦ rw e (
          ap (λ (sum : ℕ). crc_write_bytes (crc_write_bytes sum m.key) m.value)
            (sym (crc_update-nil ieee (omega arith) first (crc_update-lt ieee (omega arith) _ _)))
          ∙ crc_fields (m.magic_byte % 2 ^ 8 ∷ []) (m.attributes % 2 ^ 8 ∷ []) [] m.key m.value)
      | inr e ↦ rw e (
          crc_fields (m.magic_byte % 2 ^ 8 ∷ []) (m.attributes % 2 ^ 8 ∷ [])
            (big_endian 8 m.timestamp) m.key m.value)
    ]
