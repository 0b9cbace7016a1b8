-- ===== src/Message/Record/Length.antt =====
-- The sizes of records and of a record batch, against what is written.
use mathlib.Core.Option
use kafka_go.Prelude.{
  ℕ, subst, zero, suc, ◌+◌, ◌%◌, ◌^◌, ◌≡◌, refl, sym, ap, ◌∙◌, List, [], ◌∷◌, ◌++◌, Option, none,
  some, length, arith, length-append, append_assoc, ◌==◌, Bool-cases, inl, inr,
}
use Prim.Native.Nat.{bit_and}
use kafka_go.Wire.Bytes.{content, big_endian, length-big_endian}
use kafka_go.Wire.Size.{◌⊕◌}
use kafka_go.Wire.Sizes.{Sizes, sizes}
use kafka_go.Wire.Write.{write_int8}
use kafka_go.Wire.VarInt.{
  write_groups, count_groups, write_var_int, var_int_len, zigzag, shift_right,
}
use kafka_go.Time.{Time}
use kafka_go.Message.{Header, Message}
use kafka_go.Message.Record.{
  ◌⧺◌, ◌⊞◌, len64, size_counted, write_counted, size_headers, write_headers, record_size,
  record_fields, write_record, sized_record, add_records, write_records, record_batch_size,
  write_record_batch, record_batch_header_size, batch_summed, batch_bytes, delta_of,
}

-- `n` counts the bytes `bs` in int arithmetic, and one of the two does not come back exactly when the
-- other does not.
abbrev pub Counts : Option ℕ → Option (List ℕ) → Type 0
Counts none none = Unit
Counts (some n) (some bs) = n % 2 ^ 64 ≡ length bs % 2 ^ 64
Counts none (some bs) = ⊥
Counts (some n) none = ⊥

-- The same in int32 arithmetic, with the number reduced.
abbrev pub Sized : Option ℕ → Option (List ℕ) → Type 0
Sized none none = Unit
Sized (some n) (some bs) = Sizes n bs
Sized none (some bs) = ⊥
Sized (some n) none = ⊥

add_group :
    (l b : ℕ) (n : Option ℕ) (bs : Option (List ℕ))
    → n ≡ Option.map (λ cs. l + 1 + length cs) bs
    → n ≡ Option.map (λ cs. l + length cs) (Option.map (λ cs. b ∷ cs) bs)
add_group l b n none h = h
add_group l b n (some bs) h = h ∙ ap some (omega arith)

count_groups-length :
    (k i l : ℕ) → count_groups k i l ≡ Option.map (λ bs. l + length bs) (write_groups k i)
unfolding count_groups write_groups
count_groups-length zero i l = refl
count_groups-length (suc k) i l = elim (Bool-cases (bit_and i 127 == i)) [
  | inl e ↦ rw e refl
  | inr e ↦ rw e (
      add_group l _ _ (write_groups k (shift_right i 7))
        (count_groups-length k (shift_right i 7) (l + 1)))
]

length-Counts : (b : Option (List ℕ)) → Counts (Option.map (λ bs. 0 + length bs) b) b
length-Counts none = tt
length-Counts (some b) = omega arith

var_int_len-Counts : (i : ℕ) → Counts (var_int_len i) (write_var_int i)
unfolding var_int_len write_var_int
var_int_len-Counts i =
    subst (λ n. Counts n (write_groups 10 (zigzag i))) (sym (count_groups-length 10 (zigzag i) 0))
      (length-Counts (write_groups 10 (zigzag i)))

⊞-Counts :
    (m n : Option ℕ) (b c : Option (List ℕ)) → Counts m b → Counts n c → Counts (m ⊞ n) (b ⧺ c)
⊞-Counts none n none c h k = tt
⊞-Counts none n (some b) c h k = absurd h
⊞-Counts (some m) n none c h k = absurd h
⊞-Counts (some m) none (some b) none h k = tt
⊞-Counts (some m) none (some b) (some c) h k = absurd k
⊞-Counts (some m) (some n) (some b) none h k = absurd k
⊞-Counts (some m) (some n) (some b) (some c) h k = omega (arith, length-append b c)

size_counted-Counts : (b : List ℕ) → Counts (size_counted b) (write_counted b)
unfolding size_counted write_counted
size_counted-Counts b = ⊞-Counts _ _ _ _ (var_int_len-Counts (len64 b)) (omega arith)

size_headers-Counts : (hs : List Header) → Counts (size_headers hs) (write_headers hs)
unfolding size_headers write_headers
size_headers-Counts [] = refl
size_headers-Counts (h ∷ hs) =
    ⊞-Counts _ _ _ _ (size_counted-Counts h.key)
      (⊞-Counts _ _ _ _ (size_counted-Counts (content h.value)) (size_headers-Counts hs))

-- recordSize counts the bytes that writeRecord writes behind the size, and does not come back
-- exactly when one of those writes does not.
pub record_size-Counts :
    (attributes delta offset : ℕ) (msg : Message)
    → Counts (record_size msg delta offset) (record_fields attributes delta offset msg)
unfolding record_size record_fields write_int8
record_size-Counts attributes delta offset msg =
    ⊞-Counts (some 1) _ (some (write_int8 attributes)) _ refl (
      ⊞-Counts _ _ _ _ (var_int_len-Counts delta) (
        ⊞-Counts _ _ _ _ (var_int_len-Counts offset) (
          ⊞-Counts _ _ _ _ (size_counted-Counts (content msg.key)) (
            ⊞-Counts _ _ _ _ (size_counted-Counts (content msg.value)) (
              ⊞-Counts _ _ _ _ (var_int_len-Counts (len64 msg.headers))
                (size_headers-Counts msg.headers))))))

module _ (n : ℕ) (bs : List ℕ) (h : n % 2 ^ 64 ≡ length bs % 2 ^ 64) where
  prefixed-Sized :
      (l : Option ℕ) (w : Option (List ℕ))
      → Counts l w
      → Sized (Option.map (λ m. m % 2 ^ 32) (some n ⊞ l)) (w ⧺ some bs)
  prefixed-Sized none none k = tt
  prefixed-Sized none (some w) k = absurd k
  prefixed-Sized (some l) none k = absurd k
  prefixed-Sized (some l) (some w) k = omega (arith, h, k, length-append w bs)

record_with_size-Sized :
    (r : Option ℕ) (f : Option (List ℕ))
    → Counts r f
    → Sized
        (Option.bind r (λ sz. Option.map (λ m. m % 2 ^ 32) (some sz ⊞ var_int_len sz)))
        (Option.bind r write_var_int ⧺ f)
unfolding Option.bind
record_with_size-Sized none none h = tt
record_with_size-Sized none (some f) h = absurd h
record_with_size-Sized (some n) none h = absurd h
record_with_size-Sized (some n) (some f) h =
    prefixed-Sized n f h (var_int_len n) (write_var_int n) (var_int_len-Counts n)

sized_record-Sized :
    (base : Time) (i : ℕ) (msg : Message)
    → Sized (sized_record msg (delta_of msg base) i) (write_record 0 base i msg)
unfolding sized_record write_record
sized_record-Sized base i msg =
    record_with_size-Sized _ _ (record_size-Counts 0 (delta_of msg base) i msg)

-- What the records add to the size so far, against what they are written behind.
add_one :
    (size : ℕ) (bs : List ℕ) (n : Option ℕ) (w ws : Option (List ℕ)) (next : ℕ → Option ℕ)
    → size ≡ length bs % 2 ^ 32
    → Sized n w
    → ((m : ℕ) (cs : List ℕ) → m ≡ length cs % 2 ^ 32 → Sized (next m) (some cs ⧺ ws))
    → Sized (Option.bind n (λ m. next (size ⊕ m))) (some bs ⧺ w ⧺ ws)
unfolding Option.bind
add_one size bs none none ws next h k ih = tt
add_one size bs none (some w) ws next h k ih = absurd k
add_one size bs (some n) none ws next h k ih = absurd k
add_one size bs (some n) (some w) none next h k ih =
    ih (size ⊕ n) (bs ++ w) (omega (sizes, length-append bs w))
add_one size bs (some n) (some w) (some ws) next h k ih =
    rw (← append_assoc) (ih (size ⊕ n) (bs ++ w) (omega (sizes, length-append bs w)))

add_records-Sized :
    (base : Time) (i size : ℕ) (bs : List ℕ) (msgs : List Message)
    → size ≡ length bs % 2 ^ 32
    → Sized (add_records base i size msgs) (some bs ⧺ write_records base i msgs)
unfolding add_records write_records
add_records-Sized base i size bs [] h = omega (arith, length-append bs [])
add_records-Sized base i size bs (msg ∷ msgs) h =
    add_one size bs _ _ (write_records base (i + 1) msgs)
      (λ (m : ℕ). add_records base (i + 1) m msgs) h (sized_record-Sized base i msg)
      (λ (m : ℕ) (cs : List ℕ) k. add_records-Sized base (i + 1) m cs msgs k)

pub length-batch_bytes :
    (attributes size : ℕ) (first : Message) (msgs : List Message) (rs : List ℕ)
    → length (batch_bytes attributes size first msgs rs) ≡ 61 + length rs
unfolding batch_bytes batch_summed
length-batch_bytes attributes size first msgs rs = omega sizes

abbrev zeros : List ℕ
zeros = big_endian 61 0

batch-Sized :
    (attributes size : ℕ) (first : Message) (msgs : List Message) (n : Option ℕ)
    (rs : Option (List ℕ))
    → ((bs : List ℕ) → record_batch_header_size ≡ length bs % 2 ^ 32 → Sized n (some bs ⧺ rs))
    → Sized n (write_record_batch attributes size rs (first ∷ msgs))
unfolding write_record_batch record_batch_header_size
batch-Sized attributes size first msgs none none h = tt
batch-Sized attributes size first msgs (some n) none h =
    h zeros (omega (arith, length-big_endian 61 0))
batch-Sized attributes size first msgs none (some rs) h =
    h zeros (omega (arith, length-big_endian 61 0))
batch-Sized attributes size first msgs (some n) (some rs) h = omega (
  arith,
  h zeros (omega (arith, length-big_endian 61 0)),
  length-append zeros rs,
  length-batch_bytes attributes size first msgs rs,
  length-big_endian 61 0,
)

-- For at least one message, recordBatchSize counts the bytes that writeRecordBatch writes of the
-- records of writeRecord, as an int32, and does not come back exactly when the write does not.
pub record_batch_size-Sized :
    (attributes size : ℕ) (first : Message) (msgs : List Message)
    → Sized (record_batch_size (first ∷ msgs)) (
        write_record_batch attributes size
          (write_records first.time 0 (first ∷ msgs))
          (first ∷ msgs))
unfolding record_batch_size
record_batch_size-Sized attributes size first msgs =
    batch-Sized attributes size first msgs _ _
      λ (bs : List ℕ) h. add_records-Sized first.time 0 record_batch_header_size bs (first ∷ msgs) h
