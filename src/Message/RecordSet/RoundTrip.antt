-- ===== src/Message/RecordSet/RoundTrip.antt =====
-- The reader of record batches takes back the records that writeRecord wrote.
use kafka_go.Prelude.{
  ℕ, ◌+◌, ◌-◌, ◌%◌, ◌^◌, ◌<◌, ◌≤◌, ◌≡◌, refl, sym, ap, subst, List, [], ◌∷◌, Option, none, some,
  length, map, arith, ℤ, pos, All, inl, inr, append_assoc,
}
use native.Mathlib.Decide.{dec_lt}
use kafka_go.Wire.Bytes.{Slice, content, signed64}
use kafka_go.Wire.Reader.{Reader, pure, ◌>>=◌}
use kafka_go.Wire.Read.{read_new_bytes, read_new_string, read_times}
use kafka_go.Wire.Reads.{Reads, >>=-Reads, last-Reads, pure-Reads}
use kafka_go.Wire.Primitives.{canonical, int8-Reads, read_new_bytes-Reads, new_string-Reads}
use kafka_go.Wire.VarInt.{write_var_int, read_var_int, groups_fuel}
use kafka_go.Wire.VarInt.Groups.{IsVarInt, write_var_int-groups, write_var_int_diverges}
use kafka_go.Wire.VarInt.RoundTrip.{var_int-Reads}
use kafka_go.Message.{Header, Message}
use kafka_go.Message.Record.{◌⧺◌, len64, write_counted, write_headers, record_fields}
use kafka_go.Message.Stack.{Read}
use kafka_go.Message.RecordSet.{
  SetHeader, read_counted, read_message_header, read_headers, read_record,
}

abbrev pub ReadsIf : {A : Type 0} → Option (List ℕ) → Reader A → A → Type 0
ReadsIf none m a = Unit
ReadsIf (some bs) m a = Reads m bs a

-- The reader reads the value off what was written, where the write came back.
pub record Readable {A : Type 0} (w : Option (List ℕ)) (m : Reader A) (a : A) : Type 0 where
  pub reads : ReadsIf w m a

both :
    {A B : Type 0} (m : Reader A) (f : A → Reader B) (a : A) (b : B) (w ws : Option (List ℕ))
    → ReadsIf w m a
    → ReadsIf ws (f a) b
    → ReadsIf (w ⧺ ws) (m >>= f) b
both m f a b none ws h k = tt
both m f a b (some bs) none h k = tt
both m f a b (some bs) (some cs) h k = >>=-Reads f h k

>>=-Readable :
    {A B : Type 0} {m : Reader A} (f : A → Reader B) {a : A} {b : B} {w ws : Option (List ℕ)}
    → Readable w m a
    → Readable ws (f a) b
    → Readable (w ⧺ ws) (m >>= f) b
>>=-Readable {m = m} f {a = a} {b = b} {w = w} {ws = ws} h k = record {
  reads = both m f a b w ws h.reads k.reads;
}

last_of :
    {A B : Type 0} (m : Reader A) (f : A → B) (a : A) (w : Option (List ℕ))
    → ReadsIf w m a
    → ReadsIf w (m >>= λ x. pure (f x)) (f a)
last_of m f a none h = tt
last_of m f a (some bs) h = last-Reads f h

last-Readable :
    {A B : Type 0} {m : Reader A} (f : A → B) {a : A} {w : Option (List ℕ)}
    → Readable w m a
    → Readable w (m >>= λ x. pure (f x)) (f a)
last-Readable {m = m} f {a = a} {w = w} h = record { reads = last_of m f a w h.reads }

written : {A : Type 0} {m : Reader A} {bs : List ℕ} {a : A} → Reads m bs a → Readable (some bs) m a
written h = record { reads = h }

short-Readable : (i : ℕ) → IsVarInt i → Readable (write_var_int i) read_var_int i
short-Readable i v =
    subst (λ w. Readable w read_var_int i) (sym (write_var_int-groups i v))
      (written (var_int-Reads i v))

long-Readable :
    (i : ℕ) → 2 ^ 62 ≤ i → i < 2 ^ 64 - 2 ^ 62 → Readable (write_var_int i) read_var_int i
unfolding write_var_int
long-Readable i h l =
    subst (λ w. Readable w read_var_int i) (sym (write_var_int_diverges groups_fuel i h l))
      (record { reads = tt })

var_int-Readable : (i : ℕ) → i < 2 ^ 64 → Readable (write_var_int i) read_var_int i
var_int-Readable i h = elim (dec_lt i (2 ^ 62)) [
  | yes p ↦ short-Readable i (h, inl p)
  | no p ↦ elim (dec_lt i (2 ^ 64 - 2 ^ 62)) [
    | yes q ↦ long-Readable i (omega arith) q
    | no q ↦ short-Readable i (h, inr (omega arith))
  ]
]

counted-Readable :
    {A : Type 0} (m : ℤ → Reader A) (b : List ℕ) (a : A)
    → length b < 2 ^ 63
    → Reads (m (pos (length b))) b a
    → Readable (write_counted b) (read_counted m) a
unfolding write_counted read_counted
counted-Readable m b a h r =
    let e : signed64 (len64 b) ≡ pos (length b) = ground arith in
    >>=-Readable _ (var_int-Readable (len64 b) (omega arith)) (rw e (written r))

-- What is read of a slice: a record does not keep nil and empty apart.
abbrev pub filled : Slice → Slice
filled b = canonical (some (content b))

-- The lengths of Go, which are ints.
abbrev pub HasLength : {A : Type 0} → List A → Type 0
HasLength xs = length xs < 2 ^ 63

pub record HeaderFits (h : Header) : Type 0 where
  pub key : HasLength h.key
  pub value : HasLength (content h.value)

abbrev pub read_header_of : Header → Header
read_header_of h = record { key = h.key; value = filled h.value }

header-Readable :
    (h : Header)
    → HeaderFits h
    → Readable
        (write_counted h.key ⧺ write_counted (content h.value))
        read_message_header
        (read_header_of h)
unfolding read_message_header
header-Readable h f =
    >>=-Readable _ (counted-Readable read_new_string h.key h.key f.key (new_string-Reads h.key)) (
      last-Readable _ (
        counted-Readable read_new_bytes (content h.value) _ f.value
          (read_new_bytes-Reads (content h.value))))

⧺_assoc : (a b c : Option (List ℕ)) → (a ⧺ b) ⧺ c ≡ a ⧺ b ⧺ c
⧺_assoc none b c = refl
⧺_assoc (some a) none c = refl
⧺_assoc (some a) (some b) none = refl
⧺_assoc (some a) (some b) (some c) = ap some (append_assoc a b c)

headers-Readable :
    (hs : List Header)
    → All HeaderFits hs
    → Readable
        (write_headers hs)
        (read_times (length hs) read_message_header)
        (map read_header_of hs)
unfolding write_headers read_times
headers-Readable [] f = written (pure-Reads [])
headers-Readable (h ∷ hs) (f, fs) =
    rw (← ⧺_assoc) (>>=-Readable _ (header-Readable h f) (last-Readable _ (headers-Readable hs fs)))

record_headers-Readable :
    (hs : List Header)
    → HasLength hs
    → All HeaderFits hs
    → Readable (write_headers hs) (read_headers (signed64 (len64 hs))) (map read_header_of hs)
unfolding read_headers
record_headers-Readable hs l f =
    let e : signed64 (len64 hs) ≡ pos (length hs) = ground arith in rw e (headers-Readable hs f)

-- The fields of a message are of lengths that Go has.
pub record RecordFits (m : Message) : Type 0 where
  pub key : HasLength (content m.key)
  pub value : HasLength (content m.value)
  pub headers : HasLength m.headers
  pub header : All HeaderFits m.headers

-- What is read of a record with its deltas.
abbrev pub record_of : SetHeader → Message → ℕ → ℕ → Read Slice Slice
record_of h m delta offset = record {
  offset = (h.first_offset + offset) % 2 ^ 64;
  timestamp = (h.first_timestamp + delta) % 2 ^ 64;
  key = filled m.key;
  value = filled m.value;
  headers = map read_header_of m.headers;
}

slice-Readable :
    (b : Slice)
    → HasLength (content b)
    → Readable (write_counted (content b)) (read_counted read_new_bytes) (filled b)
slice-Readable b l =
    counted-Readable read_new_bytes (content b) (filled b) l (read_new_bytes-Reads (content b))

pub record-Readable :
    (h : SetHeader) (m : Message) (size attributes delta offset : ℕ)
    → RecordFits m
    → size < 2 ^ 64
    → attributes < 2 ^ 8
    → delta < 2 ^ 64
    → offset < 2 ^ 64
    → Readable
        (write_var_int size ⧺ record_fields attributes delta offset m)
        (read_record read_new_bytes read_new_bytes h)
        (record_of h m delta offset)
unfolding read_record record_fields
record-Readable h m size attributes delta offset f ls la ld lo =
    >>=-Readable _ (var_int-Readable size ls) (
      >>=-Readable _ (written (int8-Reads attributes la)) (
        >>=-Readable _ (var_int-Readable delta ld) (
          >>=-Readable _ (var_int-Readable offset lo) (
            >>=-Readable _ (slice-Readable m.key f.key) (
              >>=-Readable _ (slice-Readable m.value f.value) (
                >>=-Readable _ (var_int-Readable (len64 m.headers) (omega arith))
                  (last-Readable _ (record_headers-Readable m.headers f.headers f.header))))))))
