-- ===== src/Message/RecordSet/Batch.antt =====
-- The reader of record batches reads the batch that a Produce request of version 3 carries.
use mathlib.Core.Option
use mathlib.Core.Option.{none-ne-some}
use kafka_go.Prelude.{
  ℕ, zero, suc, ◌+◌, ◌%◌, ◌^◌, ◌<◌, ◌≡◌, refl, ◌∙◌, ap, subst, List, [], ◌∷◌, ◌++◌, Option, none,
  some, length, arith, ℤ, pos, sub_ℤ, All, append_assoc, length-append,
}
use kafka_go.Wire.Bytes.{Slice, signed32}
use kafka_go.Wire.Reader.{Cursor, Reader, at}
use kafka_go.Wire.Read.{read_new_bytes}
use kafka_go.Wire.Reads.{Reads}
use kafka_go.Wire.VarInt.{write_var_int}
use kafka_go.Time.{Time, sub_time, int64_of}
use kafka_go.Message.{Message}
use kafka_go.Message.Compression.{Codecs}
use kafka_go.Message.Record.{
  ◌⧺◌, ◌⊞◌, record_size, record_fields, write_record, write_records, delta_of, batch_bytes,
}
use kafka_go.Message.Stack.{Read}
use kafka_go.Message.RecordSet.{
  SetHeader, read_record, SetReader, Step, got, failed, read_message, open_batch, decompress, leave,
  compression,
}
use kafka_go.Message.RecordSet.BatchHeader.{
  header_of, header_bytes, HeaderFits, header-Reads, batch_bytes_lem, header_of-HeaderFits,
}
use kafka_go.Message.RecordSet.RoundTrip.{Readable, RecordFits, record_of, record-Readable}

⊞-lt : (a n : ℕ) (r : Option ℕ) → some a ⊞ r ≡ some n → n < 2 ^ 64
⊞-lt a n none e = absurd (none-ne-some _ e)
⊞-lt a n (some m) e = let h : (a + m) % 2 ^ 64 ≡ n = cc e in omega (arith, h)

int64_of-lt : (n : ℤ) → int64_of n < 2 ^ 64
int64_of-lt n = ground arith

module _ (h : SetHeader) (base : Time) (m : Message) (i : ℕ) where
  size-Readable :
      (r : Option ℕ)
      → ((n : ℕ) → r ≡ some n → n < 2 ^ 64)
      → RecordFits m
      → i < 2 ^ 64
      → Readable
          (Option.bind r write_var_int ⧺ record_fields 0 (delta_of m base) i m)
          (read_record read_new_bytes read_new_bytes h)
          (record_of h m (delta_of m base) i)
  unfolding Option.bind delta_of
  size-Readable none lt f l = record { reads = tt }
  size-Readable (some n) lt f l =
      record-Readable h m n 0 (delta_of m base) i f (lt n refl) (omega arith)
        (int64_of-lt (sub_time m.time base)) l

  -- What writeRecord writes is read back as the record.
  pub write_record-Readable :
      RecordFits m
      → i < 2 ^ 64
      → Readable
          (write_record 0 base i m)
          (read_record read_new_bytes read_new_bytes h)
          (record_of h m (delta_of m base) i)
  unfolding write_record record_size
  write_record-Readable f l =
      size-Readable (record_size m (delta_of m base) i) (λ (n : ℕ) e. ⊞-lt _ n _ e) f l

abbrev pub Many : Type 0
Many = Option (List (Read Slice Slice) × SetReader)

-- A message, and those that are read from the reader after it.
abbrev pub then_many : Step (Read Slice Slice) → (SetReader → Many) → Many
then_many (failed e r) next = none
then_many (got m r) next = Option.map (λ (ms, r). (m ∷ ms, r)) (next r)

-- Messages one after the other.
unfoldable pub read_many : ℕ → Codecs → SetReader → Many
read_many zero codecs r = some ([], r)
read_many (suc n) codecs r =
    then_many (read_message read_new_bytes read_new_bytes codecs r) (read_many n codecs)

abbrev pub records_of : SetHeader → Time → ℕ → List Message → List (Read Slice Slice)
records_of h base i [] = []
records_of h base i (m ∷ ms) = record_of h m (delta_of m base) i ∷ records_of h base (i + 1) ms

-- The reader in a batch with `n` records left.
abbrev pub inside : SetHeader → ℕ → Cursor → SetReader
inside h n c = record { cursor = c; parent = []; message_count = pos n; header = h }

⧺-inv :
    (w ws : Option (List ℕ)) (bs : List ℕ)
    → w ⧺ ws ≡ some bs
    → (b : List ℕ) × (c : List ℕ) × (w ≡ some b) × (ws ≡ some c) × (b ++ c ≡ bs)
⧺-inv none ws bs e = absurd (none-ne-some _ e)
⧺-inv (some b) none bs e = absurd (none-ne-some _ e)
⧺-inv (some b) (some c) bs e = (b, c, refl, refl, cc e)

written-Reads :
    {A : Type 0} {w : Option (List ℕ)} {m : Reader A} {a : A} (bs : List ℕ)
    → Readable w m a
    → w ≡ some bs
    → Reads m bs a
written-Reads {m = m} {a = a} bs h e = (subst (λ w. Readable w m a) e h).reads

many_step :
    (codecs : Codecs) (n : ℕ) (r s t : SetReader) (x : Read Slice Slice)
    (xs : List (Read Slice Slice))
    → read_message read_new_bytes read_new_bytes codecs r ≡ got x s
    → read_many n codecs s ≡ some (xs, t)
    → read_many (suc n) codecs r ≡ some (x ∷ xs, t)
unfolding read_many
many_step codecs n r s t x xs e d = rw (e, d) refl

pred_pos : (n : ℕ) → sub_ℤ (pos (suc n)) (pos 1) ≡ pos n
pred_pos n = ground arith

module _ (codecs : Codecs) (h : SetHeader) where
  one_record :
      (n : ℕ) (bs rest : List ℕ) (k : ℕ) (x : Read Slice Slice)
      → Reads (read_record read_new_bytes read_new_bytes h) bs x
      → read_message read_new_bytes read_new_bytes codecs
          (inside h (suc n) (at (bs ++ rest) (length bs + k)))
        ≡ got x (inside h n (at rest k))
  unfolding read_message open_batch
  one_record n bs rest k x r = rw (r.whole rest k, pred_pos n) refl

  all_records :
      (base : Time) (i : ℕ) (ms : List Message) (bs rest : List ℕ) (k : ℕ)
      → All RecordFits ms
      → i + length ms < 2 ^ 64
      → write_records base i ms ≡ some bs
      → read_many (length ms) codecs (inside h (length ms) (at (bs ++ rest) (length bs + k)))
        ≡ some (records_of h base i ms, inside h 0 (at rest k))
  unfolding read_many write_records
  all_records base i [] bs rest k f l e =
      let z : [] ≡ bs = cc e in
      subst
        (λ bs.
          read_many 0 codecs (inside h 0 (at (bs ++ rest) (length bs + k)))
          ≡ some ([], inside h 0 (at rest k)))
        z (ap (λ (n : ℕ). some ([], inside h 0 (at rest n))) (omega arith))
  all_records base i (m ∷ ms) bs rest k (f, fs) l e =
      let (b, c, p, q, r) = ⧺-inv _ _ bs e in
      let x = record_of h m (delta_of m base) i in
      let one = written-Reads b (write_record-Readable h base m i f (omega arith)) p in
      let ih = all_records base (i + 1) ms c rest k fs (omega arith) q in
      let n : length (b ++ c) + k ≡ length b + (length c + k) = omega (arith, length-append b c) in
      rw (← r, append_assoc, n)
        (many_step codecs (length ms) _ _ _ x _
          (one_record (length ms) b (c ++ rest) (length c + k) x one) ih)

signed32_pos : (n : ℕ) → n < 2 ^ 31 → signed32 n ≡ pos n
signed32_pos n l = ground arith

-- A reader at the start of a batch that is not compressed opens it, and reads the first record.
opened :
    (codecs : Codecs) (h g : SetHeader) (n : ℕ) (rest : List ℕ) (k : ℕ)
    → HeaderFits h
    → h.batch_attributes ≡ 0
    → suc n < 2 ^ 31
    → read_message read_new_bytes read_new_bytes codecs
        (inside g 0 (at (header_bytes h (suc n) ++ rest) (length (header_bytes h (suc n)) + k)))
      ≡ read_message read_new_bytes read_new_bytes codecs (inside h (suc n) (at rest k))
unfolding read_message open_batch leave decompress compression
opened codecs h g n rest k f z l =
    let e = (header-Reads h (suc n) f (omega arith)).whole rest k in
    rw (e, signed32_pos (suc n) l, z) refl

-- A batch of less than 2 ^ 31 messages with lengths within an int, of which writeRecord has written
-- the records, is read back without compression: the reader gives each message once, in order, with
-- its key, its value and its headers, an empty slice as nil, its offset counted from 0, and as its
-- timestamp the timestamp of the first message in milliseconds with the difference of the two times
-- in nanoseconds added, and stands behind the batch.
pub read_many-batch_bytes :
    (codecs : Codecs) (g : SetHeader) (size : ℕ) (first : Message) (ms : List Message)
    (rs rest : List ℕ) (k : ℕ)
    → All RecordFits (first ∷ ms)
    → length (first ∷ ms) < 2 ^ 31
    → write_records first.time 0 (first ∷ ms) ≡ some rs
    → read_many (length (first ∷ ms)) codecs (
        inside g 0 (
          at
            (batch_bytes 0 size first ms rs ++ rest)
            (length (batch_bytes 0 size first ms rs) + k)))
      ≡ some (
        records_of (header_of size first ms rs) first.time 0 (first ∷ ms),
        inside (header_of size first ms rs) 0 (at rest k),
      )
unfolding read_many
read_many-batch_bytes codecs g size first ms rs rest k f l e =
    let h = header_of size first ms rs in
    let hs = header_bytes h (suc (length ms)) in
    let b : batch_bytes 0 size first ms rs ≡ hs ++ rs =
      batch_bytes_lem size first ms rs ∙ ap (λ (n : ℕ). header_bytes h n ++ rs) (omega arith) in
    let r : length (hs ++ rs) + k ≡ length hs + (length rs + k) =
      omega (arith, length-append hs rs) in
    rw (b, append_assoc, r)
      (ap (λ s. then_many s (read_many (length ms) codecs))
          (opened codecs h g (length ms) (rs ++ rest) (length rs + k)
            (header_of-HeaderFits size first ms rs) refl (omega arith))
        ∙ all_records codecs h first.time 0 (first ∷ ms) rs rest k f (omega arith) e)
