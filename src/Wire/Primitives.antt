-- ===== src/Wire/Primitives.antt =====
-- Each primitive of read.go and discard.go reads back what its counterpart of write.go wrote.
use kafka_go.Prelude.{
  ℕ, ◌+◌, ◌%◌, ◌^◌, ◌<◌, ◌≡◌, refl, ap, Bool, true, false, List, [], ◌∷◌, none, some, arith, length,
  length-append, map, ◌-◌, le→ltb, take-append_length, drop-append_length, ℤ, pos, negsuc, All,
  subst, append-nil,
}
use kafka_go.Wire.Bytes.{
  make_int, length-big_endian, make_int-big_endian, Slice, content, signed16, signed32,
}
use kafka_go.Wire.Reader.{Reader, done, at, pure, ◌>>=◌, ◌>>◌}
use kafka_go.Wire.Read.{
  discard_n, peek_read, read_int8, read_int16, read_int32, read_int64, read_bool, check_size,
  read_string_with, read_array_len, read_bytes_with, read_new_bytes, read_new_string, read_string,
  read_bytes, read_times, read_array_with, read_string_array, discard_string, discard_bytes,
}
use kafka_go.Wire.Write.{
  write_int8, write_int16, write_int32, write_int64, write_string, write_bytes, write_bool,
  write_array_len, write_items, write_array, write_string_array,
}
use kafka_go.Wire.Reads.{Reads, pure-Reads, >>=-Reads, last-Reads}

-- The slice that is read back: an empty one comes back as nil.
unfoldable pub canonical : Slice → Slice
canonical none = none
canonical (some []) = none
canonical (some (b ∷ bs)) = some (b ∷ bs)

pub discard_n-Reads : (bs : List ℕ) → Reads (discard_n (pos (length bs))) bs tt
unfolding discard_n
discard_n-Reads bs = record {
  whole = λ rest k. ground (arith, length-append bs rest, drop-append_length bs rest);
  short = λ rest k h. ground (arith, length-append bs rest);
}

module _ {A : Type 0} where
  pub peek_read-Reads : (f : List ℕ → A) (bs : List ℕ) → Reads (peek_read (length bs) f) bs (f bs)
  unfolding peek_read discard_n ◌>>=◌ pure
  peek_read-Reads f bs = record {
    whole = λ rest k.
        ground
          (arith, length-append bs rest, take-append_length bs rest, drop-append_length bs rest);
    short = λ rest k h. ground arith;
  }

  peek_int-Reads :
      (n : ℕ) (f : List ℕ → A) (bs : List ℕ) (a : A)
      → length bs ≡ n
      → f bs ≡ a
      → Reads (peek_read n f) bs a
  peek_int-Reads n f bs a h e = rw (← h, ← e) (peek_read-Reads f bs)

pub int8-Reads : (i : ℕ) → i < 2 ^ 8 → Reads read_int8 (write_int8 i) i
unfolding read_int8 write_int8 make_int
int8-Reads i h = peek_int-Reads 1 make_int _ i refl (omega arith)

pub int16-Reads : (i : ℕ) → i < 2 ^ 16 → Reads read_int16 (write_int16 i) i
unfolding read_int16 write_int16
int16-Reads i h = peek_int-Reads 2 make_int _ i (length-big_endian 2 i) (make_int-big_endian 2 i h)

pub int32-Reads : (i : ℕ) → i < 2 ^ 32 → Reads read_int32 (write_int32 i) i
unfolding read_int32 write_int32
int32-Reads i h = peek_int-Reads 4 make_int _ i (length-big_endian 4 i) (make_int-big_endian 4 i h)

pub int64-Reads : (i : ℕ) → i < 2 ^ 64 → Reads read_int64 (write_int64 i) i
unfolding read_int64 write_int64
int64-Reads i h = peek_int-Reads 8 make_int _ i (length-big_endian 8 i) (make_int-big_endian 8 i h)

pub bool-Reads : (b : Bool) → Reads read_bool (write_bool b) b
unfolding read_bool write_bool write_int8 make_int
bool-Reads false = peek_int-Reads 1 _ _ false refl refl
bool-Reads true = peek_int-Reads 1 _ _ true refl refl

-- The test `n > sz` before a string or a slice of `n` bytes.
check_size-Reads {ℓ} :
    {A : Type ℓ} (n : ℕ) (m : Reader A) (bs : List ℕ) (a : A)
    → n ≡ length bs
    → Reads m bs a
    → Reads (check_size (pos n) >> m) bs a
unfolding check_size ◌>>=◌
check_size-Reads n m bs a e h = record {
  whole = λ rest k. ground (arith, h.whole rest k);
  short = λ rest k l. ground arith;
}

-- A negative length passes the test.
check_neg-Reads {ℓ} :
    {A : Type ℓ} (n : ℕ) (m : Reader A) (bs : List ℕ) (a : A)
    → Reads m bs a
    → Reads (check_size (negsuc n) >> m) bs a
unfolding check_size ◌>>=◌
check_neg-Reads n m bs a h = record {
  whole = λ rest k. ground (arith, h.whole rest k);
  short = λ rest k l. ground (arith, h.short rest k l);
}

pub read_new_bytes-Reads :
    (bs : List ℕ) → Reads (read_new_bytes (pos (length bs))) bs (canonical (some bs))
unfolding read_new_bytes canonical
read_new_bytes-Reads [] = record {
  whole = λ rest k. ap (λ n. done none (at rest n)) (omega arith);
  short = λ rest k h. absurd (omega arith);
}
read_new_bytes-Reads (b ∷ bs) = record {
  whole = λ rest k.
      ground (arith, length-append bs rest, take-append_length bs rest, drop-append_length bs rest);
  short = λ rest k h. ground (arith, length-append bs rest);
}

-- The body of a string or of a slice, behind the test of its length.
sized-Reads {ℓ} :
    {A : Type ℓ} (n : ℤ) (cb : ℤ → Reader A) (bs : List ℕ) (a : A)
    → n ≡ pos (length bs)
    → Reads (cb (pos (length bs))) bs a
    → Reads (check_size n >> cb n) bs a
sized-Reads n cb bs a e h = rw e (check_size-Reads (length bs) (cb (pos (length bs))) bs a refl h)

signed16_small : (n : ℕ) → n < 2 ^ 15 → signed16 (n % 2 ^ 16) ≡ pos n
signed16_small n h = ground arith

pub signed32_small : (n : ℕ) → n < 2 ^ 31 → signed32 (n % 2 ^ 32) ≡ pos n
signed32_small n h = ground arith

pub string_with-Reads {ℓ} :
    {A : Type ℓ} (cb : ℤ → Reader A) (s : List ℕ) (a : A)
    → length s < 2 ^ 15
    → Reads (cb (pos (length s))) s a
    → Reads (read_string_with cb) (write_string s) a
unfolding read_string_with write_string
string_with-Reads cb s a h r =
    >>=-Reads _ (int16-Reads (length s % 2 ^ 16) (omega arith))
      (sized-Reads (signed16 (length s % 2 ^ 16)) cb s a (signed16_small (length s) h) r)

array_len-Reads : (i : ℕ) → i < 2 ^ 32 → Reads read_array_len (write_int32 i) (signed32 i)
unfolding read_array_len
array_len-Reads i h = last-Reads _ (int32-Reads i h)

pub bytes_with-Reads {ℓ} :
    {A : Type ℓ} (cb : ℤ → Reader A) (s : List ℕ) (a : A)
    → length s < 2 ^ 31
    → Reads (cb (pos (length s))) s a
    → Reads (read_bytes_with cb) (write_bytes (some s)) a
unfolding read_bytes_with write_bytes
bytes_with-Reads cb s a h r =
    >>=-Reads _ (array_len-Reads (length s % 2 ^ 32) (omega arith))
      (sized-Reads (signed32 (length s % 2 ^ 32)) cb s a (signed32_small (length s) h) r)

pub nil_bytes_with-Reads {ℓ} :
    {A : Type ℓ} (cb : ℤ → Reader A) (a : A)
    → Reads (cb (negsuc 0)) [] a
    → Reads (read_bytes_with cb) (write_bytes none) a
unfolding read_bytes_with write_bytes
nil_bytes_with-Reads cb a r =
    subst (λ bs. Reads (read_bytes_with cb) bs a) (append-nil (write_int32 (2 ^ 32 - 1)))
      (>>=-Reads _ (array_len-Reads (2 ^ 32 - 1) (omega arith))
        (check_neg-Reads 0 (cb (negsuc 0)) [] a r))

content-canonical : (s : List ℕ) → content (canonical (some s)) ≡ s
unfolding content canonical
content-canonical [] = refl
content-canonical (b ∷ bs) = refl

pub new_string-Reads : (s : List ℕ) → Reads (read_new_string (pos (length s))) s s
unfolding read_new_string
new_string-Reads s =
    subst (λ t. Reads (read_new_string (pos (length s))) s t) (content-canonical s)
      (last-Reads content (read_new_bytes-Reads s))

-- A string of less than 2 ^ 15 bytes is read back from the bytes written, and no other bytes are
-- taken; a response that ends before them gives errShortRead.
pub string-Reads : (s : List ℕ) → length s < 2 ^ 15 → Reads read_string (write_string s) s
unfolding read_string
string-Reads s h = string_with-Reads read_new_string s s h (new_string-Reads s)

nil-Reads : Reads (read_new_bytes (negsuc 0)) [] none
unfolding read_new_bytes
nil-Reads = record {
  whole = λ rest k. ap (λ n. done none (at rest n)) (omega arith);
  short = λ rest k h. absurd (omega arith);
}

-- A byte slice of less than 2 ^ 31 bytes, or nil, is read back from the bytes written, an empty one
-- as nil, and no other bytes are taken; a response that ends before them gives errShortRead.
pub bytes-Reads :
    (b : Slice) → length (content b) < 2 ^ 31 → Reads read_bytes (write_bytes b) (canonical b)
unfolding read_bytes content canonical
bytes-Reads none h = nil_bytes_with-Reads read_new_bytes none nil-Reads
bytes-Reads (some s) h = bytes_with-Reads read_new_bytes s _ h (read_new_bytes-Reads s)

module _ {ℓ κ} {A : Type ℓ} (P : A → Type κ) (m : Reader A) (write : A → List ℕ) (canon : A → A)
    (item : (x : A) → P x → Reads m (write x) (canon x)) where
  times-Reads :
      (xs : List A)
      → All P xs
      → Reads (read_times (length xs) m) (write_items write xs) (map canon xs)
  unfolding read_times write_items
  times-Reads [] h = pure-Reads []
  times-Reads (x ∷ xs) h = >>=-Reads _ (item x h.0) (last-Reads _ (times-Reads xs h.1))

  -- An array reads back, item by item.
  pub array_map-Reads :
      (xs : List A)
      → length xs < 2 ^ 31
      → All P xs
      → Reads (read_array_with m) (write_array write xs) (map canon xs)
  unfolding read_array_with write_array write_array_len
  array_map-Reads xs l h =
      >>=-Reads _ (int32-Reads (length xs % 2 ^ 32) (omega arith))
        (rw (signed32_small (length xs) l) (times-Reads xs h))

map_id {ℓ} : {A : Type ℓ} (xs : List A) → map (λ x. x) xs ≡ xs
map_id [] = refl
map_id (x ∷ xs) = ap (◌∷◌ x) (map_id xs)

module _ {ℓ κ} {A : Type ℓ} (P : A → Type κ) (m : Reader A) (write : A → List ℕ)
    (item : (x : A) → P x → Reads m (write x) x) where
  pub array-Reads :
      (xs : List A)
      → length xs < 2 ^ 31
      → All P xs
      → Reads (read_array_with m) (write_array write xs) xs
  array-Reads xs l h =
      subst (Reads (read_array_with m) (write_array write xs)) (map_id xs)
        (array_map-Reads P m write (λ x. x) item xs l h)

abbrev pub IsString : List ℕ → Type 0
IsString s = length s < 2 ^ 15

pub string_array-Reads :
    (a : List (List ℕ))
    → length a < 2 ^ 31
    → All IsString a
    → Reads read_string_array (write_string_array a) a
unfolding read_string_array write_string_array
string_array-Reads a l h = array-Reads IsString read_string write_string string-Reads a l h

pub discard_string-Reads : (s : List ℕ) → IsString s → Reads discard_string (write_string s) tt
unfolding discard_string
discard_string-Reads s h =
    string_with-Reads _ s tt h (rw (le→ltb (length s + 0) 0 (omega arith)) (discard_n-Reads s))

pub discard_bytes-Reads :
    (b : Slice) → length (content b) < 2 ^ 31 → Reads discard_bytes (write_bytes b) tt
unfolding discard_bytes content
discard_bytes-Reads none h = nil_bytes_with-Reads _ tt (pure-Reads tt)
discard_bytes-Reads (some s) h =
    bytes_with-Reads _ s tt h (rw (le→ltb (length s + 0) 0 (omega arith)) (discard_n-Reads s))
