-- ===== src/Wire/Sizes.antt =====
-- A size is the number of bytes written, as an int32.
use kafka_go.Prelude.{
  ℕ, ◌+◌, ◌*◌, ◌%◌, ◌^◌, ◌<◌, ◌≡◌, refl, Bool, true, false, List, [], ◌∷◌, ◌++◌, none, some, arith,
  length, length-append, append_assoc,
}
use kafka_go.Wire.Bytes.{Slice, content, length-big_endian}
use kafka_go.Wire.Write.{
  write_int8, write_int16, write_int32, write_int64, write_string, write_bytes, write_bool,
  write_array_len, write_items, write_array, write_string_array, write_int32_array,
}
use kafka_go.Wire.Size.{
  ◌⊕◌, sizeof_int8, sizeof_int16, sizeof_int32, sizeof_int64, sizeof_string, sizeof_bytes,
  sizeof_items, sizeof_array, sizeof_int32_array, sizeof_string_array,
}

-- `n` is the size, as an int32, of the bytes `bs`.
abbrev pub Sizes : ℕ → List ℕ → Type 0
Sizes n bs = n ≡ length bs % 2 ^ 32

pub ⊕-Sizes : (m n : ℕ) (bs cs : List ℕ) → Sizes m bs → Sizes n cs → Sizes (m ⊕ n) (bs ++ cs)
unfolding ◌⊕◌
⊕-Sizes m n bs cs h k = omega (arith, length-append bs cs)

pub length-write_int8 : (i : ℕ) → length (write_int8 i) ≡ 1
unfolding write_int8
length-write_int8 i = refl

pub length-write_int16 : (i : ℕ) → length (write_int16 i) ≡ 2
unfolding write_int16
length-write_int16 i = length-big_endian 2 i

pub length-write_int32 : (i : ℕ) → length (write_int32 i) ≡ 4
unfolding write_int32
length-write_int32 i = length-big_endian 4 i

pub length-write_int64 : (i : ℕ) → length (write_int64 i) ≡ 8
unfolding write_int64
length-write_int64 i = length-big_endian 8 i

pub length-write_bool : (b : Bool) → length (write_bool b) ≡ 1
unfolding write_bool write_int8
length-write_bool false = refl
length-write_bool true = refl

pub length-write_string : (s : List ℕ) → length (write_string s) ≡ 2 + length s
unfolding write_string
length-write_string s =
    omega (arith, length-append (write_int16 (length s % 2 ^ 16)) s, length-write_int16)

pub length-write_bytes : (b : Slice) → length (write_bytes b) ≡ 4 + length (content b)
unfolding write_bytes content
length-write_bytes none = omega (arith, length-write_int32)
length-write_bytes (some b) =
    omega (arith, length-append (write_int32 (length b % 2 ^ 32)) b, length-write_int32)

pub length-write_array_len : (n : ℕ) → length (write_array_len n) ≡ 4
unfolding write_array_len
length-write_array_len n = length-write_int32 (n % 2 ^ 32)

pub ruleset lengths = (
  arith, length-write_int8, length-write_int16, length-write_int32, length-write_int64,
  length-write_bool, length-write_string, length-write_bytes, length-write_array_len,
)

-- `length-append` at bytes, and the sum of sizes, for the sets below.
pub length-bytes : (xs ys : List ℕ) → length (xs ++ ys) ≡ length xs + length ys
length-bytes xs ys = length-append xs ys

pub ⊕_lem : (a b : ℕ) → a ⊕ b ≡ (a + b) % 2 ^ 32
unfolding ◌⊕◌
⊕_lem a b = refl

pub sizeof_string-Sizes : (s : List ℕ) → Sizes (sizeof_string s) (write_string s)
unfolding sizeof_string ◌⊕◌
sizeof_string-Sizes s = omega lengths

pub sizeof_bytes-Sizes : (b : Slice) → Sizes (sizeof_bytes b) (write_bytes b)
unfolding sizeof_bytes ◌⊕◌
sizeof_bytes-Sizes b = omega lengths

module _ {ℓ} {A : Type ℓ} (size : A → ℕ) (write : A → List ℕ)
    (item : (x : A) → Sizes (size x) (write x)) where
  sizeof_items-Sizes :
      (s : ℕ) (bs : List ℕ) (xs : List A)
      → Sizes s bs
      → Sizes (sizeof_items s size xs) (bs ++ write_items write xs)
  unfolding sizeof_items write_items
  sizeof_items-Sizes s bs [] h = omega (arith, length-append bs [])
  sizeof_items-Sizes s bs (x ∷ xs) h = rw (← append_assoc) (
      sizeof_items-Sizes (s ⊕ size x) (bs ++ write x) xs
        (⊕-Sizes s (size x) bs (write x) h (item x)))

  -- The sum from `s` on.
  pub sizeof_items_lem :
      (s : ℕ) (xs : List A)
      → s < 2 ^ 32
      → sizeof_items s size xs ≡ (s + length (write_items write xs)) % 2 ^ 32
  unfolding sizeof_items write_items ◌⊕◌
  sizeof_items_lem s [] h = omega arith
  sizeof_items_lem s (x ∷ xs) h = omega (
    arith,
    sizeof_items_lem ((s + size x) % 2 ^ 32) xs (omega arith),
    item x,
    length-append (write x) (write_items write xs),
  )

  pub sizeof_array-Sizes : (xs : List A) → Sizes (sizeof_array size xs) (write_array write xs)
  unfolding sizeof_array write_array
  sizeof_array-Sizes xs = sizeof_items-Sizes 4 (write_array_len (length xs)) xs (omega lengths)

length-write_int32_items : (a : List ℕ) → length (write_items write_int32 a) ≡ 4 * length a
unfolding write_items
length-write_int32_items [] = refl
length-write_int32_items (x ∷ a) =
    omega (
      lengths,
      length-append (write_int32 x) (write_items write_int32 a),
      length-write_int32_items a,
    )

pub sizeof_int32_array-Sizes : (a : List ℕ) → Sizes (sizeof_int32_array a) (write_int32_array a)
unfolding sizeof_int32_array write_int32_array write_array ◌⊕◌
sizeof_int32_array-Sizes a = omega (
  lengths,
  length-append (write_array_len (length a)) (write_items write_int32 a),
  length-write_int32_items a,
)

pub sizeof_string_array-Sizes :
    (a : List (List ℕ)) → Sizes (sizeof_string_array a) (write_string_array a)
unfolding sizeof_string_array write_string_array
sizeof_string_array-Sizes a = sizeof_array-Sizes sizeof_string write_string sizeof_string-Sizes a

pub sizeof_int8_lem : (i : ℕ) → sizeof_int8 i ≡ 1
unfolding sizeof_int8
sizeof_int8_lem i = refl

pub sizeof_int16_lem : (i : ℕ) → sizeof_int16 i ≡ 2
unfolding sizeof_int16
sizeof_int16_lem i = refl

pub sizeof_int32_lem : (i : ℕ) → sizeof_int32 i ≡ 4
unfolding sizeof_int32
sizeof_int32_lem i = refl

pub sizeof_int64_lem : (i : ℕ) → sizeof_int64 i ≡ 8
unfolding sizeof_int64
sizeof_int64_lem i = refl

-- The size of a message made of several fields, against the bytes of its fields.
pub ruleset sizes = (
  lengths, length-bytes, ⊕_lem, sizeof_string-Sizes, sizeof_bytes-Sizes, sizeof_int32_array-Sizes,
  sizeof_string_array-Sizes, sizeof_int8_lem, sizeof_int16_lem, sizeof_int32_lem, sizeof_int64_lem,
)
