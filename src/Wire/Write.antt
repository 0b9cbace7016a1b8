-- ===== src/Wire/Write.antt =====
-- write.go: the primitive writers. A writer is the bytes that it appends to the bufio.Writer, and
-- one call after the other is `++`. A conversion to a narrower integer is written out as `%`.
use kafka_go.Prelude.{ℕ, ◌-◌, ◌%◌, ◌^◌, Bool, true, false, List, [], ◌∷◌, ◌++◌, none, some, length}
use kafka_go.Wire.Bytes.{big_endian, Slice}

-- `intN(n)` of a length: the bit pattern.
abbrev pub to_int16 : ℕ → ℕ
to_int16 n = n % 2 ^ 16

abbrev pub to_int32 : ℕ → ℕ
to_int32 n = n % 2 ^ 32

unfoldable pub write_int8 : ℕ → List ℕ
write_int8 i = (i % 2 ^ 8) ∷ []

unfoldable pub write_int16 : ℕ → List ℕ
write_int16 i = big_endian 2 i

unfoldable pub write_int32 : ℕ → List ℕ
write_int32 i = big_endian 4 i

unfoldable pub write_int64 : ℕ → List ℕ
write_int64 i = big_endian 8 i

unfoldable pub write_string : List ℕ → List ℕ
write_string s = write_int16 (to_int16 (length s)) ++ s

-- The length of a nil slice is written as -1.
unfoldable pub write_bytes : Slice → List ℕ
write_bytes none = write_int32 (2 ^ 32 - 1)
write_bytes (some b) = write_int32 (to_int32 (length b)) ++ b

unfoldable pub write_bool : Bool → List ℕ
write_bool false = write_int8 0
write_bool true = write_int8 1

unfoldable pub write_array_len : ℕ → List ℕ
write_array_len n = write_int32 (to_int32 n)

-- The loop `for i := 0; i != n; i++ { f(i) }` over the items.
unfoldable pub write_items {ℓ} : {A : Type ℓ} → (A → List ℕ) → List A → List ℕ
write_items f [] = []
write_items f (x ∷ xs) = f x ++ write_items f xs

unfoldable pub write_array {ℓ} : {A : Type ℓ} → (A → List ℕ) → List A → List ℕ
write_array f xs = write_array_len (length xs) ++ write_items f xs

unfoldable pub write_string_array : List (List ℕ) → List ℕ
write_string_array = write_array write_string

unfoldable pub write_int32_array : List ℕ → List ℕ
write_int32_array = write_array write_int32
