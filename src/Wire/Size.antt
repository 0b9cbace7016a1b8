-- ===== src/Wire/Size.antt =====
-- sizeof.go: the sizes, in int32 arithmetic that wraps.
use kafka_go.Prelude.{ℕ, ◌+◌, ◌*◌, ◌%◌, ◌^◌, Bool, List, [], ◌∷◌, length}
use kafka_go.Wire.Bytes.{Slice, content}
use kafka_go.Wire.Write.{to_int32}

-- int32 `+` and `*` on bit patterns.
infixl 65 ◌⊕◌
unfoldable pub ◌⊕◌ : ℕ → ℕ → ℕ
a ⊕ b = (a + b) % 2 ^ 32

unfoldable pub sizeof_int8 : ℕ → ℕ
sizeof_int8 i = 1

unfoldable pub sizeof_int16 : ℕ → ℕ
sizeof_int16 i = 2

unfoldable pub sizeof_int32 : ℕ → ℕ
sizeof_int32 i = 4

unfoldable pub sizeof_int64 : ℕ → ℕ
sizeof_int64 i = 8

unfoldable pub sizeof_bool : Bool → ℕ
sizeof_bool b = 1

unfoldable pub sizeof_string : List ℕ → ℕ
sizeof_string s = 2 ⊕ to_int32 (length s)

unfoldable pub sizeof_bytes : Slice → ℕ
sizeof_bytes b = 4 ⊕ to_int32 (length (content b))

-- The loop of `sizeofArray` over the items, from the sum so far.
unfoldable pub sizeof_items {ℓ} : {A : Type ℓ} → ℕ → (A → ℕ) → List A → ℕ
sizeof_items s f [] = s
sizeof_items s f (x ∷ xs) = sizeof_items (s ⊕ f x) f xs

unfoldable pub sizeof_array {ℓ} : {A : Type ℓ} → (A → ℕ) → List A → ℕ
sizeof_array f xs = sizeof_items 4 f xs

unfoldable pub sizeof_int32_array : List ℕ → ℕ
sizeof_int32_array a = 4 ⊕ (4 * to_int32 (length a)) % 2 ^ 32

unfoldable pub sizeof_string_array : List (List ℕ) → ℕ
sizeof_string_array = sizeof_array sizeof_string
