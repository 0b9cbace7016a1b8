-- ===== src/Wire/Bytes.antt =====
-- Big-endian bytes, as encoding/binary writes and reads them (protocol.go, write.go), and the
-- fixed-width integers that they stand for. An intN is its bit pattern, a number below 2 ^ N.
use kafka_go.Prelude.{
  ℕ, zero, suc, ◌+◌, ◌-◌, ◌*◌, ◌/◌, ◌%◌, ◌^◌, ◌<◌, ◌≡◌, refl, sym, ◌∙◌, ap, List, [], ◌∷◌, ◌++◌,
  Option, none, some, append-nil, append_assoc, arith, length, length-append, ltb, ℤ, pos, negsuc,
  if◌then◌else◌,
}
use native.Mathlib.Nat.{pow-suc}

-- `PutUint16`, `PutUint32` and `PutUint64`: the `k` bytes of `v`, the highest first.
unfoldable pub big_endian : ℕ → ℕ → List ℕ
big_endian zero v = []
big_endian (suc k) v = big_endian k (v / 256) ++ (v % 256) ∷ []

-- `Uint16`, `Uint32` and `Uint64`, from the value of the bytes read before.
unfoldable pub value_from : ℕ → List ℕ → ℕ
value_from acc [] = acc
value_from acc (b ∷ bs) = value_from (acc * 256 + b) bs

unfoldable pub make_int : List ℕ → ℕ
unfolding value_from
make_int bs = value_from 0 bs

-- The value of a bit pattern as a Go `int`: two's complement.
abbrev pub signed16 : ℕ → ℤ
signed16 v = if ltb v (2 ^ 15) then pos v else negsuc (2 ^ 16 - v - 1)

abbrev pub signed32 : ℕ → ℤ
signed32 v = if ltb v (2 ^ 31) then pos v else negsuc (2 ^ 32 - v - 1)

abbrev pub signed64 : ℕ → ℤ
signed64 v = if ltb v (2 ^ 63) then pos v else negsuc (2 ^ 64 - v - 1)

-- A byte slice: `none` is the nil slice.
abbrev pub Slice : Type 0
Slice = Option (List ℕ)

-- `string(b)`, and the bytes of `b` where nil and empty do not differ.
unfoldable pub content : Slice → List ℕ
content none = []
content (some b) = b

pub length-big_endian : (k v : ℕ) → length (big_endian k v) ≡ k
unfolding big_endian
length-big_endian zero v = refl
length-big_endian (suc k) v =
    omega (
      arith,
      length-append (big_endian k (v / 256)) ((v % 256) ∷ []),
      length-big_endian k (v / 256),
    )

value_from-big_endian :
    (k acc v : ℕ) (bs : List ℕ)
    → v < 256 ^ k
    → value_from acc (big_endian k v ++ bs) ≡ value_from (acc * 256 ^ k + v) bs
unfolding big_endian value_from
value_from-big_endian zero acc v bs h = ap (λ n. value_from n bs) (omega arith)
value_from-big_endian (suc k) acc v bs h = rw append_assoc (
    value_from-big_endian k acc (v / 256) ((v % 256) ∷ bs) (omega (arith, pow-suc 256 k))
    ∙ ap (λ n. value_from n bs) (omega (arith, ap (λ (t : ℕ). acc * t) (pow-suc 256 k))))

-- What was put is read back.
pub make_int-big_endian : (k v : ℕ) → v < 256 ^ k → make_int (big_endian k v) ≡ v
unfolding make_int value_from
make_int-big_endian k v h =
    ap (value_from 0) (sym (append-nil (big_endian k v)))
    ∙ value_from-big_endian k 0 v [] h
    ∙ omega arith
