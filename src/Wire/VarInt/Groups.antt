-- ===== src/Wire/VarInt/Groups.antt =====
-- The groups that are written for a number below 2 ^ 63, and the numbers for which the loop of
-- writeVarInt does not end.
use Prim.Native.Nat.{bit_or}
use kafka_go.Prelude.{
  ℕ, zero, suc, ◌+◌, ◌-◌, ◌*◌, ◌/◌, ◌%◌, ◌^◌, ◌≤◌, ◌<◌, ◌≡◌, refl, ap, ◌⊎◌, inl, inr, ◌∙◌, List, [],
  ◌∷◌, none, some, ltb, if◌then◌else◌, arith, length,
}
use kafka_go.Prelude.Bits.{bit_and_127, bit_or-add, bit_xor-zero, bit_xor-ones}
use native.Mathlib.Nat.{pow-suc}
use native.Mathlib.Decide.{dec_lt}
use kafka_go.Wire.VarInt.{
  shift_right, zigzag, write_groups, write_var_int, count_groups, var_int_len, groups_fuel,
}

-- The zigzag encoding in plain arithmetic.
pub zigzag_pos : (i : ℕ) → i < 2 ^ 63 → zigzag i ≡ 2 * i
unfolding zigzag
zigzag_pos i h = ground (arith, bit_xor-zero 64 (i * 2) (omega arith))

pub zigzag_neg : (i : ℕ) → 2 ^ 63 ≤ i → i < 2 ^ 64 → zigzag i ≡ 2 * (2 ^ 64 - i) - 1
unfolding zigzag
zigzag_neg i h k = ground (arith, bit_xor-ones 64 (i * 2 % 2 ^ 64) (omega arith))

-- The groups of seven bits of `u`, lowest first, all but the last with the top bit set.
unfoldable pub groups : ℕ → ℕ → List ℕ
groups zero u = []
groups (suc k) u =
    let more = groups k (u / 128) in if ltb u 128 then u ∷ [] else (u % 128 + 128) ∷ more

pub groups_last : (k u : ℕ) → u < 128 → groups (suc k) u ≡ u ∷ []
unfolding groups
groups_last k u h = ground arith

pub groups_more : (k u : ℕ) → 128 ≤ u → groups (suc k) u ≡ (u % 128 + 128) ∷ groups k (u / 128)
unfolding groups
groups_more k u h = ground arith

pub length-groups :
    (k u : ℕ) → (1 ≤ length (groups (suc k) u)) × (length (groups (suc k) u) ≤ suc k)
unfolding groups
length-groups zero u = ground arith
length-groups (suc k) u = ground (arith, length-groups k (u / 128))

high_bit : (g : ℕ) → g < 128 → bit_or g 128 ≡ g + 128
high_bit g h = bit_or-add 7 g 1 h

-- The loop writes the groups, and ends with the fuel that it is given.
write_groups-groups :
    (k u : ℕ) → u < 128 ^ suc k → u < 2 ^ 63 → write_groups (suc k) u ≡ some (groups (suc k) u)
unfolding write_groups groups shift_right
write_groups-groups zero u h l = ground (arith, bit_and_127 u)
write_groups-groups (suc k) u h l = ground (
  arith,
  bit_and_127 u,
  high_bit (u % 128) (omega arith),
  write_groups-groups k (u / 128) (omega (arith, pow-suc 128 (suc k))) (omega arith),
)

count_groups-length :
    (k u l : ℕ)
    → u < 128 ^ suc k
    → u < 2 ^ 63
    → count_groups (suc k) u l ≡ some (l + length (groups (suc k) u))
unfolding count_groups groups shift_right
count_groups-length zero u l h d = ground (arith, bit_and_127 u)
count_groups-length (suc k) u l h d = ground (
  arith,
  bit_and_127 u,
  count_groups-length k (u / 128) (l + 1) (omega (arith, pow-suc 128 (suc k))) (omega arith),
)

-- The integers of 63 bits: from -2 ^ 62 to 2 ^ 62 - 1.
abbrev pub IsVarInt : ℕ → Type 0
IsVarInt i = (i < 2 ^ 64) × ((i < 2 ^ 62) ⊎ (2 ^ 64 - 2 ^ 62 ≤ i))

pub zigzag-lt : (i : ℕ) → IsVarInt i → zigzag i < 2 ^ 63
zigzag-lt i (h, inl k) = omega (arith, zigzag_pos i (omega arith))
zigzag-lt i (h, inr k) = omega (arith, zigzag_neg i (omega arith) h)

-- The bytes of a variable-length integer.
abbrev pub var_int : ℕ → List ℕ
var_int i = groups groups_fuel (zigzag i)

-- For an integer of 63 bits writeVarInt ends within ten rounds, and writes its zigzag encoding in
-- groups of seven bits, lowest first, all but the last with the top bit set.
pub write_var_int-groups : (i : ℕ) → IsVarInt i → write_var_int i ≡ some (var_int i)
unfolding write_var_int
write_var_int-groups i v = let h = zigzag-lt i v in write_groups-groups 9 (zigzag i) (omega arith) h

-- For an integer of 63 bits varIntLen ends, and is the number of bytes in its encoding.
pub var_int_len-length : (i : ℕ) → IsVarInt i → var_int_len i ≡ some (length (var_int i))
unfolding var_int_len
var_int_len-length i v =
    let h = zigzag-lt i v in
    count_groups-length 9 (zigzag i) 0 (omega arith) h ∙ ap some (omega arith)

-- A negative pattern stays negative under `>>`, so the test of the loop never holds.
pub write_groups_diverges : (k i : ℕ) → 2 ^ 63 ≤ i → i < 2 ^ 64 → write_groups k i ≡ none
unfolding write_groups shift_right
write_groups_diverges zero i h l = refl
write_groups_diverges (suc k) i h l = ground (
  arith,
  bit_and_127 i,
  write_groups_diverges k (2 ^ 64 - 1 - (2 ^ 64 - 1 - i) / 128) (omega arith) (omega arith),
)

-- For an int64 beyond 63 bits the loop of writeVarInt does not end with any number of rounds.
pub write_var_int_diverges :
    (k i : ℕ) → 2 ^ 62 ≤ i → i < 2 ^ 64 - 2 ^ 62 → write_groups k (zigzag i) ≡ none
write_var_int_diverges k i h l = elim (dec_lt i (2 ^ 63)) [
  | yes p ↦
      write_groups_diverges k (zigzag i) (omega (arith, zigzag_pos i p))
        (omega (arith, zigzag_pos i p))
  | no p ↦
      let e = zigzag_neg i (omega arith) (omega arith) in
      write_groups_diverges k (zigzag i) (omega (arith, e)) (omega (arith, e))
]
