-- ===== src/Wire/VarInt/RoundTrip.antt =====
-- readVarInt reads what writeVarInt wrote.
use Prim.Native.Nat.{bit_and}
use kafka_go.Prelude.{
  ℕ, zero, suc, ◌+◌, ◌-◌, ◌*◌, ◌/◌, ◌%◌, ◌^◌, ◌≤◌, ◌<◌, ◌≡◌, refl, ap, ◌∙◌, inl, inr, false, List,
  [], ◌∷◌, ◌++◌, ◌==◌, if◌then◌else◌, arith, length, Bool-cases,
}
use kafka_go.Prelude.Bits.{
  bit_and_127, bit_and_128, bit_and_one, bit_or-add, bit_xor-zero, bit_xor-ones,
}
use native.Mathlib.Nat.{pow-suc, div-add-mod}
use native.Mathlib.Decide.{dec_lt}
use native.Mathlib.Numerals.{towards_suc}
use kafka_go.Wire.Bytes.{make_int}
use kafka_go.Wire.Reader.{done, pure, ◌>>=◌, at}
use kafka_go.Wire.Read.{peek_read}
use kafka_go.Wire.Reads.{Reads, IsShort, IsShort-and_then}
use kafka_go.Wire.Primitives.{peek_read-Reads}
use kafka_go.Wire.VarInt.{zigzag, unzigzag, add_group, read_groups, read_var_int, groups_fuel}
use kafka_go.Wire.VarInt.Groups.{
  groups, groups_last, groups_more, length-groups, IsVarInt, var_int, zigzag_pos, zigzag_neg,
  zigzag-lt,
}

pub unzigzag-zigzag : (i : ℕ) → IsVarInt i → unzigzag (zigzag i) ≡ i
unfolding unzigzag
unzigzag-zigzag i (h, inl k) =
    rw (zigzag_pos i (omega arith))
      (ground (arith, bit_and_one (2 * i), bit_xor-zero 64 i (omega arith)))
unzigzag-zigzag i (h, inr k) =
    let u = 2 * (2 ^ 64 - i) - 1 in
    rw (zigzag_neg i (omega arith) h)
      (ground (arith, bit_and_one u, bit_xor-ones 64 (u / 2) (omega arith)))

read_byte :
    (b : ℕ) (xs : List ℕ) (k : ℕ) → peek_read 1 make_int (at (b ∷ xs) (suc k)) ≡ done b (at xs k)
unfolding make_int
read_byte b xs k =
    ap (λ (n : ℕ). peek_read 1 make_int (at (b ∷ xs) n)) (omega arith)
    ∙ (peek_read-Reads make_int (b ∷ [])).whole xs k
    ∙ ap (λ (n : ℕ). done n (at xs k)) (omega arith)

-- One round of the loop.
one_round :
    (fuel l acc b : ℕ) (xs : List ℕ) (k : ℕ)
    → read_groups (suc fuel) l acc (at (b ∷ xs) (suc k)) ≡ (
        if bit_and b 128 == 0
        then done (add_group acc l b) (at xs k)
        else read_groups fuel (l + 1) (add_group acc l b) (at xs k))
unfolding read_groups ◌>>=◌ pure
one_round fuel l acc b xs k =
    rw (read_byte b xs k) (elim (Bool-cases (bit_and b 128 == 0)) [ inl e ↦ rw e | inr e ↦ rw e ])

-- The response ends before the last group.
next_byte-IsShort :
    (fuel l acc : ℕ) (xs : List ℕ) → IsShort (read_groups (suc fuel) l acc (at xs 0))
unfolding read_groups ◌>>=◌ peek_read
next_byte-IsShort fuel l acc xs = refl

seven_more : (l : ℕ) → 2 ^ (7 * (l + 1)) ≡ 128 * 2 ^ (7 * l)
seven_more l =
    let e : 7 * (l + 1) ≡ 7 * l + 7 = omega arith in
    ap (λ (t : ℕ). 2 ^ t) e ∙ simp towards_suc (omega arith)

add_group-add :
    (acc l b : ℕ)
    → acc < 2 ^ (7 * l)
    → b % 128 * 2 ^ (7 * l) < 2 ^ 64
    → add_group acc l b ≡ acc + b % 128 * 2 ^ (7 * l)
add_group-add acc l b h k = ground (arith, bit_and_127 b, bit_or-add (7 * l) acc (b % 128) h)

last_group :
    (fuel l acc u : ℕ) (rest : List ℕ) (n : ℕ)
    → u < 128
    → acc < 2 ^ (7 * l)
    → acc + u * 2 ^ (7 * l) < 2 ^ 64
    → read_groups (suc fuel) l acc (at (u ∷ rest) (suc n))
      ≡ done (acc + u * 2 ^ (7 * l)) (at rest n)
last_group fuel l acc u rest n h ha fits =
    let low : u % 128 ≡ u = omega arith in
    let small : u % 128 * 2 ^ (7 * l) < 2 ^ 64 = ground arith in
    one_round fuel l acc u rest n ∙ ground (arith, bit_and_128 u, add_group-add acc l u ha small)

inner_group :
    (fuel l acc g : ℕ) (xs : List ℕ) (n : ℕ)
    → g < 128
    → acc < 2 ^ (7 * l)
    → acc + g * 2 ^ (7 * l) < 2 ^ 64
    → read_groups (suc fuel) l acc (at ((g + 128) ∷ xs) (suc n))
      ≡ read_groups fuel (l + 1) (acc + g * 2 ^ (7 * l)) (at xs n)
inner_group fuel l acc g xs n h ha fits =
    let low : (g + 128) % 128 ≡ g = omega arith in
    let small : (g + 128) % 128 * 2 ^ (7 * l) < 2 ^ 64 = ground arith in
    one_round fuel l acc (g + 128) xs n
    ∙ ground (arith, bit_and_128 (g + 128), add_group-add acc l (g + 128) ha small)

-- The lowest group of `u` and the rest, behind `l` groups.
split_group : (u l : ℕ) → u * 2 ^ (7 * l) ≡ u % 128 * 2 ^ (7 * l) + u / 128 * 2 ^ (7 * (l + 1))
split_group u l = omega (
  arith,
  ap (λ (t : ℕ). t * 2 ^ (7 * l)) (div-add-mod u 128),
  ap (λ (t : ℕ). u / 128 * t) (seven_more l),
)

groups_end :
    (k u fuel l acc : ℕ) (rest : List ℕ) (n : ℕ)
    → u < 128
    → length (groups (suc k) u) ≤ fuel
    → acc < 2 ^ (7 * l)
    → acc + u * 2 ^ (7 * l) < 2 ^ 64
    → read_groups fuel l acc (at (groups (suc k) u ++ rest) (length (groups (suc k) u) + n))
      ≡ done (acc + u * 2 ^ (7 * l)) (at rest n)
groups_end k u zero l acc rest n h hf ha fits = absurd (omega (arith, length-groups k u))
groups_end k u (suc fuel) l acc rest n h hf ha fits = rw (groups_last k u h) (
    ap (λ (m : ℕ). read_groups (suc fuel) l acc (at (u ∷ rest) m)) (omega arith)
    ∙ last_group fuel l acc u rest n h ha fits)

group_room : (l acc g : ℕ) → g < 128 → acc < 2 ^ (7 * l) → acc + g * 2 ^ (7 * l) < 2 ^ (7 * (l + 1))
group_room l acc g h ha =
    let most : g * 2 ^ (7 * l) ≤ 127 * 2 ^ (7 * l) = grind arith in omega (arith, seven_more l)

-- The bytes of `u` are read on top of the `l` groups before.
read_groups-groups :
    (k u fuel l acc : ℕ) (rest : List ℕ) (n : ℕ)
    → u < 128 ^ suc k
    → length (groups (suc k) u) ≤ fuel
    → acc < 2 ^ (7 * l)
    → acc + u * 2 ^ (7 * l) < 2 ^ 64
    → read_groups fuel l acc (at (groups (suc k) u ++ rest) (length (groups (suc k) u) + n))
      ≡ done (acc + u * 2 ^ (7 * l)) (at rest n)
read_groups-groups zero u fuel l acc rest n hu hf ha fits =
    groups_end zero u fuel l acc rest n (omega arith) hf ha fits
read_groups-groups (suc k) u zero l acc rest n hu hf ha fits =
    absurd (omega (arith, length-groups (suc k) u))
read_groups-groups (suc k) u (suc fuel) l acc rest n hu hf ha fits = elim (dec_lt u 128) [
  | yes p ↦ groups_end (suc k) u (suc fuel) l acc rest n p hf ha fits
  | no p ↦
      let e = groups_more (suc k) u (omega arith) in
      let xs = groups (suc k) (u / 128) in
      let acc' = acc + u % 128 * 2 ^ (7 * l) in
      let split = split_group u l in
      let seven = seven_more l in
      let room = group_room l acc (u % 128) (omega arith) ha in
      rw e (
        ap (λ (m : ℕ). read_groups (suc fuel) l acc (at ((u % 128 + 128) ∷ (xs ++ rest)) m))
          (omega arith)
        ∙ inner_group fuel l acc (u % 128) (xs ++ rest) (length xs + n) (omega arith) ha
            (omega arith)
        ∙ read_groups-groups k (u / 128) fuel (l + 1) acc' rest n
            (omega (arith, pow-suc 128 (suc k))) (omega (arith, ap length e)) room (omega arith)
        ∙ ap (λ (m : ℕ). done m (at rest n)) (omega arith))
]

-- Cut anywhere, they give errShortRead.
read_groups-IsShort :
    (k u fuel l acc : ℕ) (rest : List ℕ) (n : ℕ)
    → n < length (groups k u)
    → n < fuel
    → IsShort (read_groups fuel l acc (at (groups k u ++ rest) n))
read_groups-IsShort zero u fuel l acc rest n h f = absurd (unfold groups in omega arith)
read_groups-IsShort (suc k) u zero l acc rest n h f = absurd (omega arith)
read_groups-IsShort (suc k) u (suc fuel) l acc rest zero h f =
    next_byte-IsShort fuel l acc (groups (suc k) u ++ rest)
read_groups-IsShort (suc k) u (suc fuel) l acc rest (suc n) h f = elim (dec_lt u 128) [
  | yes p ↦ absurd (omega (arith, ap length (groups_last k u p)))
  | no p ↦
      let e = groups_more k u (omega arith) in
      let b = u % 128 + 128 in
      let high : (bit_and b 128 == 0) ≡ false = ground (arith, bit_and_128 b) in
      rw (e, one_round fuel l acc b (groups k (u / 128) ++ rest) n, high)
        (read_groups-IsShort k (u / 128) fuel (l + 1) (add_group acc l b) rest n
          (omega (arith, ap length e)) (omega arith))
]

-- An integer of 63 bits is read back from its bytes, and no other bytes are taken; a response that
-- ends before them gives errShortRead.
pub var_int-Reads : (i : ℕ) → IsVarInt i → Reads read_var_int (var_int i) i
unfolding read_var_int ◌>>=◌ pure
var_int-Reads i v = record {
  whole = λ rest k.
      let h = zigzag-lt i v in
      rw
        (read_groups-groups 9 (zigzag i) (suc (length (var_int i) + k)) 0 0 rest k (omega arith)
          (omega arith) (omega arith) (omega arith))
        (ap (λ (m : ℕ). done m (at rest k)) (ap unzigzag (omega arith) ∙ unzigzag-zigzag i v));
  short = λ rest k l.
      IsShort-and_then (read_groups (suc k) 0 0 (at (var_int i ++ rest) k)) _
        (read_groups-IsShort groups_fuel (zigzag i) (suc k) 0 0 rest k l (omega arith));
}
