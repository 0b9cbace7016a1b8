-- ===== src/GroupBalancer/Shares.antt =====
-- The shares of the members of one topic: together they are all partitions, each once.
use mathlib.Core.List.{Perm, perm_middle}
use mathlib.Core.List.Perm
use native.Mathlib.Nat.{
  le-div_iff_mul-le, div-lt_iff_lt-mul, div-mul-le_self, lt-div-mul-add, le_of_eq,
  mul-div_cancel_left, mod-lt, le_trans, zero-div,
}
use native.Mathlib.Decide.{dec_lt, ℕ_discrete}
use kafka_go.Prelude.{
  ℕ, zero, suc, ◌+◌, ◌-◌, ◌*◌, ◌/◌, ◌%◌, ◌≤◌, ◌<◌, ◌≡◌, refl, ap, ◌∙◌, Bool, true, false, ◌&&◌,
  List, [], ◌∷◌, ◌++◌, length, take, arith, ltb, leb, ◌==◌, if◌then◌else◌, lt→ltb, le→ltb, subst,
  length-append, length-take,
}
use kafka_go.GroupBalancer.{range_share, round_robin_share, Share}

-- The items from the index `k` on whose index passes the test.
unfoldable pub select {ℓ} : {A : Type ℓ} → (ℕ → Bool) → ℕ → List A → List A
select test k [] = []
select test k (x ∷ xs) = if test k then x ∷ select test (k + 1) xs else select test (k + 1) xs

-- The shares of the members below `n`, one after the other.
unfoldable pub shares {ℓ} : {A : Type ℓ} → Share → ℕ → ℕ → List A → List A
shares share zero count xs = []
shares share (suc n) count xs = shares share n count xs ++ select (share n count (length xs)) 0 xs

take_nil {ℓ} : {A : Type ℓ} (n : ℕ) → take {A = A} n [] ≡ []
take_nil zero = refl
take_nil (suc n) = refl

module _ {A : Type 0} (a b : ℕ) (h : a ≤ b) where
  -- What comes before the range, and the range.
  take-select :
      (k : ℕ) (xs : List A)
      → take (a - k) xs ++ select (λ p. leb a p && ltb p b) k xs ≡ take (b - k) xs
  unfolding select
  take-select k [] = rw (take_nil (a - k), take_nil (b - k))
  take-select k (x ∷ xs) = elim (dec_lt k a) [
    | yes p ↦
        let e : a - k ≡ suc (a - (k + 1)) = omega arith in
        let f : b - k ≡ suc (b - (k + 1)) = omega arith in
        let t : (leb a k && ltb k b) ≡ false = ground arith in
        rw (e, f, t) (ap (◌∷◌ x) (take-select (k + 1) xs))
    | no p ↦
        let e : a - k ≡ 0 = omega arith in
        let e' : a - (k + 1) ≡ 0 = omega arith in
        let rest = rw e' at (take-select (k + 1) xs) in
        elim (dec_lt k b) [
          | yes q ↦
              let f : b - k ≡ suc (b - (k + 1)) = omega arith in
              let t : (leb a k && ltb k b) ≡ true = ground arith in rw (e, f, t) (ap (◌∷◌ x) rest)
          | no q ↦
              let f : b - k ≡ 0 = omega arith in
              let f' : b - (k + 1) ≡ 0 = omega arith in
              let t : (leb a k && ltb k b) ≡ false = ground arith in rw (e, f, t) (rw f' at rest)
        ]
  ]

  front-select : (xs : List A) → take a xs ++ select (λ p. leb a p && ltb p b) 0 xs ≡ take b xs
  front-select xs =
      let e : a - 0 ≡ a = omega arith in
      let f : b - 0 ≡ b = omega arith in rw (e, f) at (take-select 0 xs)

  length-select_range :
      (xs : List A) → b ≤ length xs → length (select (λ p. leb a p && ltb p b) 0 xs) + a ≡ b
  length-select_range xs l = omega (
    arith,
    ap (length {A = A}) (front-select xs),
    length-append (take a xs) (select (λ p. leb a p && ltb p b) 0 xs),
    length-take a xs,
    length-take b xs,
  )

div_mono : (m n d : ℕ) → 0 < d → m ≤ n → m / d ≤ n / d
div_mono m n d h l = (le-div_iff_mul-le h).1 (le_trans (div-mul-le_self m d) l)

-- Quotients add up, but for one.
div_sum : (x y d : ℕ) → 0 < d → (x / d + y / d ≤ (x + y) / d) × ((x + y) / d < x / d + y / d + 2)
div_sum x y d h = (
  (le-div_iff_mul-le h).1 (omega (arith, div-mul-le_self x d, div-mul-le_self y d)),
  (div-lt_iff_lt-mul h).1 (omega (arith, lt-div-mul-add {a = x} h, lt-div-mul-add {a = y} h)),
)

take_all {ℓ} : {A : Type ℓ} (xs : List A) → take (length xs) xs ≡ xs
take_all [] = refl
take_all (x ∷ xs) = ap (◌∷◌ x) (take_all xs)

module _ {A : Type 0} (count : ℕ) (some_members : 0 < count) (xs : List A) where
  bound : (n : ℕ) → n * length xs / count ≤ (n + 1) * length xs / count
  bound n = div_mono (n * length xs) ((n + 1) * length xs) count some_members (omega arith)

  range_shares-take : (n : ℕ) → shares range_share n count xs ≡ take (n * length xs / count) xs
  unfolding shares range_share
  range_shares-take zero =
      let e : 0 * length xs / count ≡ 0 =
        ap (λ (t : ℕ). t / count) (omega arith) ∙ zero-div count in
      rw e
  range_shares-take (suc n) =
      let e : (n + 1) * length xs ≡ suc n * length xs = omega arith in
      rw (range_shares-take n) (
        front-select (n * length xs / count) ((n + 1) * length xs / count) (bound n) xs
        ∙ ap (λ (t : ℕ). take (t / count) xs) e)

  -- RangeGroupBalancer: for at least one member, the shares of all members, in the order of the
  -- members, are the partitions.
  pub range_shares : shares range_share count count xs ≡ xs
  range_shares =
      range_shares-take count
      ∙ ap (λ n. take n xs) (mul-div_cancel_left (length xs) some_members)
      ∙ take_all xs

  -- RangeGroupBalancer: each share of at least one member is the number of partitions over that of
  -- members, rounded down, or one more.
  pub range_share_size :
      (i : ℕ)
      → i < count
      → let share = length (select (range_share i count (length xs)) 0 xs) in
        (length xs / count ≤ share) × (share ≤ length xs / count + 1)
  unfolding range_share
  range_share_size i h =
      let e : (i + 1) * length xs ≡ i * length xs + length xs = omega arith in
      let end : (i + 1) * length xs / count ≤ length xs =
        le_trans
          (div_mono ((i + 1) * length xs) (count * length xs) count some_members (grind arith))
          (le_of_eq (mul-div_cancel_left (length xs) some_members)) in
      let size =
        length-select_range (i * length xs / count) ((i + 1) * length xs / count) (bound i) xs
          end in
      let sum = div_sum (i * length xs) (length xs) count some_members in
      let e' : (i + 1) * length xs / count ≡ (i * length xs + length xs) / count =
        ap (λ (t : ℕ). t / count) e in
      (omega arith, omega arith)

module _ {A : Type 0} (count : ℕ) where
  -- The items whose index has a remainder below `n`, and those with remainder `n`.
  remainder-perm :
      (n k : ℕ) (xs : List A)
      → Perm
          (select (λ p. ltb (p % count) n) k xs ++ select (λ p. p % count == n) k xs)
          (select (λ p. ltb (p % count) (suc n)) k xs)
  unfolding select
  remainder-perm n k [] = Perm.refl []
  remainder-perm n k (x ∷ xs) =
      let ih = remainder-perm n (k + 1) xs in
      let ys = select (λ p. ltb (p % count) n) (k + 1) xs in
      let zs = select (λ p. p % count == n) (k + 1) xs in
      elim (dec_lt (k % count) n) [
        | yes p ↦
            let s : ltb (k % count) n ≡ true = ground arith in
            let t : (k % count == n) ≡ false = ground arith in
            let u : ltb (k % count) (suc n) ≡ true = ground arith in rw (s, t, u) (Perm.cons x ih)
        | no p ↦ elim (ℕ_discrete (k % count) n) [
          | yes q ↦
              let s : ltb (k % count) n ≡ false = ground arith in
              let t : (k % count == n) ≡ true = ground arith in
              let u : ltb (k % count) (suc n) ≡ true = ground arith in
              rw (s, t, u) (Perm.trans (perm_middle ys zs) (Perm.cons x ih))
          | no q ↦
              let s : ltb (k % count) n ≡ false = ground arith in
              let t : (k % count == n) ≡ false = ground arith in
              let u : ltb (k % count) (suc n) ≡ false = ground arith in rw (s, t, u) ih
        ]
      ]

  select_none : (k : ℕ) (xs : List A) → select (λ p. ltb (p % count) 0) k xs ≡ []
  unfolding select
  select_none k [] = refl
  select_none k (x ∷ xs) = rw (le→ltb (k % count) 0 (omega arith)) (select_none (k + 1) xs)

  round_robin_shares-perm :
      (n : ℕ) (xs : List A)
      → Perm (shares round_robin_share n count xs) (select (λ p. ltb (p % count) n) 0 xs)
  unfolding shares round_robin_share
  round_robin_shares-perm zero xs = rw (select_none 0 xs) (Perm.refl [])
  round_robin_shares-perm (suc n) xs =
      Perm.trans (Perm.append (round_robin_shares-perm n xs) (Perm.refl _)) (remainder-perm n 0 xs)

  select_every : 0 < count → (k : ℕ) (xs : List A) → select (λ p. ltb (p % count) count) k xs ≡ xs
  unfolding select
  select_every h k [] = refl
  select_every h k (x ∷ xs) = rw (lt→ltb _ _ (mod-lt k h)) (ap (◌∷◌ x) (select_every h (k + 1) xs))

  -- RoundRobinGroupBalancer: for at least one member, the shares of all members are the partitions,
  -- each once.
  pub round_robin_shares :
      0 < count → (xs : List A) → Perm (shares round_robin_share count count xs) xs
  round_robin_shares h xs =
      subst (Perm (shares round_robin_share count count xs)) (select_every h 0 xs)
        (round_robin_shares-perm count xs)
