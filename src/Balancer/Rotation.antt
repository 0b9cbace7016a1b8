-- ===== src/Balancer/Rotation.antt =====
-- RoundRobin over consecutive messages.
use kafka_go.Prelude.{
  ℕ, zero, suc, ◌+◌, ◌-◌, ◌%◌, ◌^◌, ◌<◌, ◌≤◌, ◌≡◌, refl, sym, ◌∙◌, ap, List, [], ◌∷◌, ◌++◌, Option,
  some, length, map, take, drop, get_elem?, length-drop, arith, ◌==◌, false,
}
use native.Mathlib.Nat.{mod-lt, mod-eq_of_lt, mod-add-mod, mod-eq-sub-mod}
use kafka_go.Balancer.{RoundRobin, round_robin}

-- The partitions that `n` calls choose, one after the other.
unfoldable pub choices : ℕ → RoundRobin → List ℕ → List (Option ℕ)
choices zero offset partitions = []
choices (suc n) offset partitions =
    let (p, next) = round_robin offset partitions in p ∷ choices n next partitions

-- The partition at an index, and those from it on.
get_elem?-drop :
    {A : Type 0} (k : ℕ) (xs : List A)
    → k < length xs
    → (x : A) × (get_elem? xs k ≡ some x) × (drop k xs ≡ x ∷ drop (suc k) xs)
get_elem?-drop k [] h = absurd (omega arith)
get_elem?-drop zero (x ∷ xs) h = (x, refl, refl)
get_elem?-drop (suc k) (x ∷ xs) h = get_elem?-drop k xs (omega arith)

take_all : {A : Type 0} (xs : List A) (n : ℕ) → n ≡ length xs → take n xs ≡ xs
take_all [] zero e = refl
take_all [] (suc n) e = refl
take_all (x ∷ xs) zero e = absurd (omega (arith, e))
take_all (x ∷ xs) (suc n) e = ap (◌∷◌ x) (take_all xs n (omega (arith, e)))

module _ (ps : List ℕ) where
  same_mod : {a b : ℕ} → a ≡ b → a % length ps ≡ b % length ps
  same_mod e = ap (λ (n : ℕ). n % length ps) e

  -- A run that does not pass the end of the partitions.
  run :
      (n offset k : ℕ)
      → ((i : ℕ) → i < n → (offset + i) % length ps ≡ k + i)
      → k + n ≤ length ps
      → offset + n < 2 ^ 64
      → choices n offset ps ≡ map some (take n (drop k ps))
  unfolding choices round_robin
  run zero offset k h l b = refl
  run (suc n) offset k h l b =
      let (x, p, q) = get_elem?-drop k ps (omega arith) in
      let z : (length ps == 0) ≡ false = ground arith in
      let m : offset % length ps ≡ k = same_mod (omega arith) ∙ h 0 (omega arith) ∙ omega arith in
      let o : (offset + 1) % 2 ^ 64 ≡ offset + 1 = omega arith in
      let ih =
        run n (offset + 1) (suc k)
          (λ i j. same_mod (omega arith) ∙ h (suc i) (omega arith) ∙ omega arith) (omega arith)
          (omega arith) in
      rw (z, m, p, q, o, ih) refl

  choices-append :
      (m n offset : ℕ)
      → offset + m < 2 ^ 64
      → choices (m + n) offset ps ≡ choices m offset ps ++ choices n (offset + m) ps
  unfolding choices round_robin
  choices-append zero n offset h =
      ap (λ (a : ℕ). choices a offset ps) (omega arith)
      ∙ ap (λ (a : ℕ). choices n a ps) (omega arith)
  choices-append (suc m) n offset h =
      let o : (offset + 1) % 2 ^ 64 ≡ offset + 1 = omega arith in
      let s : suc m + n ≡ suc (m + n) = omega arith in
      let e : offset + 1 + m ≡ offset + suc m = omega arith in
      let ih = choices-append m n (offset + 1) (omega arith) in rw (s, o, ih, e) refl

  -- `offset % length ps`: the index that the calls start at.
  abbrev pub start : ℕ → ℕ
  start offset = offset % length ps

  before_end :
      (offset i : ℕ) → start offset + i < length ps → (offset + i) % length ps ≡ start offset + i
  before_end offset i h = sym (mod-add-mod offset (length ps) i) ∙ mod-eq_of_lt h

  behind_end :
      (offset i : ℕ)
      → i < start offset
      → start offset < length ps
      → (offset + (length ps - start offset) + i) % length ps ≡ 0 + i
  behind_end offset i h l =
      let n = length ps in
      let s = start offset in
      let e : offset + (n - s) + i ≡ offset + (n - s + i) = omega arith in
      let d : s + (n - s + i) - n ≡ i = omega (arith, l) in
      let g : n ≤ s + (n - s + i) = omega (arith, l) in
      let k : i < n = omega (arith, h, l) in
      let z : i ≡ 0 + i = omega arith in
      same_mod e
      ∙ sym (mod-add-mod offset n (n - s + i))
      ∙ mod-eq-sub-mod g
      ∙ same_mod d
      ∙ mod-eq_of_lt k
      ∙ z

  -- As many calls of RoundRobin as there are partitions, while its counter does not wrap, choose
  -- every partition once: those from the one where the counter stands to the last, then those
  -- before it.
  pub round_robin-rotation :
      (offset : ℕ)
      → 0 < length ps
      → offset + length ps < 2 ^ 64
      → choices (length ps) offset ps
        ≡ map some (drop (start offset) ps) ++ map some (take (start offset) ps)
  round_robin-rotation offset h b =
      let n = length ps in
      let s = start offset in
      let l : s < n = mod-lt offset h in
      let e : n ≡ (n - s) + s = omega arith in
      let first =
        run (n - s) offset s (λ i j. before_end offset i (omega arith)) (omega arith)
          (omega arith) in
      let second =
        run s (offset + (n - s)) 0 (λ i j. behind_end offset i j l) (omega arith) (omega arith) in
      ap (λ (a : ℕ). choices a offset ps) e
      ∙ choices-append (n - s) s offset (omega arith)
      ∙ rw (first, second, take_all (drop s ps) (n - s) (sym (length-drop s ps))) refl
