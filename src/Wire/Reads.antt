-- ===== src/Wire/Reads.antt =====
-- When a reader reads a value off the bytes that were written for it, and what it does when the
-- response ends before them.
use kafka_go.Prelude.{
  ℕ, zero, suc, ◌+◌, ◌<◌, ◌≡◌, ap, ◌⊎◌, inl, inr, List, [], ◌++◌, append-nil, append_assoc, arith,
  length, length-append, subst,
}
use kafka_go.Wire.Reader.{short_read, Outcome, done, fail, Reader, pure, ◌>>=◌, and_then, at}

-- The read stopped with errShortRead.
abbrev pub IsShort {ℓ} : {A : Type ℓ} → Outcome A → Type 0
IsShort (done a c) = ⊥
IsShort (fail e c) = e ≡ short_read

-- `m` reads `a` off `bs`: with all of `bs` inside the response it returns `a`, and takes `bs`
-- and nothing else; with the response cut anywhere inside `bs` it returns errShortRead.
pub record Reads {ℓ} {A : Type ℓ} (m : Reader A) (bs : List ℕ) (a : A) : Type ℓ where
  pub whole : (rest : List ℕ) (k : ℕ) → m (at (bs ++ rest) (length bs + k)) ≡ done a (at rest k)
  pub short : (rest : List ℕ) (k : ℕ) → k < length bs → IsShort (m (at (bs ++ rest) k))

pub pure-Reads {ℓ} : {A : Type ℓ} (a : A) → Reads (pure a) [] a
unfolding pure
pure-Reads a = record {
  whole = λ rest k. ap (λ n. done a (at rest n)) (omega arith);
  short = λ rest k h. absurd (omega arith);
}

pub IsShort-and_then {ℓ κ} :
    {A : Type ℓ} {B : Type κ} (o : Outcome A) (f : A → Reader B)
    → IsShort o
    → IsShort (and_then o f)
IsShort-and_then (done a c) f h = elim h [ ]
IsShort-and_then (fail e c) f h = h

module _ {ℓ κ} {A : Type ℓ} {B : Type κ} {m : Reader A} (f : A → Reader B) {bs cs : List ℕ} {a : A}
    {b : B} where
  >>=-whole :
      Reads m bs a
      → Reads (f a) cs b
      → (rest : List ℕ) (k : ℕ)
      → (m >>= f) (at ((bs ++ cs) ++ rest) (length (bs ++ cs) + k)) ≡ done b (at rest k)
  unfolding ◌>>=◌
  >>=-whole h g rest k =
      let e : length (bs ++ cs) + k ≡ length bs + (length cs + k) =
        omega (arith, length-append bs cs) in
      rw (append_assoc, e, h.whole (cs ++ rest) (length cs + k)) (g.whole rest k)

  >>=-IsShort :
      Reads m bs a
      → Reads (f a) cs b
      → (rest : List ℕ) (k : ℕ) → k < length (bs ++ cs)
      → (k < length bs) ⊎ ((j : ℕ) × (k ≡ length bs + j))
      → IsShort ((m >>= f) (at ((bs ++ cs) ++ rest) k))
  unfolding ◌>>=◌
  >>=-IsShort h g rest k l (inl p) =
      rw append_assoc
        (IsShort-and_then (m (at (bs ++ (cs ++ rest)) k)) f (h.short (cs ++ rest) k p))
  >>=-IsShort h g rest k l (inr (j, p)) =
      rw (append_assoc, p, h.whole (cs ++ rest) j)
        (g.short rest j (omega (arith, length-append bs cs)))

split_at : (k n : ℕ) → (k < n) ⊎ ((j : ℕ) × (k ≡ n + j))
split_at k zero = inr (k, omega arith)
split_at zero (suc n) = inl (omega arith)
split_at (suc k) (suc n) = elim (split_at k n) [
  | inl h ↦ inl (omega arith)
  | inr (j, h) ↦ inr (j, omega arith)
]

module _ {ℓ κ} {A : Type ℓ} {B : Type κ} {m : Reader A} (f : A → Reader B) {bs cs : List ℕ} {a : A}
    {b : B} where
  -- One field after the other.
  pub >>=-Reads : Reads m bs a → Reads (f a) cs b → Reads (m >>= f) (bs ++ cs) b
  >>=-Reads h g = record {
    whole = >>=-whole f h g;
    short = λ rest k l. >>=-IsShort f h g rest k l (split_at k (length bs));
  }

-- The last field.
pub last-Reads {ℓ κ} :
    {A : Type ℓ} {B : Type κ} {m : Reader A} (f : A → B) {bs : List ℕ} {a : A}
    → Reads m bs a
    → Reads (m >>= λ x. pure (f x)) bs (f a)
last-Reads {m = m} f {bs = bs} {a = a} h =
    subst (λ cs. Reads (m >>= λ x. pure (f x)) cs (f a)) (append-nil bs)
      (>>=-Reads _ h (pure-Reads (f a)))

-- A value read off the bytes that lead a longer write.
module _ {A : Type 0} {m : Reader A} {bs : List ℕ} {a : A} (r : Reads m bs a) where
  pub first-whole :
      (cs rest : List ℕ) (k : ℕ)
      → m (at ((bs ++ cs) ++ rest) (length (bs ++ cs) + k))
        ≡ done a (at (cs ++ rest) (length cs + k))
  first-whole cs rest k =
      let e : length (bs ++ cs) + k ≡ length bs + (length cs + k) =
        omega (arith, length-append bs cs) in
      rw (append_assoc, e) (r.whole (cs ++ rest) (length cs + k))
