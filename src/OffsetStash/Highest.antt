-- ===== src/OffsetStash/Highest.antt =====
-- The offset that is collected for a partition is the highest of those merged.
use kafka_go.Prelude.{
  ℕ, ◌≡◌, refl, ap, ◌∙◌, ◌&&◌, List, [], ◌∷◌, Option, none, some, max, ◌==◌, if◌then◌else◌, arith,
  Bool-cases, inl, inr,
}
use kafka_go.Prelude.Strings.{same, same_iff}
use kafka_go.Prelude.Dict.{find, alter, find-alter}
use kafka_go.OffsetStash.{Commit, Offsets, Stash, lookup, raise, or_new, merge}

unfoldable pub collected : List ℕ → ℕ → Stash → Option ℕ
collected topic partition s = lookup partition (or_new (find topic s))

abbrev pub upper : Option ℕ → ℕ → Option ℕ
upper none o = some o
upper (some b) o = some (max b o)

-- The highest of `best` and the offsets of the commits for the partition.
unfoldable pub highest : List ℕ → ℕ → Option ℕ → List Commit → Option ℕ
highest topic partition best [] = best
highest topic partition best (c ∷ cs) =
    highest topic partition
      (if same c.topic topic && c.partition == partition then upper best c.offset else best) cs

lookup-raise :
    (p o j : ℕ) (os : Offsets)
    → lookup j (raise p o os) ≡ (if p == j then upper (lookup j os) o else lookup j os)
unfolding lookup raise
lookup-raise p o j [] = ground arith
lookup-raise p o j ((q, old) ∷ os) = ground (arith, lookup-raise p o j os)

one_commit :
    (c : Commit) (s : Stash) (topic : List ℕ) (partition : ℕ)
    → collected topic partition (alter c.topic (λ os. raise c.partition c.offset (or_new os)) s) ≡ (
        if same c.topic topic && c.partition == partition
        then upper (collected topic partition s) c.offset
        else collected topic partition s)
unfolding collected
one_commit c s topic partition = elim (Bool-cases (same c.topic topic)) [
  | inl e ↦
      rw (find-alter c.topic topic (λ os. raise c.partition c.offset (or_new os)) s, e)
        (lookup-raise c.partition c.offset partition (or_new (find c.topic s))
          ∙ ap
              (λ t.
                if c.partition == partition
                then upper (lookup partition (or_new (find t s))) c.offset
                else lookup partition (or_new (find t s)))
              ((same_iff c.topic topic).0 e))
  | inr e ↦ rw (find-alter c.topic topic (λ os. raise c.partition c.offset (or_new os)) s, e)
]

-- The offset that is collected for a partition of a topic, after commits are merged, is the highest
-- of the one collected before and those of the commits for it.
pub merge-highest :
    (cs : List Commit) (s : Stash) (topic : List ℕ) (partition : ℕ)
    → collected topic partition (merge cs s)
      ≡ highest topic partition (collected topic partition s) cs
unfolding merge highest
merge-highest [] s topic partition = refl
merge-highest (c ∷ cs) s topic partition =
    merge-highest cs (alter c.topic (λ os. raise c.partition c.offset (or_new os)) s) topic
      partition
    ∙ ap (λ best. highest topic partition best cs) (one_commit c s topic partition)
