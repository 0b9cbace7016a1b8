-- ===== src/Writer/Partitions/Opened.antt =====
-- writer.go: the Writer keeps a writer open for each of its partitions.
use kafka_go.Prelude.{
  ℕ, ◌≡◌, refl, Bool, true, false, not, ◌&&◌, ◌||◌, List, [], ◌∷◌, Option, none, some, leb, ◌==◌,
  arith,
}
use kafka_go.Writer.Partitions.{
  is_absent, diffp, insert_int, sort_ints, delete_one, delete_all, open_all, Writers,
  rebalance_writers,
}

unfoldable pub contains : ℕ → List ℕ → Bool
contains p [] = false
contains p (q ∷ qs) = q == p || contains p qs

-- In ascending order.
unfoldable pub below : ℕ → List ℕ → Bool
below p [] = true
below p (q ∷ qs) = leb p q && below p qs

unfoldable pub sorted : List ℕ → Bool
sorted [] = true
sorted (p ∷ ps) = below p ps && sorted ps

below-contains :
    (p q : ℕ) (qs : List ℕ) → below q qs ≡ true → leb q p ≡ false → contains p qs ≡ false
unfolding below contains
below-contains p q [] h l = refl
below-contains p q (r ∷ qs) h l = ground (arith, h, l, below-contains p q qs)

is_absent-contains : (p : ℕ) (qs : List ℕ) → sorted qs ≡ true → is_absent p qs ≡ not (contains p qs)
unfolding is_absent contains sorted
is_absent-contains p [] h = refl
is_absent-contains p (q ∷ qs) h = ground (arith, h, is_absent-contains p qs, below-contains p q qs)

contains-diffp :
    (p : ℕ) (ps old : List ℕ)
    → sorted old ≡ true
    → contains p (diffp ps old) ≡ contains p ps && not (contains p old)
unfolding diffp contains
contains-diffp p [] old h = refl
contains-diffp p (q ∷ qs) old h =
    ground
      (arith, is_absent-contains q old h, is_absent-contains p old h, contains-diffp p qs old h)

contains-delete_one :
    (p q : ℕ) (ws : List ℕ) → contains p (delete_one q ws) ≡ contains p ws && not (q == p)
unfolding delete_one contains
contains-delete_one p q [] = refl
contains-delete_one p q (r ∷ ws) = ground (arith, contains-delete_one p q ws)

contains-delete_all :
    (p : ℕ) (ps ws : List ℕ) → contains p (delete_all ps ws) ≡ contains p ws && not (contains p ps)
unfolding delete_all contains
contains-delete_all p [] ws = ground arith
contains-delete_all p (q ∷ ps) ws =
    ground (arith, contains-delete_all p ps (delete_one q ws), contains-delete_one p q ws)

contains-open_all :
    (p : ℕ) (ps ws : List ℕ) → contains p (open_all ps ws) ≡ contains p ws || contains p ps
unfolding open_all contains
contains-open_all p [] ws = ground arith
contains-open_all p (q ∷ ps) ws =
    ground (arith, contains-open_all p ps (q ∷ delete_one q ws), contains-delete_one p q ws)

below-insert_int : (p q : ℕ) (qs : List ℕ) → below p (insert_int q qs) ≡ leb p q && below p qs
unfolding below insert_int
below-insert_int p q [] = refl
below-insert_int p q (r ∷ qs) = ground (arith, below-insert_int p q qs)

below-below : (p q : ℕ) (qs : List ℕ) → leb p q ≡ true → below q qs ≡ true → below p qs ≡ true
unfolding below
below-below p q [] l h = refl
below-below p q (r ∷ qs) l h = ground (arith, l, h, below-below p q qs)

sorted-insert_int : (p : ℕ) (qs : List ℕ) → sorted qs ≡ true → sorted (insert_int p qs) ≡ true
unfolding sorted insert_int below
sorted-insert_int p [] h = refl
sorted-insert_int p (q ∷ qs) h =
    ground (arith, h, sorted-insert_int p qs, below-insert_int q p qs, below-below p q qs)

sorted-sort_ints : (ps : List ℕ) → sorted (sort_ints ps) ≡ true
unfolding sort_ints sorted
sorted-sort_ints [] = refl
sorted-sort_ints (p ∷ ps) = sorted-insert_int p (sort_ints ps) (sorted-sort_ints ps)

pub record IsOpened (s : Writers) : Type 0 where
  pub order : sorted s.partitions ≡ true
  pub writers : (p : ℕ) → contains p s.writers ≡ contains p s.partitions

-- The partitions of a Writer stay in ascending order, and the open writers stay those of the
-- partitions, in a rebalance, whether or not the partitions could be read.
pub rebalance_writers-IsOpened :
    (read : Option (List ℕ)) (s : Writers) → IsOpened s → IsOpened (rebalance_writers read s)
unfolding rebalance_writers
rebalance_writers-IsOpened none s v = v
rebalance_writers-IsOpened (some read) s v = record {
  order = sorted-sort_ints read;
  writers = λ p. ground (
    arith,
    v.writers p,
    contains-open_all p (diffp (sort_ints read) s.partitions)
        (delete_all (diffp s.partitions (sort_ints read)) s.writers),
    contains-delete_all p (diffp s.partitions (sort_ints read)) s.writers,
    contains-diffp p (sort_ints read) s.partitions v.order,
    contains-diffp p s.partitions (sort_ints read) (sorted-sort_ints read),
  );
}
