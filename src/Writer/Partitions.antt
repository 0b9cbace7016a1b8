-- ===== src/Writer/Partitions.antt =====
-- writer.go: how the Writer opens and closes the writers of partitions, and hands a message to one of
-- them. The writers are the partitions they are for; ReadPartitions is an argument.
pub mod Opened
use kafka_go.Prelude.{
  ℕ, Bool, true, false, not, ◌&&◌, ◌||◌, List, [], ◌∷◌, ◌++◌, Option, none, some, leb, ◌==◌, length,
  if◌then◌else◌,
}

-- `i := sort.SearchInts(old, p); i == len(old) || old[i] != p`, where the search is linear.
unfoldable pub is_absent : ℕ → List ℕ → Bool
is_absent p [] = true
is_absent p (q ∷ qs) = if leb p q then not (q == p) else is_absent p qs

unfoldable pub diffp : List ℕ → List ℕ → List ℕ
diffp [] old = []
diffp (p ∷ ps) old = if is_absent p old then p ∷ diffp ps old else diffp ps old

-- sort.Ints
unfoldable pub insert_int : ℕ → List ℕ → List ℕ
insert_int p [] = p ∷ []
insert_int p (q ∷ qs) = if leb p q then p ∷ q ∷ qs else q ∷ insert_int p qs

unfoldable pub sort_ints : List ℕ → List ℕ
sort_ints [] = []
sort_ints (p ∷ ps) = insert_int p (sort_ints ps)

-- delete(writers, partition), for each partition.
unfoldable pub delete_one : ℕ → List ℕ → List ℕ
delete_one p [] = []
delete_one p (q ∷ qs) = if q == p then delete_one p qs else q ∷ delete_one p qs

unfoldable pub delete_all : List ℕ → List ℕ → List ℕ
delete_all [] ws = ws
delete_all (p ∷ ps) ws = delete_all ps (delete_one p ws)

-- writers[partition] = w.open(partition)
unfoldable pub open_all : List ℕ → List ℕ → List ℕ
open_all [] ws = ws
open_all (p ∷ ps) ws = open_all ps (p ∷ delete_one p ws)

pub record Writers : Type 0 where
  pub writers : List ℕ
  pub partitions : List ℕ

-- A rebalance of run: `read` is what ReadPartitions has given, and `none` is an error.
unfoldable pub rebalance_writers : Option (List ℕ) → Writers → Writers
rebalance_writers none s = s
rebalance_writers (some read) s =
    let partitions = sort_ints read in
    record {
      writers =
          open_all (diffp partitions s.partitions)
            (delete_all (diffp s.partitions partitions) s.writers);
      partitions = partitions;
    }
