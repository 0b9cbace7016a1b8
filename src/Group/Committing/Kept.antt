-- ===== src/Group/Committing/Kept.antt =====
-- reader.go: no offset that commitLoopInterval has taken is lost.
use kafka_go.Prelude.{ℕ, List, [], ◌∷◌, ◌++◌, Option, none, some}
use kafka_go.OffsetStash.{Commit, Stash}
use kafka_go.OffsetStash.Highest.{collected, upper}
use kafka_go.Group.Committing.{Event, stop, tick, request, Committer}

-- The greater of two offsets, where they are known.
unfoldable pub greater : Option ℕ → Option ℕ → Option ℕ
greater a none = a
greater a (some o) = upper a o

-- The highest offset of a partition in the stash and in the stashes that have been committed.
unfoldable pub secured : List ℕ → ℕ → List Stash → Option ℕ
secured topic partition [] = none
secured topic partition (s ∷ ss) =
    greater (collected topic partition s) (secured topic partition ss)

unfoldable pub kept : List ℕ → ℕ → Committer → Option ℕ
kept topic partition s = secured topic partition (s.stash ∷ s.committed)

-- The commits that the loop takes before it stops, in their order.
unfoldable pub taken : List Event → List Commit
taken [] = []
taken (stop attempts ∷ es) = []
taken (tick attempts ∷ es) = taken es
taken (request commits ∷ es) = commits ++ taken es
