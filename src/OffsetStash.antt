-- ===== src/OffsetStash.antt =====
-- commit.go and reader.go: the offsets that the reader of a consumer group collects before it commits
-- them. The maps are association lists; partitions and offsets are natural numbers.
pub mod Highest
use kafka_go.Prelude.{ℕ, ◌+◌, List, [], ◌∷◌, Option, none, some, map, ltb, ◌==◌, if◌then◌else◌}
use kafka_go.Prelude.Dict.{find, alter}
use kafka_go.Message.{Message}

pub record Commit : Type 0 where
  pub topic : List ℕ
  pub partition : ℕ
  pub offset : ℕ

unfoldable pub make_commit : Message → Commit
make_commit m = record { topic = m.topic; partition = m.partition; offset = m.offset + 1 }

unfoldable pub make_commits : List Message → List Commit
make_commits msgs = map make_commit msgs

abbrev pub Offsets : Type 0
Offsets = List (ℕ × ℕ)

-- offsetStash: topic => partition => offset
abbrev pub Stash : Type 0
Stash = List (List ℕ × Offsets)

unfoldable pub lookup : ℕ → Offsets → Option ℕ
lookup p [] = none
lookup p ((q, o) ∷ os) = if q == p then some o else lookup p os

-- `if offset, ok := m[p]; !ok || o > offset { m[p] = o }`
unfoldable pub raise : ℕ → ℕ → Offsets → Offsets
raise p o [] = (p, o) ∷ []
raise p o ((q, old) ∷ os) =
    if q == p then (q, if ltb old o then o else old) ∷ os else (q, old) ∷ raise p o os

abbrev pub or_new : Option Offsets → Offsets
or_new none = []
or_new (some os) = os

unfoldable pub merge : List Commit → Stash → Stash
merge [] s = s
merge (c ∷ cs) s = merge cs (alter c.topic (λ os. raise c.partition c.offset (or_new os)) s)
