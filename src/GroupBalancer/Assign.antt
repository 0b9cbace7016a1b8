-- ===== src/GroupBalancer/Assign.antt =====
-- What a member is assigned: its shares of each topic that it is subscribed to.
use kafka_go.Prelude.{
  ℕ, ◌+◌, ◌≡◌, refl, Bool, true, false, List, [], ◌∷◌, ◌++◌, Option, none, some, length,
}
use kafka_go.Prelude.Strings.{same}
use kafka_go.Prelude.Dict.{find}
use kafka_go.GroupBalancer.{
  GroupMember, Partition, find_partitions, ByTopic, Assignments, or_empty, Share,
}
use kafka_go.GroupBalancer.Shares.{select}

abbrev or_nil : Option (List ℕ) → List ℕ
or_nil none = []
or_nil (some ps) = ps

-- `assignments[id][topic]`, where a missing entry is the nil slice.
unfoldable pub assigned : List ℕ → List ℕ → Assignments → List ℕ
assigned id topic ga = or_nil (find topic (or_empty (find id ga)))

abbrev pub when : Bool → List ℕ → List ℕ
when true xs = xs
when false xs = []

when-append : (b : Bool) (xs ys : List ℕ) → when b (xs ++ ys) ≡ when b xs ++ when b ys
when-append true xs ys = refl
when-append false xs ys = refl

-- The shares of the members with the id `id`, from the index `i`.
unfoldable pub shares_of : Share → ℕ → ℕ → List ℕ → List ℕ → List GroupMember → List ℕ
shares_of share i count id parts [] = []
shares_of share i count id parts (m ∷ ms) =
    when (same m.id id) (select (share i count (length parts)) 0 parts)
    ++ shares_of share (i + 1) count id parts ms

-- What a member should get of a topic: its shares of the partitions of the topic.
unfoldable pub expected : Share → List Partition → ByTopic → List ℕ → List ℕ → List ℕ
expected share all [] id topic = []
expected share all ((t, ms) ∷ rest) id topic =
    when (same t topic) (shares_of share 0 (length ms) id (find_partitions t all) ms)
    ++ expected share all rest id topic
