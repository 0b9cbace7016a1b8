-- ===== src/GroupBalancer.antt =====
-- groupbalancer.go: how the leader of a group assigns partitions to the members. The maps are
-- association lists, in one of the orders in which Go may iterate over them. Partition ids and
-- indices are natural numbers.
pub mod Shares
pub mod Assign
use kafka_go.Prelude.{
  ℕ, zero, suc, ◌+◌, ◌*◌, ◌/◌, ◌%◌, Bool, ◌&&◌, List, [], ◌∷◌, ◌++◌, Option, none, some, length,
  ltb, leb, ◌==◌, if◌then◌else◌,
}
use kafka_go.Prelude.Strings.{same, less}
use kafka_go.Prelude.Dict.{find, alter}
use kafka_go.Wire.Bytes.{Slice}

pub record GroupMember : Type 0 where
  pub id : List ℕ
  pub topics : List (List ℕ)
  pub user_data : Slice

-- conn.go's Partition, as far as the balancers read it.
pub record Partition : Type 0 where
  pub topic : List ℕ
  pub id : ℕ

unfoldable pub find_partitions : List ℕ → List Partition → List ℕ
find_partitions topic [] = []
find_partitions topic (p ∷ ps) =
    if same p.topic topic then p.id ∷ find_partitions topic ps else find_partitions topic ps

-- `append(m[key], x)`
abbrev pub push {ℓ} : {A : Type ℓ} → A → Option (List A) → List A
push x none = x ∷ []
push x (some xs) = xs ++ x ∷ []

abbrev pub ByTopic : Type 0
ByTopic = List (List ℕ × List GroupMember)

-- The inner loop of findMembersByTopic, over the topics of one member.
unfoldable pub add_member : GroupMember → List (List ℕ) → ByTopic → ByTopic
add_member m [] by_topic = by_topic
add_member m (t ∷ ts) by_topic = add_member m ts (alter t (push m) by_topic)

unfoldable pub add_members : List GroupMember → ByTopic → ByTopic
add_members [] by_topic = by_topic
add_members (m ∷ ms) by_topic = add_members ms (add_member m m.topics by_topic)

-- sort.Slice by the id of the member.
unfoldable pub insert_member : GroupMember → List GroupMember → List GroupMember
insert_member m [] = m ∷ []
insert_member m (x ∷ xs) = if less x.id m.id then x ∷ insert_member m xs else m ∷ x ∷ xs

unfoldable pub sort_members : List GroupMember → List GroupMember
sort_members [] = []
sort_members (m ∷ ms) = insert_member m (sort_members ms)

unfoldable pub sort_each : ByTopic → ByTopic
sort_each [] = []
sort_each ((t, ms) ∷ rest) = (t, sort_members ms) ∷ sort_each rest

unfoldable pub find_members_by_topic : List GroupMember → ByTopic
find_members_by_topic members = sort_each (add_members members [])

abbrev pub Topics : Type 0
Topics = List (List ℕ × List ℕ)

-- GroupMemberAssignments: member id => topic => partitions
abbrev pub Assignments : Type 0
Assignments = List (List ℕ × Topics)

-- `assignmentsByTopic, ok := groupAssignments[member.ID]; if !ok { ... }`
abbrev pub or_empty : Option Topics → Topics
or_empty none = []
or_empty (some ts) = ts

-- The loop over the partitions, from the index `k`: those of the indices that pass the test are
-- appended to the topic of the member.
unfoldable pub give : (ℕ → Bool) → ℕ → List ℕ → List ℕ → List ℕ → Assignments → Assignments
give test k id topic [] ga = ga
give test k id topic (p ∷ ps) ga =
    give test (k + 1) id topic ps
      (if test k then alter id (λ ts. alter topic (push p) (or_empty ts)) ga else ga)

-- The test of a balancer: the index of the member, the numbers of members and of partitions, and
-- the index of the partition.
abbrev pub Share : Type 0
Share = ℕ → ℕ → ℕ → ℕ → Bool

-- The loop over the members of a topic, from the index `i`.
unfoldable pub assign_members :
    Share → ℕ → ℕ → List ℕ → List ℕ → List GroupMember → Assignments → Assignments
assign_members share i count topic parts [] ga = ga
assign_members share i count topic parts (m ∷ ms) ga =
    assign_members share (i + 1) count topic parts ms
      (give (share i count (length parts)) 0 m.id topic parts (alter m.id or_empty ga))

unfoldable pub assign_topics : Share → List Partition → ByTopic → Assignments → Assignments
assign_topics share all [] ga = ga
assign_topics share all ((topic, ms) ∷ rest) ga =
    assign_topics share all rest
      (assign_members share 0 (length ms) topic (find_partitions topic all) ms ga)

-- `minIndex <= partitionIndex < maxIndex`
unfoldable pub range_share : Share
range_share i members partitions p =
    leb (i * partitions / members) p && ltb p ((i + 1) * partitions / members)

unfoldable pub round_robin_share : Share
round_robin_share i members partitions p = p % members == i

unfoldable pub range_assign_groups : List GroupMember → List Partition → Assignments
range_assign_groups members all = assign_topics range_share all (find_members_by_topic members) []

unfoldable pub round_robin_assign_groups : List GroupMember → List Partition → Assignments
round_robin_assign_groups members all =
    assign_topics round_robin_share all (find_members_by_topic members) []

-- The GroupBalancer interface; UserData is nil for both balancers.
pub record Balancer : Type 0 where
  pub protocol_name : List ℕ
  pub user_data : Slice
  pub assign_groups : List GroupMember → List Partition → Assignments

-- "range"
abbrev pub range_balancer : Balancer
range_balancer = record {
  protocol_name = 114 ∷ 97 ∷ 110 ∷ 103 ∷ 101 ∷ [];
  user_data = none;
  assign_groups = range_assign_groups;
}

-- "roundrobin"
abbrev pub round_robin_balancer : Balancer
round_robin_balancer = record {
  protocol_name = 114 ∷ 111 ∷ 117 ∷ 110 ∷ 100 ∷ 114 ∷ 111 ∷ 98 ∷ 105 ∷ 110 ∷ [];
  user_data = none;
  assign_groups = round_robin_assign_groups;
}

unfoldable pub find_group_balancer : List ℕ → List Balancer → Option Balancer
find_group_balancer name [] = none
find_group_balancer name (b ∷ bs) =
    if same b.protocol_name name then some b else find_group_balancer name bs
