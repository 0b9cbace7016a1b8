-- ===== src/Examples/Balancing.antt =====
-- Examples for the group balancers: two members that share the five partitions of a topic.
use kafka_go.Prelude.{ℕ, ◌≡◌, List, [], ◌∷◌, none, arith}
use kafka_go.GroupBalancer.{GroupMember, Partition, range_share}
use kafka_go.GroupBalancer.Shares.{shares, range_shares}

abbrev five : List ℕ
five = 10 ∷ 11 ∷ 12 ∷ 13 ∷ 14 ∷ []

range_shares_example : shares range_share 2 2 five ≡ five
range_shares_example = range_shares 2 (omega arith) five

abbrev topic : List ℕ
topic = 116 ∷ []

abbrev member : ℕ → GroupMember
member n = record { id = n ∷ []; topics = topic ∷ []; user_data = none }

abbrev members : List GroupMember
members = member 98 ∷ member 97 ∷ []

abbrev partitions : List Partition
partitions = record { topic = topic; id = 0 } ∷ record { topic = topic; id = 1 } ∷ []
