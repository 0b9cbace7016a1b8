-- ===== src/Group/Assigned.antt =====
-- reader.go: the assignments that the leader of a group sends, as a member of it reads them.
use kafka_go.Prelude.{
  ℕ, ◌≡◌, refl, ap, sym, ◌∙◌, ◌+◌, List, [], ◌∷◌, ◌++◌, append-nil, Option, some, map, length, All,
  arith,
}
use kafka_go.Wire.Bytes.{content}
use kafka_go.Wire.Mapping.{Partitions}
use kafka_go.Wire.Reader.{at}
use kafka_go.Protocol.GroupAssignment.{
  write_group_assignment, read_group_assignment, IsGroupAssignment, canonical_group_assignment,
  group_assignment-Reads,
}
use kafka_go.Protocol.SyncGroup.{SyncGroupRequestGroupAssignmentV0}
use kafka_go.GroupBalancer.{Assignments, Topics}
use kafka_go.Group.{
  Config, Membership, topics32, assignment_of, make_sync_group_request_v0, topics_of, subscriptions,
}

pub whole_assignment :
    (topics : Topics)
    → IsGroupAssignment (assignment_of topics)
    → subscriptions (some (write_group_assignment (assignment_of topics))) ≡ some (topics32 topics)
unfolding subscriptions topics_of content canonical_group_assignment
whole_assignment topics v =
    let bs = write_group_assignment (assignment_of topics) in
    let e : at (bs ++ []) (length bs + 0) ≡ at bs (length bs) =
      rw append-nil (ap (λ n. at bs n) (omega arith)) in
    ap (λ c. topics_of (read_group_assignment c)) (sym e)
    ∙ ap topics_of (group_assignment-Reads (assignment_of topics) [] 0 v)

-- Whether the assignments fit their encodings.
abbrev pub IsAssigned : List ℕ × Topics → Type 0
IsAssigned e = IsGroupAssignment (assignment_of e.1)

-- What the member of an entry of a request takes from it.
unfoldable pub received : SyncGroupRequestGroupAssignmentV0 → List ℕ × Option Partitions
received a = (a.member_id, subscriptions a.member_assignments)

unfoldable pub intended : List ℕ × Topics → List ℕ × Option Partitions
intended e = (e.0, some (topics32 e.1))

-- From each of the assignments that the leader of a group sends, when they fit their encodings, the
-- member it is for takes the topics and partitions that the balancer has given it, as int32 values.
pub received-make_sync_group_request_v0 :
    (cfg : Config) (m : Membership) (gs : Assignments)
    → All IsAssigned gs
    → map received (make_sync_group_request_v0 cfg m (some gs)).group_assignments ≡ map intended gs
unfolding make_sync_group_request_v0 received intended
received-make_sync_group_request_v0 cfg m [] v = refl
received-make_sync_group_request_v0 cfg m ((id, topics) ∷ gs) (v, vs) =
    rw (whole_assignment topics v) (
      ap (λ es. (id, some (topics32 topics)) ∷ es)
        (received-make_sync_group_request_v0 cfg m gs vs))
