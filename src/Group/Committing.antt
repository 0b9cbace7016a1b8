-- ===== src/Group/Committing.antt =====
-- reader.go: how the reader of a consumer group commits the offsets it has collected, commitOffsets,
-- commitOffsetsWithRetry and the two commit loops, and how it fetches them again. A call of
-- Conn.offsetCommit is an argument, and so is whether the wait before an attempt was cancelled.
pub mod Kept
use mathlib.Core.Option
use kafka_go.Prelude.{
  ℕ, zero, suc, ◌+◌, ◌%◌, ◌^◌, Bool, true, false, List, [], ◌∷◌, Option, none, some, map, ltb_ℤ,
  pos, ltb, ◌==◌, if◌then◌else◌, ℤ,
}
use kafka_go.Prelude.Dict.{find}
use kafka_go.Wire.Mapping.{Partitions}
use kafka_go.Time.{int64_of, millisecond, quotient}
use kafka_go.Protocol.OffsetCommit.{
  OffsetCommitRequestV2Partition, OffsetCommitRequestV2Topic, OffsetCommitRequestV2,
}
use kafka_go.Protocol.OffsetFetch.{
  OffsetFetchRequestV1Topic, OffsetFetchRequestV1, OffsetFetchResponseV1,
  OffsetFetchResponseV1Response, OffsetFetchResponseV1PartitionResponse,
}
use kafka_go.OffsetStash.{Commit, Offsets, Stash, merge}
use kafka_go.Group.{Config, Membership}

unfoldable pub partition_of : ℕ × ℕ → OffsetCommitRequestV2Partition
partition_of e = record { partition = e.0 % 2 ^ 32; offset = e.1; metadata = [] }

unfoldable pub topic_of : List ℕ × Offsets → OffsetCommitRequestV2Topic
topic_of e = record { topic = e.0; partitions = map partition_of e.1 }

unfoldable pub make_offset_commit_request_v2 : Config → Membership → Stash → OffsetCommitRequestV2
make_offset_commit_request_v2 cfg m stash = record {
  group_id = cfg.group_id;
  generation_id = m.generation_id;
  member_id = m.member_id;
  retention_time = int64_of (quotient cfg.retention_time millisecond);
  topics = map topic_of stash;
}

-- Whether commitOffsets returns nil, where `accepts` is what the coordinator answers to a request.
unfoldable pub commit_offsets : Config → Membership → (OffsetCommitRequestV2 → Bool) → Stash → Bool
commit_offsets cfg m accepts [] = true
commit_offsets cfg m accepts (e ∷ stash) = accepts (make_offset_commit_request_v2 cfg m (e ∷ stash))

-- What happens at an attempt: whether the wait before it is completed, and what is answered.
pub record Attempt : Type 0 where
  pub slept : Bool
  pub accepts : OffsetCommitRequestV2 → Bool

abbrev pub default_commit_retries : ℕ
default_commit_retries = 3

-- The attempts after one that failed; the error is the one of the last attempt made.
unfoldable pub retry : Config → Membership → Stash → ℕ → (ℕ → Attempt) → ℕ → Bool
retry cfg m stash attempt attempts zero = false
retry cfg m stash attempt attempts (suc left) =
    let rest = retry cfg m stash (attempt + 1) attempts left in
    if (attempts attempt).slept
    then (if commit_offsets cfg m (attempts attempt).accepts stash then true else rest)
    else false

-- Whether commitOffsetsWithRetry returns nil, which it does also for no attempts.
unfoldable pub commit_offsets_with_retry : Config → Membership → Stash → (ℕ → Attempt) → ℕ → Bool
commit_offsets_with_retry cfg m stash attempts zero = true
commit_offsets_with_retry cfg m stash attempts (suc left) =
    if commit_offsets cfg m (attempts 0).accepts stash
    then true
    else retry cfg m stash 1 attempts left

-- What the select of the loop takes next. The attempts are those of the commit
-- that the event causes.
pub data Event : Type 0 where
  stop : (ℕ → Attempt) → Event
  tick : (ℕ → Attempt) → Event
  request : List Commit → Event

-- The stash, and the stashes that have been committed, the last first.
pub record Committer : Type 0 where
  pub stash : Stash
  pub committed : List Stash

module _ (cfg : Config) (m : Membership) where
  -- The commit of commitLoopInterval: the stash is kept when it fails.
  unfoldable pub commit_stash : Committer → (ℕ → Attempt) → Committer
  commit_stash s attempts =
      if commit_offsets_with_retry cfg m s.stash attempts default_commit_retries
      then record { stash = []; committed = s.stash ∷ s.committed }
      else s

  -- `false` where the loop returns.
  unfoldable pub interval_step : Committer → Event → Committer × Bool
  interval_step s (stop attempts) = (commit_stash s attempts, false)
  interval_step s (tick attempts) = (commit_stash s attempts, true)
  interval_step s (request commits) = (record s { stash = merge commits s.stash }, true)

  unfoldable pub continue : (Committer → Committer) → Committer × Bool → Committer
  continue rest (s, b) = if b then rest s else s

  unfoldable pub commit_loop_interval : Committer → List Event → Committer
  commit_loop_interval s [] = s
  commit_loop_interval s (e ∷ es) = continue (λ t. commit_loop_interval t es) (interval_step s e)

-- What the loop of commitLoopImmediate keeps: the stash, and what it has sent on the channels of the
-- requests, the last first.
pub record Immediate : Type 0 where
  pub stash : Stash
  pub answers : List Bool

module _ (cfg : Config) (m : Membership) where
  -- The stash is cleared whether or not it has been committed.
  unfoldable pub immediate_step : List Commit → (ℕ → Attempt) → Immediate → Immediate
  immediate_step commits attempts s =
      let stash = merge commits s.stash in
      record {
        stash = [];
        answers = commit_offsets_with_retry cfg m stash attempts default_commit_retries ∷ s.answers;
      }

  -- The requests up to the stop.
  unfoldable pub commit_loop_immediate : Immediate → List (List Commit × (ℕ → Attempt)) → Immediate
  commit_loop_immediate s [] = s
  commit_loop_immediate s ((commits, attempts) ∷ es) =
      commit_loop_immediate (immediate_step commits attempts s) es

-- subs[topic], which is empty for a missing topic.
unfoldable pub partitions_of : Option (List ℕ) → List ℕ
partitions_of none = []
partitions_of (some ps) = ps

-- The request of fetchOffsets.
unfoldable pub fetch_request : Config → Partitions → OffsetFetchRequestV1
fetch_request cfg subs = record {
  group_id = cfg.group_id;
  topics = record { topic = cfg.topic; partitions = partitions_of (find cfg.topic subs) } ∷ [];
}

-- `m[partition] = offset`
unfoldable pub put : ℕ → ℕ → Offsets → Offsets
put p o [] = (p, o) ∷ []
put p o ((q, old) ∷ os) = if q == p then (q, o) ∷ os else (q, old) ∷ put p o os

module _ (cfg : Config) where
  -- A stored offset, or AutoOffsetReset for a negative one.
  unfoldable pub stored : ℕ → ℕ
  stored offset = if ltb offset (2 ^ 63) then offset else cfg.auto_offset_reset

  unfoldable pub each_partition :
      List ℕ → OffsetFetchResponseV1PartitionResponse → Offsets → Offsets
  each_partition [] pr acc = acc
  each_partition (p ∷ ps) pr acc =
      each_partition ps pr (if p == pr.partition then put p (stored pr.offset) acc else acc)

  unfoldable pub each_response :
      List ℕ → List OffsetFetchResponseV1PartitionResponse → Offsets → Offsets
  each_response ps [] acc = acc
  each_response ps (pr ∷ prs) acc = each_response ps prs (each_partition ps pr acc)

  -- `offsets.Responses[0]`: `none` is the panic of an index out of range.
  unfoldable pub fetched : Partitions → OffsetFetchResponseV1 → Option Offsets
  fetched subs response = elim response.responses [
    | [] ↦ none
    | r ∷ rs ↦ some (each_response (partitions_of (find cfg.topic subs)) r.partition_responses [])
  ]
