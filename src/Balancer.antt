-- ===== src/Balancer.antt =====
-- balancer.go: how the Writer chooses the partition of a message. A balancer is its state, and a call
-- gives the partition and the next state; `none` is a run-time panic: an index out of range, or a
-- division by zero. Partition numbers are not negative.
pub mod Rotation
pub mod Least
use Prim.Native.Nat.{bit_xor}
use mathlib.Core.Option
use kafka_go.Prelude.{
  ℕ, zero, suc, Bool, true, false, not, ◌+◌, ◌-◌, ◌*◌, ◌%◌, ◌^◌, ◌==◌, ◌||◌, List, [], ◌∷◌, Option,
  none, some, length, get_elem?, foldl, if◌then◌else◌, ltb, leb,
}
use kafka_go.Wire.Bytes.{Slice, content}
use kafka_go.Message.{Message}

-- RoundRobin: a uint64.
abbrev pub RoundRobin : Type 0
RoundRobin = ℕ

unfoldable pub round_robin : RoundRobin → List ℕ → Option ℕ × RoundRobin
round_robin offset partitions = (
  if length partitions == 0 then none else get_elem? partitions (offset % length partitions),
  (offset + 1) % 2 ^ 64,
)

pub record LeastBytesCounter : Type 0 where
  pub partition : ℕ
  pub bytes : ℕ

-- LeastBytes: the counters.
abbrev pub LeastBytes : Type 0
LeastBytes = List LeastBytesCounter

-- The first counter whose partition is not less, which sort.Search finds.
unfoldable pub counter_of : LeastBytes → ℕ → Option LeastBytesCounter
counter_of [] partition = none
counter_of (c ∷ cs) partition =
    if leb partition c.partition
    then (if c.partition == partition then some c else none)
    else counter_of cs partition

-- sort.Slice by the partition.
unfoldable pub insert_counter : LeastBytesCounter → LeastBytes → LeastBytes
insert_counter c [] = c ∷ []
insert_counter c (d ∷ ds) =
    if leb c.partition d.partition then c ∷ d ∷ ds else d ∷ insert_counter c ds

unfoldable pub make_counters : List ℕ → LeastBytes
make_counters [] = []
make_counters (p ∷ ps) = insert_counter (record { partition = p; bytes = 0 }) (make_counters ps)

-- `c == nil` for one of the partitions.
unfoldable pub misses : LeastBytes → List ℕ → Bool
misses cs [] = false
misses cs (p ∷ ps) = elim (counter_of cs p) [ none ↦ true | some c ↦ misses cs ps ]

unfoldable pub refreshed : LeastBytes → List ℕ → LeastBytes
refreshed cs partitions = if misses cs partitions then make_counters partitions else cs

-- The first counter with the least bytes, and the counters with `n` bytes added to it. The loop
-- carries the least one so far.
unfoldable pub least_from : LeastBytesCounter → LeastBytes → LeastBytesCounter
least_from m [] = m
least_from m (c ∷ cs) = least_from (if ltb c.bytes m.bytes then c else m) cs

-- `c.bytes += n` at the counter that the loop found: the first one with as few bytes.
unfoldable pub add_bytes : ℕ → ℕ → LeastBytes → LeastBytes
add_bytes least n [] = []
add_bytes least n (c ∷ cs) =
    if c.bytes == least
    then record c { bytes = (c.bytes + n) % 2 ^ 64 } ∷ cs
    else c ∷ add_bytes least n cs

unfoldable pub message_bytes : Message → ℕ
message_bytes msg = (length (content msg.key) + length (content msg.value)) % 2 ^ 64

unfoldable pub charge : Message → LeastBytes → Option ℕ × LeastBytes
charge msg [] = (none, [])
charge msg (c ∷ cs) =
    let least = least_from c cs in
    (some least.partition, add_bytes least.bytes (message_bytes msg) (c ∷ cs))

unfoldable pub least_bytes : LeastBytes → Message → List ℕ → Option ℕ × LeastBytes
least_bytes cs msg partitions = charge msg (refreshed cs partitions)

-- hash/fnv: the 32-bit FNV-1a hash.
unfoldable pub fnv1a : List ℕ → ℕ
fnv1a bs = foldl (λ (h b : ℕ). bit_xor h b * 16_777_619 % 2 ^ 32) 2_166_136_261 bs

-- Hash, with its round robin and its hash function. `Sum32` is not negative as an int.
unfoldable pub hash_balance : (List ℕ → ℕ) → RoundRobin → Message → List ℕ → Option ℕ × RoundRobin
unfolding round_robin
hash_balance hasher rr msg partitions = elim msg.key [
  | none ↦ round_robin rr partitions
  | some key ↦ (if length partitions == 0 then none else some (hasher key % length partitions), rr)
]
