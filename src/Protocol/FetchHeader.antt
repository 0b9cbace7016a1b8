-- ===== src/Protocol/FetchHeader.antt =====
-- read.go: the head of a Fetch response, for one partition, up to its message set.
use kafka_go.Prelude.{
  ℕ, zero, suc, ◌+◌, ◌^◌, ◌<◌, ◌≡◌, refl, List, [], ◌++◌, length, arith, ◌==◌, if◌then◌else◌, ℤ,
  pos, negsuc, append-nil, subst, Bool-cases, inl, inr,
}
use kafka_go.Wire.Bytes.{signed32}
use kafka_go.Wire.Reader.{
  Error, kafka, topics_expected, partitions_expected, set_size_mismatch, panics, done, fail, Reader,
  pure, throw, ◌>>=◌, ◌>>◌, at,
}
use kafka_go.Wire.Read.{
  read_int16, read_int32, read_int64, read_array_len, read_times, discard_string,
}
use kafka_go.Wire.Write.{write_int16, write_int32, write_int64, write_string}
use kafka_go.Wire.Reads.{Reads, >>=-Reads, last-Reads, pure-Reads, first-whole}
use kafka_go.Wire.Primitives.{int16-Reads, int32-Reads, int64-Reads, discard_string-Reads}

-- The throttle time and the high watermark.
pub record FetchHeader : Type 0 where
  pub throttle : ℕ
  pub watermark : ℕ

-- `if n != 1 { err = ... }`
unfoldable pub expect_one : (ℕ → Error) → Reader (Unit {0})
expect_one e = do n ← read_int32; if n == 1 then pure tt else throw (e n)

-- The throttle time, and the only topic and its only partition.
unfoldable pub read_to_partition : Reader ℕ
read_to_partition = do
  throttle ← read_int32
  expect_one topics_expected
  discard_string
  expect_one partitions_expected
  pure throttle

-- `if p.ErrorCode != 0`
unfoldable pub check_error_code : ℕ → Reader (Unit {0})
check_error_code code = if code == 0 then pure tt else throw (kafka code)

-- `if remain != int(messageSetSize)`, with the number of bytes that remain at the point of the test.
unfoldable pub check_set_size : ℕ → Reader (Unit {0})
check_set_size size c = elim (signed32 size) [
  | pos n ↦ if c.remain == n then done tt c else fail (set_size_mismatch size c.remain) c
  | negsuc n ↦ fail (set_size_mismatch size c.remain) c
]

-- The struct `p` of the version 2.
pub record PartitionV2 : Type 0 where
  pub partition : ℕ
  pub error_code : ℕ
  pub watermark : ℕ
  pub set_size : ℕ

unfoldable pub read_partition_v2 : Reader PartitionV2
read_partition_v2 = do
  partition ← read_int32
  error_code ← read_int16
  watermark ← read_int64
  set_size ← read_int32
  pure (record {
    partition = partition;
    error_code = error_code;
    watermark = watermark;
    set_size = set_size;
  })

unfoldable pub read_fetch_response_header_v2 : Reader FetchHeader
read_fetch_response_header_v2 = do
  throttle ← read_to_partition
  p ← read_partition_v2
  check_error_code p.error_code
  check_set_size p.set_size
  pure (record { throttle = throttle; watermark = p.watermark })

pub record AbortedTransaction : Type 0 where
  pub producer_id : ℕ
  pub first_offset : ℕ

unfoldable pub read_aborted_transaction : Reader AbortedTransaction
read_aborted_transaction = do
  producer_id ← read_int64
  first_offset ← read_int64
  pure (record { producer_id = producer_id; first_offset = first_offset })

-- `make` panics for a negative length other than -1.
unfoldable pub read_aborted_transactions : ℤ → Reader (List AbortedTransaction)
read_aborted_transactions (pos n) = read_times n read_aborted_transaction
read_aborted_transactions (negsuc zero) = pure []
read_aborted_transactions (negsuc (suc n)) = throw panics

-- The struct `p` of the version 5, which ends ahead of the size of the set.
pub record PartitionV5 : Type 0 where
  pub partition : ℕ
  pub error_code : ℕ
  pub watermark : ℕ
  pub last_stable_offset : ℕ
  pub log_start_offset : ℕ

unfoldable pub read_partition_v5 : Reader PartitionV5
read_partition_v5 = do
  partition ← read_int32
  error_code ← read_int16
  watermark ← read_int64
  last_stable_offset ← read_int64
  log_start_offset ← read_int64
  pure (record {
    partition = partition;
    error_code = error_code;
    watermark = watermark;
    last_stable_offset = last_stable_offset;
    log_start_offset = log_start_offset;
  })

unfoldable pub read_fetch_response_header_v5 : Reader FetchHeader
read_fetch_response_header_v5 = do
  throttle ← read_to_partition
  p ← read_partition_v5
  n ← read_array_len
  aborted_transactions ← read_aborted_transactions n
  check_error_code p.error_code
  size ← read_int32
  check_set_size size
  pure (record { throttle = throttle; watermark = p.watermark })

abbrev to_partition : ℕ → List ℕ → List ℕ
to_partition throttle topic =
    write_int32 throttle ++ (write_int32 1 ++ (write_string topic ++ write_int32 1))

expect_one-Reads : (e : ℕ → Error) → Reads (expect_one e) (write_int32 1) tt
unfolding expect_one
expect_one-Reads e =
    subst (λ bs. Reads (expect_one e) bs tt) (append-nil (write_int32 1))
      (>>=-Reads (λ n. if n == 1 then pure tt else throw (e n)) (int32-Reads 1 (omega arith))
        (pure-Reads tt))

to_partition-Reads :
    (throttle : ℕ) (topic : List ℕ)
    → throttle < 2 ^ 32
    → length topic < 2 ^ 15
    → Reads read_to_partition (to_partition throttle topic) throttle
unfolding read_to_partition
to_partition-Reads throttle topic h l = >>=-Reads _ (int32-Reads throttle h) (
    >>=-Reads _ (expect_one-Reads topics_expected) (
      >>=-Reads _ (discard_string-Reads topic l)
        (last-Reads _ (expect_one-Reads partitions_expected))))

abbrev pub write_partition_v2 : PartitionV2 → List ℕ
write_partition_v2 p =
    write_int32 p.partition
    ++ (write_int16 p.error_code ++ (write_int64 p.watermark ++ write_int32 p.set_size))

pub record PartitionFits (p : PartitionV2) : Type 0 where
  pub partition : p.partition < 2 ^ 32
  pub error_code : p.error_code < 2 ^ 16
  pub watermark : p.watermark < 2 ^ 64
  pub set_size : p.set_size < 2 ^ 31

partition_v2-Reads :
    (p : PartitionV2) → PartitionFits p → Reads read_partition_v2 (write_partition_v2 p) p
unfolding read_partition_v2
partition_v2-Reads p f = >>=-Reads _ (int32-Reads p.partition f.partition) (
    >>=-Reads _ (int16-Reads p.error_code f.error_code) (
      >>=-Reads _ (int64-Reads p.watermark f.watermark)
        (last-Reads _ (int32-Reads p.set_size (omega (arith, f.set_size))))))

-- The head of a response in the version 2.
abbrev pub write_head_v2 : ℕ → List ℕ → PartitionV2 → List ℕ
write_head_v2 throttle topic p = to_partition throttle topic ++ write_partition_v2 p

check_set_size_lem :
    (size k : ℕ) (set : List ℕ)
    → size < 2 ^ 31
    → check_set_size size (at set k)
      ≡ (if k == size then done tt (at set k) else fail (set_size_mismatch size k) (at set k))
unfolding check_set_size
check_set_size_lem size k set h =
    let e : signed32 size ≡ pos size = ground arith in rw (check_set_size, e) refl

-- On the head of a fetch response for one topic and one partition, whose fields fit their
-- encodings, readFetchResponseHeaderV2 returns its throttle time and its high watermark if the
-- error code is 0 and the bytes that remain are as many as the announced set; it fails with the
-- error of the broker if the code is not 0, and with the mismatch if the sizes differ, and stands
-- behind the head each time.
pub read_fetch_response_header_v2_lem :
    (throttle : ℕ) (topic : List ℕ) (p : PartitionV2) (set : List ℕ) (k : ℕ)
    → throttle < 2 ^ 32
    → length topic < 2 ^ 15
    → PartitionFits p
    → read_fetch_response_header_v2
        (at (write_head_v2 throttle topic p ++ set) (length (write_head_v2 throttle topic p) + k))
      ≡ (if p.error_code == 0
          then if k == p.set_size
            then done (record { throttle = throttle; watermark = p.watermark }) (at set k)
            else fail (set_size_mismatch p.set_size k) (at set k)
          else fail (kafka p.error_code) (at set k))
unfolding read_fetch_response_header_v2 check_error_code ◌>>=◌ pure throw
read_fetch_response_header_v2_lem throttle topic p set k h l f =
    let a = first-whole (to_partition-Reads throttle topic h l) (write_partition_v2 p) set k in
    let b = (partition_v2-Reads p f).whole set k in
    elim (Bool-cases (p.error_code == 0)) [
      | inl z ↦ elim (Bool-cases (k == p.set_size)) [
        | inl q ↦ rw (a, b, z, check_set_size_lem p.set_size k set f.set_size, q) refl
        | inr q ↦ rw (a, b, z, check_set_size_lem p.set_size k set f.set_size, q) refl
      ]
      | inr z ↦ rw (a, b, z) refl
    ]
