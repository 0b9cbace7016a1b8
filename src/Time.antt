-- ===== src/Time.antt =====
-- time.go: durations in milliseconds for the wire. A time.Duration is its number of nanoseconds.
use kafka_go.Prelude.{
  ℕ, suc, ◌+◌, ◌-◌, ◌*◌, ◌/◌, ◌%◌, ◌^◌, ◌<◌, ◌≤◌, ◌≡◌, ℤ, pos, negsuc, ltb_ℤ, sub_ℤ, Option, none,
  some, if◌then◌else◌, arith, ltb, ◌⊎◌, inl, inr,
}
use kafka_go.Wire.Bytes.{signed32, signed64}

-- `int32(n)` of an int: the bit pattern of the low 32 bits.
abbrev pub int32_of : ℤ → ℕ
int32_of (pos n) = n % 2 ^ 32
int32_of (negsuc n) = 2 ^ 32 - 1 - n % 2 ^ 32

abbrev pub millisecond : ℕ
millisecond = 1_000_000

abbrev pub max_timeout : ℤ
max_timeout = pos ((2 ^ 31 - 1) * millisecond)

abbrev pub min_timeout : ℤ
min_timeout = negsuc (2 ^ 31 * millisecond - 1)

-- Integer division of Go, which rounds towards 0, by a positive number.
abbrev pub quotient : ℤ → ℕ → ℤ
quotient (pos n) k = pos (n / k)
quotient (negsuc n) k = if ltb (suc n) k then pos 0 else negsuc (suc n / k - 1)

unfoldable pub milliseconds : ℤ → ℕ
milliseconds d = int32_of (
    quotient
      (if ltb_ℤ max_timeout d then max_timeout else if ltb_ℤ d min_timeout then min_timeout else d)
      millisecond)

unfoldable pub duration : ℕ → ℤ
duration ms = elim (signed32 ms) [
  | pos n ↦ pos (n * millisecond)
  | negsuc n ↦ negsuc (suc n * millisecond - 1)
]

-- A time.Time: nanoseconds from the start of 1970, or `none` for the zero Time.
abbrev pub Time : Type 0
Time = Option ℤ

-- `int64(n)` of an integer: the bit pattern of the low 64 bits.
abbrev pub int64_of : ℤ → ℕ
int64_of (pos n) = n % 2 ^ 64
int64_of (negsuc n) = 2 ^ 64 - 1 - n % 2 ^ 64

-- `t.UnixNano()`, an int64, which wraps for times before 1678 or after 2262.
abbrev pub unix_nano : ℤ → ℤ
unix_nano t = signed64 (int64_of t)

unfoldable pub timestamp : Time → ℕ
timestamp none = 0
timestamp (some t) = int64_of (quotient (unix_nano t) millisecond)

unfoldable pub timestamp_to_time : ℕ → Time
timestamp_to_time t = elim (signed64 t) [
  | pos n ↦ some (pos (n * millisecond))
  | negsuc n ↦ some (negsuc (suc n * millisecond - 1))
]

-- The least and the largest Duration, in which the difference of far times ends.
abbrev pub saturate : ℤ → ℤ
saturate d =
    if ltb_ℤ (pos (2 ^ 63 - 1)) d
    then pos (2 ^ 63 - 1)
    else if ltb_ℤ d (negsuc (2 ^ 63 - 1))
    then negsuc (2 ^ 63 - 1)
    else d

-- `t.Sub(u)`; the zero Time is further than a Duration from every other time.
unfoldable pub sub_time : Time → Time → ℤ
sub_time none none = pos 0
sub_time none (some u) = negsuc (2 ^ 63 - 1)
sub_time (some t) none = pos (2 ^ 63 - 1)
sub_time (some t) (some u) = saturate (sub_ℤ t u)

abbrev pub default_rtt : ℤ
default_rtt = pos (1000 * millisecond)

unfoldable pub deadline_to_timeout : Time → Time → ℤ
deadline_to_timeout none now = max_timeout
deadline_to_timeout (some d) now = sub_time (some d) now

unfoldable pub adjust_deadline_for_rtt : Time → Time → ℤ → Time
adjust_deadline_for_rtt none now rtt = none
adjust_deadline_for_rtt (some d) now rtt =
    let timeout = sub_time (some d) now in
    some (sub_ℤ d (if ltb_ℤ timeout rtt then quotient timeout 4 else rtt))

-- A timeout of the wire, an int32 number of milliseconds, comes back from its duration as it is.
pub milliseconds-duration : (ms : ℕ) → ms < 2 ^ 32 → milliseconds (duration ms) ≡ ms
unfolding milliseconds duration
milliseconds-duration ms h = ground arith

-- A duration that is not negative becomes the whole milliseconds in it, and one beyond the range of
-- an int32 the largest timeout.
pub milliseconds_pos :
    (n : ℕ)
    → signed32 (milliseconds (pos n))
      ≡ (if ltb (2 ^ 31 - 1) (n / millisecond) then pos (2 ^ 31 - 1) else pos (n / millisecond))
unfolding milliseconds
milliseconds_pos n = ground arith

-- The timestamps whose nanoseconds are an int64, before and after 1970.
abbrev pub max_timestamp : ℕ
max_timestamp = (2 ^ 63 - 1) / millisecond

-- A timestamp of the wire comes back from its time as it is.
pub timestamp-timestamp_to_time :
    (t : ℕ)
    → t < 2 ^ 64
    → (t ≤ max_timestamp) ⊎ (2 ^ 64 - max_timestamp ≤ t)
    → timestamp (timestamp_to_time t) ≡ t
unfolding timestamp timestamp_to_time
timestamp-timestamp_to_time t h (inl k) = ground (arith, k)
timestamp-timestamp_to_time t h (inr k) = ground (arith, k)

-- The deadline of a request leaves time for the way back: it is earlier than the deadline set, and
-- not before the present, while the deadline set is at least four nanoseconds away.
pub adjust_deadline_for_rtt_bounds :
    (now left : ℕ)
    → 4 ≤ left
    → left < 2 ^ 63
    → (d : ℕ) × (adjust_deadline_for_rtt (some (pos (now + left))) (some (pos now)) default_rtt
        ≡ some (pos d))
      × (now ≤ d)
      × (d < now + left)
unfolding adjust_deadline_for_rtt sub_time
adjust_deadline_for_rtt_bounds now left h l = (
  now + left - (if ltb left 1_000_000_000 then left / 4 else 1_000_000_000),
  ground arith,
  ground arith,
  ground arith,
)
