-- ===== src/Wire/VarInt.antt =====
-- write.go and read.go: variable-length integers. An int64 is its bit pattern; `<<` drops the bits
-- beyond 2 ^ 64 and `>>` keeps the sign.
pub mod Groups
pub mod RoundTrip
pub mod Total
use Prim.Native.Nat.{bit_and, bit_or, bit_xor}
use kafka_go.Prelude.{
  ℕ, zero, suc, ◌+◌, ◌-◌, ◌*◌, ◌/◌, ◌%◌, ◌^◌, List, [], ◌∷◌, Option, none, some, ltb, ◌==◌,
  if◌then◌else◌,
}
use mathlib.Core.Option
use kafka_go.Wire.Bytes.{make_int}
use kafka_go.Wire.Reader.{Reader, pure, throw, out_of_fuel, ◌>>=◌}
use kafka_go.Wire.Read.{peek_read}

abbrev pub int64_mod : ℕ
int64_mod = 2 ^ 64

-- `v >> k`
unfoldable pub shift_right : ℕ → ℕ → ℕ
shift_right v k = if ltb v (2 ^ 63) then v / 2 ^ k else int64_mod - 1 - (int64_mod - 1 - v) / 2 ^ k

-- `i<<1 ^ i>>63`
unfoldable pub zigzag : ℕ → ℕ
unfolding shift_right
zigzag i = bit_xor (i * 2 % int64_mod) (shift_right i 63)

-- The loop of writeVarInt; `none` when the fuel is used up.
unfoldable pub write_groups : ℕ → ℕ → Option (List ℕ)
write_groups zero i = none
write_groups (suc fuel) i =
    let more =
      Option.map (λ bs. (bit_or (bit_and i 0x7f) 0x80 % 256) ∷ bs)
        (write_groups fuel (shift_right i 7)) in
    if bit_and i 0x7f == i then some ((i % 256) ∷ []) else more

-- Ten groups of seven bits hold 64 bits.
abbrev pub groups_fuel : ℕ
groups_fuel = 10

unfoldable pub write_var_int : ℕ → Option (List ℕ)
write_var_int i = write_groups groups_fuel (zigzag i)

-- The loop of varIntLen, with the count so far.
unfoldable pub count_groups : ℕ → ℕ → ℕ → Option ℕ
count_groups zero i l = none
count_groups (suc fuel) i l =
    let more = count_groups fuel (shift_right i 7) (l + 1) in
    if bit_and i 0x7f == i then some (l + 1) else more

unfoldable pub var_int_len : ℕ → Option ℕ
var_int_len i = count_groups groups_fuel (zigzag i) 0

-- One round of readVarInt on the byte `b`, the `l`-th.
abbrev pub add_group : ℕ → ℕ → ℕ → ℕ
add_group acc l b = bit_or acc (bit_and b 0x7f * 2 ^ (7 * l) % int64_mod)

-- The loop of readVarInt.
unfoldable pub read_groups : ℕ → ℕ → ℕ → Reader ℕ
read_groups zero l acc = throw out_of_fuel
read_groups (suc fuel) l acc = do
  b ← peek_read 1 make_int
  let more = read_groups fuel (l + 1) (add_group acc l b)
  if bit_and b 0x80 == 0 then pure (add_group acc l b) else more

-- `(*v >> 1) ^ -(*v & 1)`
unfoldable pub unzigzag : ℕ → ℕ
unfolding shift_right
unzigzag v = bit_xor (shift_right v 1) ((int64_mod - bit_and v 1) % int64_mod)

-- Every round takes a byte of the response, or ends with errShortRead.
unfoldable pub read_var_int : Reader ℕ
read_var_int c = (do v ← read_groups (suc c.remain) 0 0; pure (unzigzag v)) c
