-- ===== src/Examples/Integers.antt =====
-- Examples for variable-length integers, strings, slices, maps and durations.
use kafka_go.Prelude.{ℕ, ◌-◌, ◌^◌, ◌≡◌, ◌≢◌, List, [], ◌∷◌, none, some, inl, inr, arith}
use kafka_go.Wire.Reader.{at, fail, out_of_fuel}
use kafka_go.Wire.Reads.{Reads}
use kafka_go.Wire.Mapping.{Partitions}
use kafka_go.Wire.VarInt.{read_var_int, write_var_int, write_groups, zigzag}
use kafka_go.Wire.VarInt.Groups.{var_int, write_var_int-groups, write_var_int_diverges}
use kafka_go.Wire.VarInt.RoundTrip.{var_int-Reads}
use kafka_go.Wire.VarInt.Total.{read_var_int-Ends}

-- -150 as an int64
abbrev minus_150 : ℕ
minus_150 = 2 ^ 64 - 150

write_var_int-groups_example : write_var_int minus_150 ≡ some (var_int minus_150)
write_var_int-groups_example = write_var_int-groups minus_150 (omega arith, inr (omega arith))

var_int-Reads_example : Reads read_var_int (var_int 300) 300
var_int-Reads_example = var_int-Reads 300 (omega arith, inl (omega arith))

write_var_int_diverges_example : write_groups 1000 (zigzag (2 ^ 62)) ≡ none
write_var_int_diverges_example = write_var_int_diverges 1000 (2 ^ 62) (omega arith) (omega arith)

read_var_int-Ends_example : read_var_int (at (0x80 ∷ 0x80 ∷ []) 2) ≢ fail out_of_fuel (at [] 0)
read_var_int-Ends_example = read_var_int-Ends (at (0x80 ∷ 0x80 ∷ []) 2) (at [] 0)

-- "kafka"
abbrev kafka_name : List ℕ
kafka_name = 107 ∷ 97 ∷ 102 ∷ 107 ∷ 97 ∷ []

abbrev topics : Partitions
topics = (97 ∷ [], 0 ∷ 2 ∷ []) ∷ (98 ∷ [], 1 ∷ []) ∷ []
