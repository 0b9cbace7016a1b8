-- ===== src/Protocol/GroupAssignment.antt =====
-- syncgroup.go: the assignment of a group member. The map of topics is an association list, whose
-- order is one of those in which Go may iterate over it.
use kafka_go.Prelude.{
  ℕ, ◌+◌, ◌%◌, ◌^◌, ◌<◌, ◌≡◌, List, [], ◌++◌, none, arith, length, All, ◌==◌, if◌then◌else◌,
  Bool-cases, inl, inr,
}
use kafka_go.Wire.Bytes.{Slice, content}
use kafka_go.Wire.Reader.{Reader, done, at, pure, ◌>>=◌}
use kafka_go.Wire.Read.{read_int16, read_bytes}
use kafka_go.Wire.Write.{write_int16, write_bytes, write_array_len, write_items, to_int16}
use kafka_go.Wire.Size.{
  ◌⊕◌, sizeof_int16, sizeof_bytes, sizeof_string, sizeof_int32_array, sizeof_items,
}
use kafka_go.Wire.Sizes.{Sizes, sizes, sizeof_items_lem}
use kafka_go.Wire.Reads.{Reads, >>=-Reads, last-Reads}
use kafka_go.Wire.Primitives.{canonical, int16-Reads, bytes-Reads}
use kafka_go.Wire.Mapping.{
  Partitions, read_map_string_int32, write_entry, IsMap, IsEntry, map-Reads, map-Framed,
}
use kafka_go.Wire.Frame.{Framed, >>=-Framed, last-Framed, int16-Framed, bytes-Framed, stays}

pub record GroupAssignment : Type 0 where
  pub version : ℕ
  pub topics : Partitions
  pub user_data : Slice

size_entry : List ℕ × List ℕ → ℕ
size_entry e = sizeof_string e.0 ⊕ sizeof_int32_array e.1

-- The number of topics is sized as an int16.
unfoldable pub size_group_assignment : GroupAssignment → ℕ
unfolding size_entry
size_group_assignment t =
    sizeof_items (sizeof_int16 t.version ⊕ sizeof_int16 (to_int16 (length t.topics))) size_entry
      t.topics
    ⊕ sizeof_bytes t.user_data

unfoldable pub write_group_assignment : GroupAssignment → List ℕ
write_group_assignment t =
    write_int16 t.version
    ++ ((write_array_len (length t.topics) ++ write_items write_entry t.topics)
        ++ write_bytes t.user_data)

-- What is read for an empty input.
abbrev pub no_assignment : GroupAssignment
no_assignment = record { version = 0; topics = []; user_data = none }

read_fields : Reader GroupAssignment
read_fields = do
  version ← read_int16
  topics ← read_map_string_int32
  user_data ← read_bytes
  pure (record { version = version; topics = topics; user_data = user_data })

unfoldable pub read_group_assignment : Reader GroupAssignment
unfolding read_fields
read_group_assignment c = if c.remain == 0 then done no_assignment (at c.input 0) else read_fields c

size_entry-Sizes : (e : List ℕ × List ℕ) → Sizes (size_entry e) (write_entry e)
unfolding size_entry write_entry
size_entry-Sizes e = omega sizes

-- The announced size of an assignment is two less than the number of bytes written, as int32
-- values: the count of the topics is sized as an int16 and written as an int32.
pub size_group_assignment-short :
    (t : GroupAssignment)
    → (size_group_assignment t + 2) % 2 ^ 32 ≡ length (write_group_assignment t) % 2 ^ 32
unfolding size_group_assignment write_group_assignment
size_group_assignment-short t =
    let start = sizeof_int16 t.version ⊕ sizeof_int16 (to_int16 (length t.topics)) in
    omega
      (sizes, sizeof_items_lem size_entry write_entry size_entry-Sizes start t.topics (omega sizes))

pub record IsGroupAssignment (t : GroupAssignment) : Type 0 where
  pub version : t.version < 2 ^ 16
  pub topics_count : length t.topics < 2 ^ 31
  pub keys : IsMap [] t.topics
  pub entries : All IsEntry t.topics
  pub user_data : length (content t.user_data) < 2 ^ 31

unfoldable pub canonical_group_assignment : GroupAssignment → GroupAssignment
canonical_group_assignment t = record t { user_data = canonical t.user_data }

read_fields-Reads :
    (t : GroupAssignment)
    → IsGroupAssignment t
    → Reads read_fields (write_group_assignment t) (canonical_group_assignment t)
unfolding read_fields write_group_assignment canonical_group_assignment
read_fields-Reads t v = >>=-Reads _ (int16-Reads t.version v.version) (
    >>=-Reads _ (map-Reads t.topics v.topics_count v.keys v.entries)
      (last-Reads _ (bytes-Reads t.user_data v.user_data)))

nonempty : (t : GroupAssignment) → 0 < length (write_group_assignment t)
unfolding write_group_assignment
nonempty t = omega sizes

-- An assignment whose fields fit their encodings, with each topic once, is read back from the bytes
-- written, an empty byte slice as nil, and no other bytes are taken.
pub group_assignment-Reads :
    (t : GroupAssignment) (rest : List ℕ) (k : ℕ)
    → IsGroupAssignment t
    → read_group_assignment
        (at (write_group_assignment t ++ rest) (length (write_group_assignment t) + k))
      ≡ done (canonical_group_assignment t) (at rest k)
unfolding read_group_assignment
group_assignment-Reads t rest k v = ground (arith, (read_fields-Reads t v).whole rest k, nonempty t)

read_fields-Framed : Framed read_fields
unfolding read_fields
read_fields-Framed =
    >>=-Framed _ int16-Framed λ _. >>=-Framed _ map-Framed λ _. last-Framed _ bytes-Framed

-- On any input, and whatever its outcome, the reader of an assignment takes the next bytes of the
-- stream, no more than are left, and as many as the number of bytes left falls by.
pub group_assignment-Framed : Framed read_group_assignment
unfolding read_group_assignment
group_assignment-Framed = record {
  step = λ c. elim (Bool-cases (c.remain == 0)) [
    | inl e ↦ rw e (ground (arith, stays c))
    | inr e ↦ rw e (read_fields-Framed.step c)
  ];
}
