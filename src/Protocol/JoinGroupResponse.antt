-- ===== src/Protocol/JoinGroupResponse.antt =====
-- joingroup.go: the JoinGroup response.
use kafka_go.Prelude.{
  ℕ, zero, suc, ◌%◌, ◌^◌, ◌≤◌, ◌<◌, ◌≡◌, refl, ap, List, [], ◌∷◌, ◌++◌, Option, none, some, arith,
  length, map, All, take,
}
use mathlib.Core.Option
use kafka_go.Wire.Reader.{Reader, pure, ◌>>=◌}
use kafka_go.Wire.Read.{read_int16, read_int32, read_string, read_array_with}
use kafka_go.Wire.Write.{write_int16, write_int32, write_string, write_array}
use kafka_go.Wire.Size.{◌⊕◌, sizeof_int16, sizeof_int32, sizeof_string, sizeof_items}
use kafka_go.Wire.Sizes.{sizes, sizeof_items_lem}
use kafka_go.Wire.Reads.{Reads, >>=-Reads, last-Reads}
use kafka_go.Wire.Primitives.{IsString, int16-Reads, int32-Reads, string-Reads, array_map-Reads}
use kafka_go.Wire.Frame.{
  Framed, >>=-Framed, last-Framed, int16-Framed, int32-Framed, string-Framed, array-Framed,
}
use kafka_go.Protocol.JoinGroup.{
  JoinGroupResponseMemberV1, size_join_group_response_member_v1,
  write_join_group_response_member_v1, read_join_group_response_member_v1,
  size_join_group_response_member_v1-Sizes, IsJoinGroupResponseMemberV1,
  canonical_join_group_response_member_v1, join_group_response_member_v1-Reads,
  join_group_response_member_v1-Framed,
}

pub record JoinGroupResponseV1 : Type 0 where
  pub error_code : ℕ
  pub generation_id : ℕ
  pub group_protocol : List ℕ
  pub leader_id : List ℕ
  pub member_id : List ℕ
  pub members : List JoinGroupResponseMemberV1

-- `sizeofArray(n, func(i) { return items[i].size() })`: `none` is the panic of an index out of range.
unfoldable pub sizeof_indexed {ℓ} : {A : Type ℓ} → ℕ → (A → ℕ) → ℕ → List A → Option ℕ
sizeof_indexed s f zero xs = some s
sizeof_indexed s f (suc n) [] = none
sizeof_indexed s f (suc n) (x ∷ xs) = sizeof_indexed (s ⊕ f x) f n xs

-- The members are counted by the length of the member's id.
unfoldable pub size_join_group_response_v1 : JoinGroupResponseV1 → Option ℕ
size_join_group_response_v1 t =
    Option.map
      (λ n.
        sizeof_int16 t.error_code
        ⊕ sizeof_int32 t.generation_id
        ⊕ sizeof_string t.group_protocol
        ⊕ sizeof_string t.leader_id
        ⊕ sizeof_string t.member_id
        ⊕ n)
      (sizeof_indexed 4 size_join_group_response_member_v1 (length t.member_id) t.members)

unfoldable pub write_join_group_response_v1 : JoinGroupResponseV1 → List ℕ
write_join_group_response_v1 t =
    write_int16 t.error_code
    ++ (write_int32 t.generation_id
        ++ (write_string t.group_protocol
            ++ (write_string t.leader_id
                ++ (write_string t.member_id
                    ++ write_array write_join_group_response_member_v1 t.members))))

unfoldable pub read_join_group_response_v1 : Reader JoinGroupResponseV1
read_join_group_response_v1 = do
  error_code ← read_int16
  generation_id ← read_int32
  group_protocol ← read_string
  leader_id ← read_string
  member_id ← read_string
  members ← read_array_with read_join_group_response_member_v1
  pure (record {
    error_code = error_code;
    generation_id = generation_id;
    group_protocol = group_protocol;
    leader_id = leader_id;
    member_id = member_id;
    members = members;
  })

module _ {A : Type 0} (f : A → ℕ) where
  sizeof_indexed_short : (s n : ℕ) (xs : List A) → length xs < n → sizeof_indexed s f n xs ≡ none
  unfolding sizeof_indexed
  sizeof_indexed_short s zero xs h = absurd (omega arith)
  sizeof_indexed_short s (suc n) [] h = refl
  sizeof_indexed_short s (suc n) (x ∷ xs) h = sizeof_indexed_short (s ⊕ f x) n xs (omega arith)

  sizeof_indexed_long :
      (s n : ℕ) (xs : List A)
      → n ≤ length xs
      → sizeof_indexed s f n xs ≡ some (sizeof_items s f (take n xs))
  unfolding sizeof_indexed sizeof_items
  sizeof_indexed_long s zero xs h = refl
  sizeof_indexed_long s (suc n) [] h = absurd (omega arith)
  sizeof_indexed_long s (suc n) (x ∷ xs) h = sizeof_indexed_long (s ⊕ f x) n xs (omega arith)

-- Sizing a JoinGroup response with fewer members than its member id has bytes panics.
pub size_join_group_response_v1_panics :
    (t : JoinGroupResponseV1)
    → length t.members < length t.member_id
    → size_join_group_response_v1 t ≡ none
unfolding size_join_group_response_v1
size_join_group_response_v1_panics t h =
    rw (sizeof_indexed_short size_join_group_response_member_v1 4 (length t.member_id) t.members h)

-- The size of a JoinGroup response with at least as many members as its member id has bytes is that
-- of the response with only so many of its first members.
pub size_join_group_response_v1_first :
    (t : JoinGroupResponseV1)
    → length t.member_id ≤ length t.members
    → size_join_group_response_v1 t
      ≡ some (
          length (
            write_join_group_response_v1
              (record t { members = take (length t.member_id) t.members }))
          % 2 ^ 32)
unfolding size_join_group_response_v1 write_join_group_response_v1 write_array
size_join_group_response_v1_first t h =
    let first = take (length t.member_id) t.members in
    rw (sizeof_indexed_long size_join_group_response_member_v1 4 (length t.member_id) t.members h) (
      ap some (
        omega (
          sizes,
          sizeof_items_lem size_join_group_response_member_v1 write_join_group_response_member_v1
              size_join_group_response_member_v1-Sizes 4 first (omega arith),
        )))

pub record IsJoinGroupResponseV1 (t : JoinGroupResponseV1) : Type 0 where
  pub error_code : t.error_code < 2 ^ 16
  pub generation_id : t.generation_id < 2 ^ 32
  pub group_protocol : IsString t.group_protocol
  pub leader_id : IsString t.leader_id
  pub member_id : IsString t.member_id
  pub members_count : length t.members < 2 ^ 31
  pub members : All IsJoinGroupResponseMemberV1 t.members

pub canonical_join_group_response_v1 : JoinGroupResponseV1 → JoinGroupResponseV1
canonical_join_group_response_v1 t = record t {
  members = map canonical_join_group_response_member_v1 t.members;
}

-- A JoinGroup response whose fields fit their encodings is read back from the bytes written, empty
-- byte slices as nil, and no other bytes are taken; a response that ends before them gives
-- errShortRead.
pub join_group_response_v1-Reads :
    (t : JoinGroupResponseV1)
    → IsJoinGroupResponseV1 t
    → Reads read_join_group_response_v1
        (write_join_group_response_v1 t)
        (canonical_join_group_response_v1 t)
unfolding read_join_group_response_v1 write_join_group_response_v1 canonical_join_group_response_v1
join_group_response_v1-Reads t v = >>=-Reads _ (int16-Reads t.error_code v.error_code) (
    >>=-Reads _ (int32-Reads t.generation_id v.generation_id) (
      >>=-Reads _ (string-Reads t.group_protocol v.group_protocol) (
        >>=-Reads _ (string-Reads t.leader_id v.leader_id) (
          >>=-Reads _ (string-Reads t.member_id v.member_id) (
            last-Reads _ (
              array_map-Reads IsJoinGroupResponseMemberV1 read_join_group_response_member_v1
                write_join_group_response_member_v1 canonical_join_group_response_member_v1
                join_group_response_member_v1-Reads t.members v.members_count v.members))))))

-- On any input, and whatever its outcome, the reader of the JoinGroup response takes the next bytes
-- of the stream, no more than are left of the response, and as many as the number of bytes left
-- falls by.
pub join_group_response_v1-Framed : Framed read_join_group_response_v1
unfolding read_join_group_response_v1
join_group_response_v1-Framed = >>=-Framed _ int16-Framed λ _. >>=-Framed _ int32-Framed λ _.
    >>=-Framed _ string-Framed λ _. >>=-Framed _ string-Framed λ _.
      >>=-Framed _ string-Framed
        λ _. last-Framed _ (array-Framed join_group_response_member_v1-Framed)
