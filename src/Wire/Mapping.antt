-- ===== src/Wire/Mapping.antt =====
-- The map of read.go's readMapStringInt32, as an association list, and what it reads back.
use kafka_go.Prelude.{
  ℕ, zero, suc, ◌<◌, ◌^◌, ◌≡◌, refl, ap, false, List, [], ◌∷◌, ◌++◌, arith, length, map,
  if◌then◌else◌, pos_part, All, append_assoc, append-nil,
}
use kafka_go.Prelude.Strings.{same}
use kafka_go.Wire.Bytes.{signed32}
use kafka_go.Wire.Reader.{Reader, pure, ◌>>=◌}
use kafka_go.Wire.Read.{read_int32, read_string, read_array_with}
use kafka_go.Wire.Write.{write_string, write_int32, write_int32_array, write_array_len, write_items}
use kafka_go.Wire.Reads.{Reads, pure-Reads, >>=-Reads}
use kafka_go.Wire.Primitives.{IsString, string-Reads, int32-Reads, array-Reads, signed32_small}
use kafka_go.Wire.Frame.{Framed, >>=-Framed, pure-Framed, int32-Framed, string-Framed, array-Framed}

-- `m[key] = value`.
unfoldable pub map_put {ℓ} : {V : Type ℓ} → List ℕ → V → List (List ℕ × V) → List (List ℕ × V)
map_put key v [] = (key, v) ∷ []
map_put key v ((k, w) ∷ m) = if same k key then (k, v) ∷ m else (k, w) ∷ map_put key v m

-- `key` is no key of the map.
abbrev pub IsFresh {ℓ} : {V : Type ℓ} → List ℕ → List (List ℕ × V) → Type 0
IsFresh key m = All (λ k. same k key ≡ false) (map (λ e. e.0) m)

-- No two entries have the same key, and none has a key of `before`.
abbrev pub IsMap {ℓ} : {V : Type ℓ} → List (List ℕ × V) → List (List ℕ × V) → Type 0
IsMap before [] = Unit {0}
IsMap before ((k, v) ∷ m) = IsFresh k before × IsMap (before ++ (k, v) ∷ []) m

pub map_put-IsFresh {ℓ} :
    {V : Type ℓ} (key : List ℕ) (v : V) (m : List (List ℕ × V))
    → IsFresh key m
    → map_put key v m ≡ m ++ (key, v) ∷ []
unfolding map_put
map_put-IsFresh key v [] h = refl
map_put-IsFresh key v ((k, w) ∷ m) h = rw h.0 (ap (◌∷◌ (k, w)) (map_put-IsFresh key v m h.1))

abbrev pub Partitions : Type 0
Partitions = List (List ℕ × List ℕ)

-- The loop over the entries, with the map made so far.
unfoldable pub read_entries : ℕ → Partitions → Reader Partitions
read_entries zero m = pure m
read_entries (suc n) m = do
  key ← read_string
  values ← read_array_with read_int32
  read_entries n (map_put key values m)

unfoldable pub read_map_string_int32 : Reader Partitions
read_map_string_int32 = do len ← read_int32; read_entries (pos_part (signed32 len)) []

abbrev pub IsEntry : List ℕ × List ℕ → Type 0
IsEntry e = IsString e.0 × (length e.1 < 2 ^ 31) × All (λ i. i < 2 ^ 32) e.1

-- How syncgroup.go writes an entry.
unfoldable pub write_entry : List ℕ × List ℕ → List ℕ
write_entry e = write_string e.0 ++ write_int32_array e.1

pub int32_array-Reads :
    (a : List ℕ)
    → length a < 2 ^ 31
    → All (λ i. i < 2 ^ 32) a
    → Reads (read_array_with read_int32) (write_int32_array a) a
unfolding write_int32_array
int32_array-Reads a = array-Reads (λ i. i < 2 ^ 32) read_int32 write_int32 int32-Reads a

read_entries-Reads :
    (ts before : Partitions)
    → IsMap before ts
    → All IsEntry ts
    → Reads (read_entries (length ts) before) (write_items write_entry ts) (before ++ ts)
unfolding read_entries write_items write_entry
read_entries-Reads [] before d h = rw append-nil (pure-Reads before)
read_entries-Reads ((k, v) ∷ ts) before d h = rw append_assoc (
    >>=-Reads _ (string-Reads k h.0.0) (
      >>=-Reads _ (int32_array-Reads v h.0.1 h.0.2) (
        rw (map_put-IsFresh k v before d.0)
          (rw append_assoc at (read_entries-Reads ts (before ++ (k, v) ∷ []) d.1 h.1)))))

-- A map from strings to int32 arrays, written as syncgroup.go writes one, with distinct keys and
-- all lengths within their encodings, is read back entry by entry, and no other bytes are taken; a
-- response that ends before them gives errShortRead.
pub map-Reads :
    (ts : Partitions)
    → length ts < 2 ^ 31
    → IsMap [] ts
    → All IsEntry ts
    → Reads read_map_string_int32 (write_array_len (length ts) ++ write_items write_entry ts) ts
unfolding read_map_string_int32 write_array_len
map-Reads ts l d h =
    >>=-Reads _ (int32-Reads _ (omega arith))
      (rw (signed32_small (length ts) l) (read_entries-Reads ts [] d h))

read_entries-Framed : (n : ℕ) (m : Partitions) → Framed (read_entries n m)
unfolding read_entries
read_entries-Framed zero m = pure-Framed m
read_entries-Framed (suc n) m =
    >>=-Framed _ string-Framed
      λ k. >>=-Framed _ (array-Framed int32-Framed) λ v. read_entries-Framed n (map_put k v m)

pub map-Framed : Framed read_map_string_int32
unfolding read_map_string_int32
map-Framed = >>=-Framed _ int32-Framed λ v. read_entries-Framed (pos_part (signed32 v)) []
