-- ===== src/Protocol/Exchange/Safety.antt =====
-- A response goes to the operation that asked for it, and the next one starts where it ends.
use kafka_go.Prelude.{
  ℕ, ◌+◌, ◌%◌, ◌^◌, ◌≤◌, ◌<◌, ◌≡◌, ◌≢◌, sym, ◌∙◌, ap, List, ◌++◌, append_assoc, arith, length,
  length-append, take, drop, take_front, drop_front, ◌==◌, if◌then◌else◌, pos, le→ltb,
}
use kafka_go.Wire.Bytes.{make_int, signed32, make_int-big_endian}
use kafka_go.Wire.Reader.{Outcome, done, fail, Reader, at, final, Cursor}
use kafka_go.Wire.Write.{write_int32}
use kafka_go.Wire.Sizes.{lengths, length-bytes, length-write_int32}
use kafka_go.Wire.Reads.{Reads}
use kafka_go.Wire.Frame.{Framed, Advances}
use kafka_go.Protocol.Frame.{◌⊖◌, frame}
use kafka_go.Protocol.Exchange.{
  check_zero, expect_zero_size, peek_turn, ours, of_another, take_turn, exchange, answered, not_yet,
}

-- Reading an int32 off its place.
int32_at : (i : ℕ) (bs : List ℕ) → i < 2 ^ 32 → make_int (take 4 (write_int32 i ++ bs)) ≡ i
unfolding write_int32
int32_at i bs h =
    ap make_int (take_front 4 (write_int32 i) bs (length-write_int32 i)) ∙ make_int-big_endian 4 i h

behind_int32 : (i : ℕ) (bs : List ℕ) → drop 4 (write_int32 i ++ bs) ≡ bs
behind_int32 i bs = drop_front 4 (write_int32 i) bs (length-write_int32 i)

behind_both : (i j : ℕ) (bs : List ℕ) → drop 8 (write_int32 i ++ (write_int32 j ++ bs)) ≡ bs
behind_both i j bs =
    ap (drop 8) (sym (append_assoc (write_int32 i) (write_int32 j) bs))
    ∙ drop_front 8 (write_int32 i ++ write_int32 j) bs (omega (lengths, length-bytes))

peek_turn_fields :
    (n id asked : ℕ) (bs : List ℕ)
    → n < 2 ^ 32
    → id < 2 ^ 32
    → peek_turn asked (write_int32 n ++ (write_int32 id ++ bs))
      ≡ (if id == asked then ours (signed32 (n ⊖ 4)) bs else of_another)
unfolding peek_turn
peek_turn_fields n id asked bs h k =
    let enough : 8 ≤ length (write_int32 n ++ (write_int32 id ++ bs)) =
      omega (lengths, length-bytes) in
    rw (
      le→ltb _ _ enough,
      int32_at n (write_int32 id ++ bs) h,
      behind_both n id bs,
      behind_int32 n (write_int32 id ++ bs),
      int32_at id bs k,
    )

-- The header of a response frame.
pub peek_turn-frame :
    (id asked : ℕ) (payload rest : List ℕ)
    → id < 2 ^ 32
    → length payload + 4 < 2 ^ 31
    → peek_turn asked (frame (write_int32 id ++ payload) ++ rest)
      ≡ (if id == asked then ours (pos (length payload)) (payload ++ rest) else of_another)
unfolding ◌⊖◌
peek_turn-frame id asked payload rest h l =
    let n = length (write_int32 id ++ payload) % 2 ^ 32 in
    let size : signed32 (n ⊖ 4) ≡ pos (length payload) =
      ground (arith, length-append (write_int32 id) payload, length-write_int32 id) in
    ap (peek_turn asked) (
      append_assoc (write_int32 n) (write_int32 id ++ payload) rest
      ∙ ap (◌++◌ (write_int32 n)) (append_assoc (write_int32 id) payload rest))
    ∙ peek_turn_fields n id asked (payload ++ rest) (omega arith) h
    ∙ ap (λ s. if id == asked then ours s (payload ++ rest) else of_another) size

-- For a response of less than 2 ^ 31 bytes that carries the id of the operation and that its reader
-- reads as a value, the operation gets the value, and the stream then stands at the next response.
pub exchange-frame :
    {A : Type 0} (m : Reader A) (id : ℕ) (payload rest : List ℕ) (a : A)
    → id < 2 ^ 32
    → length payload + 4 < 2 ^ 31
    → Reads m payload a
    → exchange id (expect_zero_size m) (frame (write_int32 id ++ payload) ++ rest)
      ≡ answered (done a (at rest 0))
unfolding exchange expect_zero_size take_turn
exchange-frame m id payload rest a h l r =
    let read : m (at (payload ++ rest) (length payload)) ≡ done a (at rest 0) =
      ap (λ (n : ℕ). m (at (payload ++ rest) n)) (omega arith) ∙ r.whole rest 0 in
    ap (take_turn (expect_zero_size m)) (peek_turn-frame id id payload rest h l)
    ∙ ground (arith, read)

-- An operation does not take a response that carries another id.
pub exchange_other :
    {A : Type 0} (m : Reader A) (id asked : ℕ) (payload rest : List ℕ)
    → id < 2 ^ 32
    → length payload + 4 < 2 ^ 31
    → id ≢ asked
    → exchange asked m (frame (write_int32 id ++ payload) ++ rest) ≡ not_yet
unfolding exchange take_turn
exchange_other m id asked payload rest h l ne =
    ap (take_turn m) (peek_turn-frame id asked payload rest h l) ∙ ground arith

check_zero-end :
    {A : Type 0} (size : ℕ) (input : List ℕ) (a : A) (c : Cursor) (o : Outcome A)
    → Advances (at input size) (final o)
    → answered (check_zero o) ≡ answered (done a c)
    → c ≡ at (drop size input) 0
unfolding check_zero
check_zero-end size input a c (done b d) p e = ground arith
check_zero-end size input a c (fail x d) p e = cc

-- Whatever the bytes of a response are, an operation that succeeds, with a reader that stays inside
-- its response, has left the stream at the end of the response as announced by its size.
pub take_turn-end :
    {A : Type 0} (m : Reader A) (size : ℕ) (input : List ℕ) (a : A) (c : Cursor)
    → Framed m
    → take_turn (expect_zero_size m) (ours (pos size) input) ≡ answered (done a c)
    → c ≡ at (drop size input) 0
unfolding take_turn expect_zero_size
take_turn-end m size input a c f e =
    check_zero-end size input a c (m (at input size)) (f.step (at input size)) e
