-- ===== src/Wire/Read.antt =====
-- read.go and discard.go: the primitive readers.
use kafka_go.Prelude.{
  ℕ, zero, suc, ◌-◌, Bool, true, false, not, List, [], ◌∷◌, Option, none, some, length, take, drop,
  ltb, leb, ◌==◌, if◌then◌else◌, ℤ, pos, negsuc, pos_part, ltb_ℤ,
}
use kafka_go.Wire.Bytes.{make_int, signed16, signed32, Slice, content}
use kafka_go.Wire.Reader.{
  Error, short_read, eof, unexpected_eof, negative_count, done, fail, Reader, pure, ◌>>=◌, ◌>>◌,
  settle, at,
}

-- bufio's `Discard`: the number of bytes skipped, what is left, and the error.
unfoldable pub buf_discard : ℕ → List ℕ → ℕ × List ℕ × Option Error
buf_discard n input =
    if leb n (length input) then (n, drop n input, none) else (length input, [], some eof)

-- io.ReadFull.
unfoldable pub read_full : ℕ → List ℕ → List ℕ × List ℕ × Option Error
read_full n input =
    if leb n (length input)
    then (take n input, drop n input, none)
    else (input, [], some (if length input == 0 then eof else unexpected_eof))

-- `if err == nil { err = errShortRead }`, where the request was cut to the bytes that remain.
unfoldable pub or_short : Bool → Option Error → Option Error
or_short true none = some short_read
or_short true (some e) = some e
or_short false e = e

unfoldable pub discard_n : ℤ → Reader (Unit {0})
unfolding buf_discard or_short settle
discard_n (negsuc n) c = fail negative_count c
discard_n (pos n) c =
    let cut = ltb c.remain n in
    let (m, rest, e) = buf_discard (if cut then c.remain else n) c.input in
    settle (or_short cut e) (at rest (c.remain - m))

unfoldable pub peek_read {ℓ} : {A : Type ℓ} → ℕ → (List ℕ → A) → Reader A
peek_read n f c =
    if ltb c.remain n
    then fail short_read c
    else if ltb (length c.input) n
    then fail eof c
    else (discard_n (pos n) >> pure (f (take n c.input))) c

unfoldable pub read_int8 : Reader ℕ
read_int8 = peek_read 1 make_int

unfoldable pub read_int16 : Reader ℕ
read_int16 = peek_read 2 make_int

unfoldable pub read_int32 : Reader ℕ
read_int32 = peek_read 4 make_int

unfoldable pub read_int64 : Reader ℕ
read_int64 = peek_read 8 make_int

unfoldable pub read_bool : Reader Bool
read_bool = peek_read 1 (λ b. not (make_int b == 0))

-- `if n > sz { return sz, errShortRead }`
unfoldable pub check_size : ℤ → Reader (Unit {0})
check_size n c = if ltb_ℤ (pos c.remain) n then fail short_read c else done tt c

unfoldable pub read_string_with {ℓ} : {A : Type ℓ} → (ℤ → Reader A) → Reader A
read_string_with cb = do len ← read_int16; check_size (signed16 len); cb (signed16 len)

unfoldable pub read_array_len : Reader ℤ
read_array_len = do len ← read_int32; pure (signed32 len)

unfoldable pub read_bytes_with {ℓ} : {A : Type ℓ} → (ℤ → Reader A) → Reader A
read_bytes_with cb = do n ← read_array_len; check_size n; cb n

-- The body of `if n > 0`: the read is cut to the bytes that remain.
unfoldable pub read_new_bytes : ℤ → Reader Slice
unfolding read_full or_short settle ◌>>=◌ pure
read_new_bytes (negsuc n) c = done none c
read_new_bytes (pos n) c =
    let cut = ltb c.remain n in
    let (b, rest, e) = read_full (if cut then c.remain else n) c.input in
    let c' = at rest (c.remain - length b) in
    if n == 0 then done none c else ((λ _. settle (or_short cut e) c') >> pure (some b)) c

unfoldable pub read_new_string : ℤ → Reader (List ℕ)
read_new_string n = do b ← read_new_bytes n; pure (content b)

unfoldable pub read_string : Reader (List ℕ)
read_string = read_string_with read_new_string

unfoldable pub read_bytes : Reader Slice
read_bytes = read_bytes_with read_new_bytes

-- `for n := int(len); n > 0; n--`, with the items that the callback appends.
unfoldable pub read_times {ℓ} : {A : Type ℓ} → ℕ → Reader A → Reader (List A)
read_times zero m = pure []
read_times (suc n) m = do x ← m; xs ← read_times n m; pure (x ∷ xs)

unfoldable pub read_array_with {ℓ} : {A : Type ℓ} → Reader A → Reader (List A)
read_array_with m = do len ← read_int32; read_times (pos_part (signed32 len)) m

unfoldable pub read_string_array : Reader (List (List ℕ))
read_string_array = read_array_with read_string

-- discard.go
unfoldable pub discard_string : Reader (Unit {0})
discard_string = read_string_with (λ n. if ltb_ℤ n (pos 0) then pure tt else discard_n n)

unfoldable pub discard_bytes : Reader (Unit {0})
discard_bytes = read_bytes_with (λ n. if ltb_ℤ n (pos 0) then pure tt else discard_n n)
