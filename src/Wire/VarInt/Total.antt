-- ===== src/Wire/VarInt/Total.antt =====
-- readVarInt on any input: it ends, and stays inside the response.
use Prim.Native.Nat.{bit_and}
use kafka_go.Prelude.{
  ℕ, zero, suc, ◌+◌, ◌<◌, ◌≡◌, ◌≢◌, refl, subst, true, leb, ltb→le, inl, inr, ltb, ◌==◌, arith,
  length, Bool-cases,
}
use kafka_go.Wire.Bytes.{make_int}
use kafka_go.Wire.Reader.{
  out_of_fuel, Cursor, Outcome, done, fail, Reader, pure, throw, ◌>>=◌, and_then,
}
use kafka_go.Wire.Read.{peek_read, discard_n}
use kafka_go.Wire.Frame.{Framed, >>=-Framed, last-Framed, pure-Framed, peek_read-Framed, stays}
use kafka_go.Wire.VarInt.{add_group, read_groups, read_var_int, unzigzag}

-- A byte is taken, or the read fails with an error of Go.
abbrev Takes : Cursor → Outcome ℕ → Type 0
Takes c (done b d) = d.remain < c.remain
Takes c (fail e d) = e ≢ out_of_fuel

byte-Takes : (c : Cursor) → Takes c (peek_read 1 make_int c)
unfolding peek_read discard_n ◌>>=◌ pure
byte-Takes c = elim (Bool-cases (ltb c.remain 1)) [
  | inl e ↦ rw e (λ x. cc)
  | inr e ↦ elim (Bool-cases (ltb (length c.input) 1)) [
    | inl d ↦ rw (e, d) (λ x. cc)
    | inr d ↦
        let g : leb 1 (length c.input) ≡ true = ground arith in
        let h = ltb→le c.remain 1 e in rw (e, d, g) (omega arith)
  ]
]

abbrev Ends : {A : Type 0} → Outcome A → Type 0
Ends (done a c) = Unit
Ends (fail e c) = e ≢ out_of_fuel

and_then-Ends :
    {A : Type 0} (c : Cursor) (o : Outcome ℕ) (f : ℕ → Reader A)
    → Takes c o
    → ((b : ℕ) (d : Cursor) → d.remain < c.remain → Ends (f b d))
    → Ends (and_then o f)
and_then-Ends c (done b d) f t h = h b d t
and_then-Ends c (fail e d) f t h = t

read_groups-Ends : (fuel l acc : ℕ) (c : Cursor) → c.remain < fuel → Ends (read_groups fuel l acc c)
unfolding read_groups ◌>>=◌ pure
read_groups-Ends zero l acc c h = absurd (omega arith)
read_groups-Ends (suc fuel) l acc c h =
    and_then-Ends c (peek_read 1 make_int c) _ (byte-Takes c) λ b d t.
      elim (Bool-cases (bit_and b 128 == 0)) [
        | inl e ↦ rw e tt
        | inr e ↦ rw e (read_groups-Ends fuel (l + 1) (add_group acc l b) d (omega arith))
      ]

map-Ends : (o : Outcome ℕ) (f : ℕ → ℕ) → Ends o → Ends (and_then o (λ v. pure (f v)))
unfolding pure
map-Ends (done a c) f h = tt
map-Ends (fail e c) f h = h

-- The loop of readVarInt ends on every input, within the rounds that the bytes of the response
-- allow.
pub read_var_int-Ends : (c d : Cursor) → read_var_int c ≢ fail out_of_fuel d
unfolding read_var_int ◌>>=◌
read_var_int-Ends c d e =
    subst (λ (o : Outcome ℕ). Ends o) e
      (map-Ends (read_groups (suc c.remain) 0 0 c) unzigzag
        (read_groups-Ends (suc c.remain) 0 0 c (omega arith)))
      refl

read_groups-Framed : (fuel l acc : ℕ) → Framed (read_groups fuel l acc)
unfolding read_groups throw
read_groups-Framed zero l acc = record { step = λ c. stays c }
read_groups-Framed (suc fuel) l acc = >>=-Framed _ (peek_read-Framed 1 make_int) λ b.
    elim (Bool-cases (bit_and b 128 == 0)) [
      | inl e ↦ rw e (pure-Framed (add_group acc l b))
      | inr e ↦ rw e (read_groups-Framed fuel (l + 1) (add_group acc l b))
    ]

-- On any input, and whatever its outcome, readVarInt takes the next bytes of the stream, no more
-- than are left, and as many as the number of bytes left falls by.
pub var_int-Framed : Framed read_var_int
unfolding read_var_int
var_int-Framed = record {
  step = λ c. (last-Framed unzigzag (read_groups-Framed (suc c.remain) 0 0)).step c;
}
