-- ===== src/Batch/Settled.antt =====
-- A batch that has been read to its end, or cut short, says so by io.EOF or a timeout.
use kafka_go.Prelude.{
  ℕ, ◌≡◌, ◌≢◌, refl, ap, [], ◌∷◌, Option, none, some, length, arith, ℤ, pos, ltb_ℤ, leb, ltb,
  Bool-cases, inl, inr, true, false,
}
use kafka_go.Wire.Reader.{Error, short_read, eof, Cursor, Outcome, done, fail, Reader, settle}
use kafka_go.Wire.Read.{discard_n, buf_discard, or_short}
use kafka_go.Time.{Time}
use kafka_go.Message.Compression.{Codecs}
use kafka_go.Message.Stack.{Level, Levels, Read}
use kafka_go.Message.Stack
use kafka_go.Message.RecordSet.{SetReader}
use kafka_go.Message.RecordSet
use kafka_go.Message.Set.{
  MessageSetReader, empty, v1, v2, Taken, got, failed, remaining, discard_set,
}
use kafka_go.Message.Set
use kafka_go.Batch.{
  Batch, Answer, message, error, nothing, check_timeout_err, after_short_read, after_read,
  read_from, read_next, is_short,
}

-- Discarding what remains leaves nothing, or fails at the end of the stream.
abbrev pub Emptied : Outcome (Unit {0}) → Type 0
Emptied (done _ c) = c.remain ≡ 0
Emptied (fail e c) = e ≡ eof

not_below : (n : ℕ) → ltb n n ≡ false
not_below n = ground arith

discard_n-Emptied : (c : Cursor) → Emptied (discard_n (pos c.remain) c)
unfolding discard_n buf_discard or_short settle
discard_n-Emptied c = elim (Bool-cases (leb c.remain (length c.input))) [
  | inl p ↦ rw (not_below c.remain, p) (omega arith)
  | inr p ↦ rw (not_below c.remain, p) refl
]

-- The same of a reader: what `discard` gives.
abbrev pub EmptiedSet : {S : Type 0} → (S → ℕ) → Option Error × S → Type 0
EmptiedSet left (none, s) = left s ≡ 0
EmptiedSet left (some e, s) = e ≡ eof

outermost :
    (o : Outcome (Unit {0})) (base : ℕ)
    → Emptied o
    → EmptiedSet Stack.remaining (elim o as (λ _. Option Error × Levels) [
      | done _ d ↦ (none, record { cursor = d; base = base } ∷ [])
      | fail e d ↦ (some e, record { cursor = d; base = base } ∷ [])
    ])
unfolding Stack.remaining
outermost (done x d) base h = omega (arith, h)
outermost (fail e d) base h = h

stack-EmptiedSet : (ls : Levels) → EmptiedSet Stack.remaining (Stack.discard_set ls)
unfolding Stack.remaining Stack.discard_set
stack-EmptiedSet [] = refl
stack-EmptiedSet (l ∷ []) =
    outermost (discard_n (pos l.cursor.remain) l.cursor) l.base (discard_n-Emptied l.cursor)
stack-EmptiedSet (l ∷ m ∷ ls) = stack-EmptiedSet (m ∷ ls)

batch_cursor :
    (o : Outcome (Unit {0})) (r : SetReader)
    → Emptied o
    → EmptiedSet RecordSet.remaining (elim o as (λ _. Option Error × SetReader) [
      | done _ c ↦ (none, record r { cursor = c })
      | fail e c ↦ (some e, record r { cursor = c })
    ])
unfolding RecordSet.remaining
batch_cursor (done x c) r h = h
batch_cursor (fail e c) r h = h

batch-EmptiedSet : (r : SetReader) → EmptiedSet RecordSet.remaining (RecordSet.discard_set r)
unfolding RecordSet.discard_set
batch-EmptiedSet r =
    batch_cursor (discard_n (pos r.cursor.remain) r.cursor) r (discard_n-Emptied r.cursor)

of_v1 :
    (p : Option Error × Levels) → EmptiedSet Stack.remaining p → EmptiedSet remaining (p.0, v1 p.1)
unfolding remaining
of_v1 (none, s) h = h
of_v1 (some e, s) h = h

of_v2 :
    (p : Option Error × SetReader)
    → EmptiedSet RecordSet.remaining p
    → EmptiedSet remaining (p.0, v2 p.1)
unfolding remaining
of_v2 (none, s) h = h
of_v2 (some e, s) h = h

-- Discarding a set of either format leaves nothing of it, or fails with io.EOF.
pub discard_set-EmptiedSet : (s : MessageSetReader) → EmptiedSet remaining (discard_set s)
unfolding discard_set
discard_set-EmptiedSet empty = unfold remaining in refl
discard_set-EmptiedSet (v1 ls) = of_v1 (Stack.discard_set ls) (stack-EmptiedSet ls)
discard_set-EmptiedSet (v2 r) = of_v2 (RecordSet.discard_set r) (batch-EmptiedSet r)

-- An answer that a caller can act on: a message, or an error other than errShortRead, which the
-- batch keeps.
abbrev pub IsSettled : {A : Type 0} → Answer A × Batch → Type 0
IsSettled (message m, b) = b.err ≡ none
IsSettled (error e, b) = (e ≢ short_read) × (b.err ≡ some e)
IsSettled (nothing, b) = ⊥

pub timeout-settled : (d : Time) (now : ℤ) → check_timeout_err d now ≢ short_read
unfolding check_timeout_err
timeout-settled none now = λ e. cc e
timeout-settled (some d) now = elim (Bool-cases (ltb_ℤ d now)) [
  | inl e ↦ rw e (λ q. cc q)
  | inr e ↦ rw e (λ q. cc q)
]

-- An error is not errShortRead, and a batch without an error has a reader.
pub record Ready (b : Batch) : Type 0 where
  pub known : b.err ≢ some short_read
  pub reader : b.err ≡ none → b.msgs ≢ none

-- What a read has to keep.
pub record Kept {A : Type 0} (r : Answer A × Batch) : Type 0 where
  pub settled : IsSettled r
  pub ready : Ready r.1

failed-Kept :
    (A : Type 0) (b : Batch) (e : Error)
    → e ≢ short_read
    → b.err ≡ some e
    → Kept {A = A} (error e, b)
failed-Kept A b e h k = record {
  settled = (h, k);
  ready = record { known = λ q. h (cc (k, q)); reader = λ q. cc (k, q) };
}

short-Kept :
    (A : Type 0) (now : ℤ) (b : Batch) (p : Option Error × MessageSetReader)
    → EmptiedSet remaining p
    → Kept (after_short_read {A = A} now b p)
unfolding after_short_read
short-Kept A now b (none, s) h = rw h (failed-Kept A _ _ (timeout-settled b.deadline now) refl)
short-Kept A now b (some e, s) h = failed-Kept A _ e (λ q. cc (h, q)) refl

is_short_lem : is_short short_read ≡ true
unfolding is_short
is_short_lem = refl

pub long_read : (e : Error) → is_short e ≡ false → e ≢ short_read
long_read e h = λ q. cc (h, ap is_short q, is_short_lem)

after_read-Kept :
    {K V : Type 0} (now : ℤ) (b : Batch) (t : Taken (Read K V))
    → Ready b
    → b.err ≡ none
    → Kept (after_read now b t)
unfolding after_read
after_read-Kept now b (got m s) r n = record {
  settled = n;
  ready = record { known = r.known; reader = λ _ q. cc q };
}
after_read-Kept {K} {V} now b (failed e s) r n = elim (Bool-cases (is_short e)) [
  | inl q ↦ rw q (short-Kept (Read K V) now b (discard_set s) (discard_set-EmptiedSet s))
  | inr q ↦ rw q (failed-Kept (Read K V) _ e (long_read e q) refl)
]

module _ {K V : Type 0} (codecs : Codecs) (key : ℤ → Reader K) (value : ℤ → Reader V) (fuel : ℕ)
    (now : ℤ) (b : Batch) (r : Ready b) where
  read_from-Kept :
      (e : Option Error) (s : Option MessageSetReader)
      → b.err ≡ e
      → b.msgs ≡ s
      → Kept (read_from codecs key value fuel now b e s)
  unfolding read_from
  read_from-Kept (some e) s p q = failed-Kept (Read K V) b e (λ h. r.known (cc (p, h))) p
  read_from-Kept none none p q = absurd (r.reader p q)
  read_from-Kept none (some s) p q =
      after_read-Kept now b (Set.read_message codecs key value fuel b.offset s) r p

  -- A batch that keeps no errShortRead, and has a reader or an error, stays so when a message is
  -- read from it, in either format; the call gives a message, and the batch has no error, or an
  -- error other than errShortRead, which the batch keeps. It never gives neither.
  pub read_next-Kept : Kept (read_next codecs key value fuel now b)
  unfolding read_next
  read_next-Kept = read_from-Kept b.err b.msgs refl refl
