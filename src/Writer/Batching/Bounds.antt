-- ===== src/Writer/Batching/Bounds.antt =====
-- writer.go: the batches of the writer of a partition stay within its limits.
use kafka_go.Prelude.{
  ℕ, subst, ◌+◌, ◌≤◌, ◌<◌, ◌≡◌, refl, Bool, true, false, List, [], ◌∷◌, ◌++◌, Option, none, some,
  length, length-append, ltb, ◌==◌, if◌then◌else◌, All, Bool-cases, inl, inr, arith,
}
use kafka_go.Writer.Batching.{
  WriterMessage, Limits, Batcher, BatchEvent, arrived, closed, batch_timeout, has_value,
  message_size, add_to_batch, refill, is_full, take_event, flush, round, then_round, run,
}

unfoldable pub total : List WriterMessage → ℕ
total [] = 0
total (wm ∷ ms) = message_size wm + total ms

total-append :
    (ms : List WriterMessage) (wm : WriterMessage)
    → total (ms ++ wm ∷ []) ≡ total ms + message_size wm
unfolding total
total-append [] wm = omega arith
total-append (m ∷ ms) wm = omega (arith, total-append ms wm)

no_total : (ms : List WriterMessage) → length ms ≡ 0 → total ms ≡ 0
unfolding total
no_total [] h = refl
no_total (m ∷ ms) h = absurd (omega (arith, h))

some_total : (ms : List WriterMessage) → 0 < total ms → 0 < length ms
unfolding total
some_total [] h = absurd (omega (arith, h))
some_total (m ∷ ms) h = omega arith

module _ (w : Limits) where
  pub record WithinLimits (batch : List WriterMessage) : Type 0 where
    pub messages : length batch ≤ w.batch_size
    pub size : total batch ≤ w.max_message_bytes

  -- A message that is put off and has a value fits into a batch, which holds more messages than one.
  abbrev pub Fitting : Option WriterMessage → Type 0
  Fitting none = Unit {0}
  Fitting (some wm) =
      has_value wm ≡ true → (message_size wm ≤ w.max_message_bytes) × (1 < w.batch_size)

  -- The batch is empty while there is one.
  abbrev pub Alone : List WriterMessage → Option WriterMessage → Type 0
  Alone batch none = Unit {0}
  Alone batch (some wm) = has_value wm ≡ true → length batch ≡ 0

  pub record InBounds (s : Batcher) : Type 0 where
    pub messages : length s.batch < w.batch_size
    pub bytes : s.bytes ≡ total s.batch
    pub size : s.bytes ≤ w.max_message_bytes
    pub fitting : Fitting s.last
    pub alone : Alone s.batch s.last

  abbrev pub Fits : BatchEvent → Type 0
  Fits (arrived wm) = message_size wm ≤ w.max_message_bytes
  Fits closed = Unit {0}
  Fits batch_timeout = Unit {0}

  abbrev Calm : Option WriterMessage → Type 0
  Calm none = Unit {0}
  Calm (some wm) = has_value wm ≡ false

  -- The state after the select, with mustFlush.
  record Selected (s : Batcher) (must : Bool) : Type 0 where
    messages : length s.batch ≤ w.batch_size
    bytes : s.bytes ≡ total s.batch
    size : s.bytes ≤ w.max_message_bytes
    room : must ≡ false → length s.batch < w.batch_size
    fitting : Fitting s.last
    alone : must ≡ false → Alone s.batch s.last

  Calm-Fitting : (o : Option WriterMessage) → Calm o → Fitting o
  Calm-Fitting none c = tt
  Calm-Fitting (some wm) c = λ h. absurd (cc (c, h))

  Calm-Alone : (batch : List WriterMessage) (o : Option WriterMessage) → Calm o → Alone batch o
  Calm-Alone batch none c = tt
  Calm-Alone batch (some wm) c = λ h. absurd (cc (c, h))

  Alone-empty :
      (batch : List WriterMessage) (o : Option WriterMessage) → length batch ≡ 0 → Alone batch o
  Alone-empty batch none e = tt
  Alone-empty batch (some wm) e = λ h. e

  refill-InBounds :
      (s : Batcher) (o : Option WriterMessage)
      → s.last ≡ o
      → InBounds s
      → InBounds (refill o s) × Calm (refill o s).last
  unfolding refill add_to_batch
  refill-InBounds s none h r = (r, rw h tt)
  refill-InBounds s (some wm) h r = elim (Bool-cases (has_value wm)) [
    | inl e ↦
        let f = subst Fitting h r.fitting e in
        let a = subst (Alone s.batch) h r.alone e in
        rw e (
          record {
            messages = omega (arith, length-append s.batch (wm ∷ []), a, f.1);
            bytes = omega (arith, total-append s.batch wm, r.bytes);
            size = omega (arith, r.bytes, no_total s.batch a, f.0);
            fitting = tt;
            alone = tt;
          },
          tt,
        )
    | inr e ↦ rw e (r, rw h e)
  ]

  take_event-Selected :
      (s : Batcher) (e : BatchEvent)
      → InBounds s
      → Calm s.last
      → Fits e
      → Selected (take_event w e s).0 (take_event w e s).1
  unfolding take_event is_full add_to_batch
  take_event-Selected s closed r c f = record {
    messages = omega (arith, r.messages);
    bytes = r.bytes;
    size = r.size;
    room = λ h. r.messages;
    fitting = r.fitting;
    alone = λ h. r.alone;
  }
  take_event-Selected s batch_timeout r c f = record {
    messages = omega (arith, r.messages);
    bytes = r.bytes;
    size = r.size;
    room = λ h. r.messages;
    fitting = r.fitting;
    alone = λ h. r.alone;
  }
  take_event-Selected s (arrived wm) r c f =
      elim (Bool-cases (ltb w.max_message_bytes (message_size wm + s.bytes))) [
        | inl e ↦ rw e (record {
          messages = omega (arith, r.messages);
          bytes = r.bytes;
          size = r.size;
          room = λ h. r.messages;
          fitting = λ h. (f, grind (arith, e, r.messages, some_total s.batch, r.bytes, f));
          alone = λ h. absurd (cc h);
        })
        | inr e ↦ rw e (record {
          messages = omega (arith, length-append s.batch (wm ∷ []), r.messages);
          bytes = omega (arith, total-append s.batch wm, r.bytes);
          size = grind (arith, e);
          room = λ h. grind (arith, h);
          fitting = Calm-Fitting s.last c;
          alone = λ h. Calm-Alone (s.batch ++ wm ∷ []) s.last c;
        })
      ]

  flush-InBounds :
      (s : Batcher) (must : Bool)
      → 0 < w.batch_size
      → Selected s must
      → InBounds (flush w (s, must)).0 × All WithinLimits (flush w (s, must)).1
  unfolding flush total
  flush-InBounds s false b r = (
    record {
      messages = r.room refl;
      bytes = r.bytes;
      size = r.size;
      fitting = r.fitting;
      alone = r.alone refl;
    },
    tt,
  )
  flush-InBounds s true b r = elim (Bool-cases (length s.batch == 0)) [
    | inl e ↦ rw e (
      record {
        messages = ground (arith, e, b);
        bytes = r.bytes;
        size = r.size;
        fitting = r.fitting;
        alone = Alone-empty s.batch s.last (ground (arith, e));
      },
      tt,
    )
    | inr e ↦ rw e (
      record {
        messages = b;
        bytes = refl;
        size = omega arith;
        fitting = r.fitting;
        alone = Alone-empty [] s.last refl;
      },
      (record { messages = r.messages; size = omega (arith, r.bytes, r.size) }, tt),
    )
  ]

  round-InBounds :
      (s : Batcher) (e : BatchEvent)
      → 0 < w.batch_size
      → InBounds s
      → Fits e
      → InBounds (round w s e).0 × All WithinLimits (round w s e).1
  unfolding round
  round-InBounds s e b r f =
      let q = refill-InBounds s s.last refl r in
      let t = take_event w e (refill s.last s) in
      flush-InBounds t.0 t.1 b (take_event-Selected (refill s.last s) e q.0 q.1 f)

  WithinLimits-append :
      (xs ys : List (List WriterMessage))
      → All WithinLimits xs
      → All WithinLimits ys
      → All WithinLimits (xs ++ ys)
  WithinLimits-append [] ys a b = b
  WithinLimits-append (x ∷ xs) ys (p, a) b = (p, WithinLimits-append xs ys a b)

  unless_done :
      (b : Bool) (s : Batcher) (r : Batcher × List (List WriterMessage))
      → All WithinLimits r.1
      → All WithinLimits (if b then (s, []) else r).1
  unless_done true s r a = tt
  unless_done false s r a = a

  -- Each batch that the writer of a partition writes has no more messages than the batch size,
  -- which is not 0, and no more bytes than the limit, when each message that arrives is within the
  -- limit, and so is the batch to begin with.
  pub run-WithinLimits :
      (s : Batcher) (es : List BatchEvent)
      → 0 < w.batch_size
      → InBounds s
      → All Fits es
      → All WithinLimits (run w s es).1
  unfolding run then_round
  run-WithinLimits s [] b r f = tt
  run-WithinLimits s (e ∷ es) b r (f, fs) =
      let q = round-InBounds s e b r f in
      unless_done s.done s (then_round (round w s e) (run w (round w s e).0 es)) (
        WithinLimits-append (round w s e).1 (run w (round w s e).0 es).1 q.1
          (run-WithinLimits (round w s e).0 es b q.0 fs))
