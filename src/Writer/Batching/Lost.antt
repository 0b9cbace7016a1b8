-- ===== src/Writer/Batching/Lost.antt =====
-- writer.go: a message without a value that does not fit into the batch any more is lost.
use kafka_go.Prelude.{
  ◌+◌, ◌<◌, lt→ltb, ◌≡◌, refl, ap, sym, ◌∙◌, Bool, true, false, List, [], ◌∷◌, ◌++◌, none, some,
  length, ltb, ◌==◌, if◌then◌else◌, Bool-cases, inl, inr,
}
use kafka_go.Writer.Batching.{
  WriterMessage, Limits, Batcher, BatchEvent, arrived, closed, batch_timeout, has_value,
  message_size, add_to_batch, refill, is_full, take_event, flush, round, then_round, run,
}

-- The loop without the message that it has put off.
unfoldable pub without_last : Batcher → Batcher
without_last s = record s { last = none }

refill-valueless :
    (s : Batcher) (wm : WriterMessage) → has_value wm ≡ false → refill (some wm) s ≡ s
unfolding refill
refill-valueless s wm v = rw v refl

module _ (w : Limits) where
  -- The state after a round and the batches that it writes, without the message that is put off.
  forgets :
      (t : Batcher) (must : Bool)
      → flush w (without_last t, must) ≡ (without_last (flush w (t, must)).0, (flush w (t, must)).1)
  unfolding flush without_last
  forgets t false = refl
  forgets t true = elim (Bool-cases (length t.batch == 0)) [ inl e ↦ rw e refl | inr e ↦ rw e refl ]

  flush-last : (t : Batcher) (must : Bool) → (flush w (t, must)).0.last ≡ t.last
  unfolding flush
  flush-last t false = refl
  flush-last t true = elim (Bool-cases (length t.batch == 0)) [
    | inl e ↦ rw e refl
    | inr e ↦ rw e refl
  ]

  overflows :
      (m : WriterMessage) (s : Batcher)
      → ltb w.max_message_bytes (message_size m + s.bytes) ≡ true
      → take_event w (arrived m) s ≡ (record s { last = some m }, true)
  unfolding take_event
  overflows m s e = rw e refl

  unless_done :
      (b : Bool) (s t : Batcher) (x y : Batcher × List (List WriterMessage))
      → x.1 ≡ y.1
      → (if b then (s, []) else x).1 ≡ (if b then (t, []) else y).1
  unless_done true s t x y h = refl
  unless_done false s t x y h = h

  module _ (s : Batcher) (wm : WriterMessage) (v : has_value wm ≡ false)
      (h : s.last ≡ some wm) where
    refilled : refill s.last s ≡ s
    refilled = ap (λ o. refill o s) h ∙ refill-valueless s wm v

    -- A round either puts another message off, or it keeps the one put off and is not changed by it.
    data Rounds (e : BatchEvent) : Type 0 where
      equal : round w (without_last s) e ≡ round w s e → Rounds e
      alike :
          round w (without_last s) e ≡ (without_last (round w s e).0, (round w s e).1)
          → (round w s e).0.last ≡ some wm
          → Rounds e

    alike_of :
        (e : BatchEvent) (t : Batcher) (must : Bool)
        → take_event w e (without_last s) ≡ (without_last t, must)
        → take_event w e s ≡ (t, must)
        → t.last ≡ s.last
        → Rounds e
    unfolding round refill without_last
    alike_of e t must p q l =
        let r : round w s e ≡ flush w (t, must) =
          ap (λ b. flush w (take_event w e b)) refilled ∙ ap (flush w) q in
        alike
          (ap (flush w) p
            ∙ forgets t must
            ∙ ap (λ (b : Batcher × List (List WriterMessage)). (without_last b.0, b.1)) (sym r))
          (ap (λ (b : Batcher × List (List WriterMessage)). b.0.last) r ∙ flush-last t must ∙ l ∙ h)

    rounds : (e : BatchEvent) → Rounds e
    unfolding take_event without_last add_to_batch is_full round refill
    rounds closed = alike_of closed (record s { done = true; running = true }) true refl refl refl
    rounds batch_timeout = alike_of batch_timeout (record s { running = false }) true refl refl refl
    rounds (arrived m) = elim (Bool-cases (ltb w.max_message_bytes (message_size m + s.bytes))) [
      | inl e ↦ equal (
          ap (flush w) (
            overflows m (without_last s) e
            ∙ sym (overflows m s e)
            ∙ ap (λ b. take_event w (arrived m) b) (sym refilled)))
      | inr e ↦
          alike_of (arrived m) (add_to_batch m s) (is_full w (add_to_batch m s)) (rw e refl)
            (rw e refl) refl
    ]

  continued : Batcher × List (List WriterMessage) → List BatchEvent → List (List WriterMessage)
  continued r es = (then_round r (run w r.0 es)).1

  same_batches :
      (es : List BatchEvent) (s : Batcher) (wm : WriterMessage)
      → has_value wm ≡ false
      → s.last ≡ some wm
      → (run w s es).1 ≡ (run w (without_last s) es).1
  unfolding run without_last then_round continued
  same_batches [] s wm v h = refl
  same_batches (e ∷ es) s wm v h =
      unless_done s.done s (without_last s) (then_round (round w s e) (run w (round w s e).0 es))
        (then_round (round w (without_last s) e) (run w (round w (without_last s) e).0 es))
        (elim (rounds s wm v h e) [
          | equal q ↦ ap (λ r. continued r es) (sym q)
          | alike q l ↦
              ap (λ bs. (round w s e).1 ++ bs) (same_batches es (round w s e).0 wm v l)
              ∙ ap (λ r. continued r es) (sym q)
        ])

  arrived_round :
      (s : Batcher) (m : WriterMessage)
      → s.last ≡ none
      → w.max_message_bytes < message_size m + s.bytes
      → round w s (arrived m) ≡ flush w (record s { last = some m }, true)
  unfolding round refill
  arrived_round s m h o =
      ap (λ l. flush w (take_event w (arrived m) (refill l s))) h
      ∙ ap (flush w) (overflows m s (lt→ltb w.max_message_bytes (message_size m + s.bytes) o))

  timed_out_round :
      (s : Batcher) (m : WriterMessage)
      → s.last ≡ none
      → round w s batch_timeout ≡ (
        without_last (flush w (record s { last = some m }, true)).0,
        (flush w (record s { last = some m }, true)).1,
      )
  unfolding round refill flush take_event without_last
  timed_out_round s m h =
      ap (λ l. flush w (take_event w batch_timeout (refill l s))) h
      ∙ elim (Bool-cases (length s.batch == 0)) [ inl e ↦ rw (e, h) refl | inr e ↦ rw (e, h) refl ]

  -- A message without a value that would take the batch over its limit, while none is put off, is
  -- lost: the batches written are those that are written when the timer ends the batch in place of
  -- its arrival.
  pub run-lost :
      (s : Batcher) (m : WriterMessage) (es : List BatchEvent)
      → s.last ≡ none
      → has_value m ≡ false
      → w.max_message_bytes < message_size m + s.bytes
      → (run w s (arrived m ∷ es)).1 ≡ (run w s (batch_timeout ∷ es)).1
  unfolding run then_round continued
  run-lost s m es h v o =
      unless_done s.done s s
        (then_round (round w s (arrived m)) (run w (round w s (arrived m)).0 es))
        (then_round (round w s batch_timeout) (run w (round w s batch_timeout).0 es))
        (ap (λ r. continued r es) (arrived_round s m h o)
          ∙ ap (λ bs. (flush w (record s { last = some m }, true)).1 ++ bs)
              (same_batches es (flush w (record s { last = some m }, true)).0 m v
                (flush-last (record s { last = some m }) true))
          ∙ ap (λ r. continued r es) (sym (timed_out_round s m h)))
