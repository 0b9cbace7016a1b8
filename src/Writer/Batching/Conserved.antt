-- ===== src/Writer/Batching/Conserved.antt =====
-- writer.go: the writer of a partition writes every message once, in the order of their arrival.
use kafka_go.Prelude.{
  ◌+◌, subst, ◌≡◌, refl, ap, sym, ◌∙◌, Bool, true, false, List, [], ◌∷◌, ◌++◌, append-nil,
  append_assoc, Option, none, some, length, ltb, ◌==◌, if◌then◌else◌, All, Bool-cases, inl, inr,
  arith,
}
use kafka_go.Writer.Batching.{
  WriterMessage, Limits, Batcher, BatchEvent, arrived, closed, batch_timeout, has_value,
  message_size, add_to_batch, refill, take_event, flush, round, then_round, run,
}

abbrev pub listed : Option WriterMessage → List WriterMessage
listed none = []
listed (some wm) = wm ∷ []

-- The messages that the loop keeps.
unfoldable pub held : Batcher → List WriterMessage
held s = s.batch ++ listed s.last

unfoldable pub concat : List (List WriterMessage) → List WriterMessage
concat [] = []
concat (b ∷ bs) = b ++ concat bs

unfoldable pub brought : BatchEvent → List WriterMessage
brought (arrived wm) = wm ∷ []
brought closed = []
brought batch_timeout = []

-- The messages that arrive before the channel is closed.
unfoldable pub arrivals : List BatchEvent → List WriterMessage
arrivals [] = []
arrivals (arrived wm ∷ es) = wm ∷ arrivals es
arrivals (closed ∷ es) = []
arrivals (batch_timeout ∷ es) = arrivals es

unfoldable is_closed : BatchEvent → Bool
is_closed closed = true
is_closed batch_timeout = false
is_closed (arrived wm) = false

abbrev pub HasValue : WriterMessage → Type 0
HasValue wm = has_value wm ≡ true

concat-append : (bs cs : List (List WriterMessage)) → concat (bs ++ cs) ≡ concat bs ++ concat cs
unfolding concat
concat-append [] cs = refl
concat-append (b ∷ bs) cs = rw (concat-append bs cs) (sym (append_assoc b (concat bs) (concat cs)))

no_elements : {A : Type 0} (xs : List A) → (length xs == 0) ≡ true → xs ≡ []
no_elements [] h = refl
no_elements (x ∷ xs) h = ground (arith, h)

refill-held :
    (s : Batcher) (o : Option WriterMessage)
    → s.last ≡ o
    → All HasValue (listed o)
    → ((refill o s).last ≡ none) × ((refill o s).batch ≡ held s)
unfolding refill held add_to_batch
refill-held s none h v = (h, rw h (sym (append-nil s.batch)))
refill-held s (some wm) h v = rw (v.0, h) (refl, refl)

module _ (w : Limits) where
  flushed :
      (s : Batcher) (must : Bool)
      → concat (flush w (s, must)).1 ++ held (flush w (s, must)).0 ≡ held s
  unfolding flush concat held
  flushed s false = refl
  flushed s true = elim (Bool-cases (length s.batch == 0)) [
    | inl e ↦ rw e refl
    | inr e ↦ rw e (ap (λ b. b ++ listed s.last) (append-nil s.batch))
  ]

  taken :
      (s : Batcher) (e : BatchEvent)
      → s.last ≡ none
      → held (take_event w e s).0 ≡ s.batch ++ brought e
  unfolding take_event held brought add_to_batch
  taken s closed h = rw h refl
  taken s batch_timeout h = rw h refl
  taken s (arrived wm) h = elim (Bool-cases (ltb w.max_message_bytes (message_size wm + s.bytes))) [
    | inl e ↦ rw e refl
    | inr e ↦ rw (e, h) (append-nil (s.batch ++ wm ∷ []))
  ]

  round-held :
      (s : Batcher) (e : BatchEvent)
      → All HasValue (listed s.last)
      → concat (round w s e).1 ++ held (round w s e).0 ≡ held s ++ brought e
  unfolding round
  round-held s e v =
      let r = refill-held s s.last refl v in
      let t = take_event w e (refill s.last s) in
      flushed t.0 t.1 ∙ taken (refill s.last s) e r.0 ∙ ap (λ b. b ++ brought e) r.1

  flush-last :
      (s : Batcher) (must : Bool)
      → ((flush w (s, must)).0.last ≡ s.last) × ((flush w (s, must)).0.done ≡ s.done)
  unfolding flush
  flush-last s false = (refl, refl)
  flush-last s true = elim (Bool-cases (length s.batch == 0)) [
    | inl e ↦ rw e (refl, refl)
    | inr e ↦ rw e (refl, refl)
  ]

  refill-done : (s : Batcher) (o : Option WriterMessage) → (refill o s).done ≡ s.done
  unfolding refill add_to_batch
  refill-done s none = refl
  refill-done s (some wm) = elim (Bool-cases (has_value wm)) [
    | inl e ↦ rw e refl
    | inr e ↦ rw e refl
  ]

  take_event-last :
      (s : Batcher) (e : BatchEvent)
      → s.last ≡ none
      → All HasValue (brought e)
      → All HasValue (listed (take_event w e s).0.last)
  unfolding take_event brought add_to_batch
  take_event-last s closed h b = rw h tt
  take_event-last s batch_timeout h b = rw h tt
  take_event-last s (arrived wm) h b =
      elim (Bool-cases (ltb w.max_message_bytes (message_size wm + s.bytes))) [
        | inl e ↦ rw e b
        | inr e ↦ rw (e, h) tt
      ]

  take_event-done :
      (s : Batcher) (e : BatchEvent) → s.done ≡ false → (take_event w e s).0.done ≡ is_closed e
  unfolding take_event is_closed add_to_batch
  take_event-done s closed h = refl
  take_event-done s batch_timeout h = h
  take_event-done s (arrived wm) h =
      elim (Bool-cases (ltb w.max_message_bytes (message_size wm + s.bytes))) [
        | inl e ↦ rw e h
        | inr e ↦ rw e h
      ]

  -- The message that a round puts off is one that it has taken.
  round-last :
      (s : Batcher) (e : BatchEvent)
      → All HasValue (listed s.last)
      → All HasValue (brought e)
      → All HasValue (listed (round w s e).0.last)
  unfolding round
  round-last s e v b =
      let t = take_event w e (refill s.last s) in
      subst (λ o. All HasValue (listed o)) (sym (flush-last t.0 t.1).0)
        (take_event-last (refill s.last s) e (refill-held s s.last refl v).0 b)

  round-done : (s : Batcher) (e : BatchEvent) → s.done ≡ false → (round w s e).0.done ≡ is_closed e
  unfolding round
  round-done s e h =
      let t = take_event w e (refill s.last s) in
      (flush-last t.0 t.1).1 ∙ take_event-done (refill s.last s) e (refill-done s s.last ∙ h)

  run-done : (s : Batcher) (es : List BatchEvent) → s.done ≡ true → run w s es ≡ (s, [])
  unfolding run
  run-done s [] h = refl
  run-done s (e ∷ es) h = rw h refl

  -- A batch and the messages kept, after the events.
  outcome : Batcher × List (List WriterMessage) → List WriterMessage
  outcome r = concat r.1 ++ held r.0

  outcome-then_round :
      (r t : Batcher × List (List WriterMessage)) (xs ys : List WriterMessage)
      → outcome t ≡ held r.0 ++ ys
      → outcome r ≡ xs
      → outcome (then_round r t) ≡ xs ++ ys
  unfolding outcome then_round
  outcome-then_round (s, out) (t, more) xs ys h k =
      ap (λ b. b ++ held t) (concat-append out more)
      ∙ append_assoc (concat out) (concat more) (held t)
      ∙ ap (λ b. concat out ++ b) h
      ∙ sym (append_assoc (concat out) (held s) ys)
      ∙ ap (λ b. b ++ ys) k

  runs :
      (s : Batcher) (e : BatchEvent) (es : List BatchEvent)
      → s.done ≡ false
      → run w s (e ∷ es) ≡ then_round (round w s e) (run w (round w s e).0 es)
  unfolding run
  runs s e es d =
      ap (λ b. if b then (s, []) else then_round (round w s e) (run w (round w s e).0 es)) d

  step :
      (s : Batcher) (e : BatchEvent) (es : List BatchEvent) (ys : List WriterMessage)
      → s.done ≡ false
      → All HasValue (listed s.last)
      → outcome (run w (round w s e).0 es) ≡ held (round w s e).0 ++ ys
      → outcome (run w s (e ∷ es)) ≡ held s ++ (brought e ++ ys)
  unfolding run outcome
  step s e es ys d v h =
      ap outcome (runs s e es d)
      ∙ outcome-then_round (round w s e) (run w (round w s e).0 es) (held s ++ brought e) ys h
          (round-held s e v)
      ∙ append_assoc (held s) (brought e) ys

  -- No message is lost: what is written and kept is what was kept and has arrived.
  pub run-conserved :
      (s : Batcher) (es : List BatchEvent)
      → s.done ≡ false
      → All HasValue (listed s.last)
      → All HasValue (arrivals es)
      → concat (run w s es).1 ++ held (run w s es).0 ≡ held s ++ arrivals es
  unfolding arrivals brought is_closed outcome run concat
  run-conserved s [] d v b = sym (append-nil (held s))
  run-conserved s (closed ∷ es) d v b = step s closed es [] d v (
      ap outcome (run-done (round w s closed).0 es (round-done s closed d))
      ∙ sym (append-nil (held (round w s closed).0)))
  run-conserved s (batch_timeout ∷ es) d v b = step s batch_timeout es (arrivals es) d v (
      run-conserved (round w s batch_timeout).0 es (round-done s batch_timeout d)
        (round-last s batch_timeout v tt) b)
  run-conserved s (arrived wm ∷ es) d v b = step s (arrived wm) es (arrivals es) d v (
      run-conserved (round w s (arrived wm)).0 es (round-done s (arrived wm) d)
        (round-last s (arrived wm) v (b.0, tt)) b.1)

  empty-held : (s : Batcher) → s.last ≡ none → (length s.batch == 0) ≡ true → held s ≡ []
  unfolding held
  empty-held s h e = rw h (append-nil s.batch ∙ no_elements s.batch e)

  flush-held : (s : Batcher) → s.last ≡ none → held (flush w (s, true)).0 ≡ []
  unfolding flush held
  flush-held s h = elim (Bool-cases (length s.batch == 0)) [
    | inl e ↦ rw e (empty-held s h e)
    | inr e ↦ rw (e, h) refl
  ]

  closed-held : (s : Batcher) → All HasValue (listed s.last) → held (round w s closed).0 ≡ []
  unfolding round take_event
  closed-held s v =
      flush-held (record (refill s.last s) { done = true; running = true })
        (refill-held s s.last refl v).0

  last_state :
      (s : Batcher) (e : BatchEvent) (es : List BatchEvent)
      → s.done ≡ false
      → held (run w s (e ∷ es)).0 ≡ held (run w (round w s e).0 es).0
  unfolding then_round
  last_state s e es d = ap (λ (r : Batcher × List (List WriterMessage)). held r.0) (runs s e es d)

  run-held :
      (s : Batcher) (es : List BatchEvent)
      → s.done ≡ false
      → All HasValue (listed s.last)
      → All HasValue (arrivals es)
      → (run w s es).0.done ≡ true
      → held (run w s es).0 ≡ []
  unfolding run arrivals brought is_closed then_round
  run-held s [] d v b h = absurd (cc (h, d))
  run-held s (closed ∷ es) d v b h =
      last_state s closed es d
      ∙ ap (λ (r : Batcher × List (List WriterMessage)). held r.0)
          (run-done (round w s closed).0 es (round-done s closed d))
      ∙ closed-held s v
  run-held s (batch_timeout ∷ es) d v b h =
      last_state s batch_timeout es d
      ∙ run-held (round w s batch_timeout).0 es (round-done s batch_timeout d)
          (round-last s batch_timeout v tt) b
          (sym (
              ap (λ (r : Batcher × List (List WriterMessage)). r.0.done)
                (runs s batch_timeout es d))
            ∙ h)
  run-held s (arrived wm ∷ es) d v b h =
      last_state s (arrived wm) es d
      ∙ run-held (round w s (arrived wm)).0 es (round-done s (arrived wm) d)
          (round-last s (arrived wm) v (b.0, tt)) b.1
          (sym (
              ap (λ (r : Batcher × List (List WriterMessage)). r.0.done) (runs s (arrived wm) es d))
            ∙ h)

  -- For messages that have a value, the batches that the writer of a partition has written when it
  -- has ended hold every message that it had kept before and every message that has arrived, each
  -- once and in the order of arrival.
  pub run-written :
      (s : Batcher) (es : List BatchEvent)
      → s.done ≡ false
      → All HasValue (listed s.last)
      → All HasValue (arrivals es)
      → (run w s es).0.done ≡ true
      → concat (run w s es).1 ≡ held s ++ arrivals es
  run-written s es d v b h =
      sym (append-nil (concat (run w s es).1))
      ∙ ap (λ b. concat (run w s es).1 ++ b) (sym (run-held s es d v b h))
      ∙ run-conserved s es d v b
