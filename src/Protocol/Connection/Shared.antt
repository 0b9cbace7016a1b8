-- ===== src/Protocol/Connection/Shared.antt =====
-- The invariant of a connection that several operations share.
use kafka_go.Prelude.{
  ℕ, suc, ◌+◌, ◌^◌, ◌<◌, ◌≤◌, ◌≡◌, refl, sym, ap, ◌∙◌, List, [], ◌∷◌, ◌++◌, length, take, drop, pos,
  ◌==◌, append_assoc, arith, All, take-append_length, drop-append_length, inl, inr, Bool-cases,
  subst,
}
use kafka_go.Protocol.Exchange.{peek_turn, ours}
use kafka_go.Protocol.Exchange.Safety.{peek_turn-frame}
use kafka_go.Protocol.Connection.{
  Response, response_frame, Conn, do_request, respond, take_response, Run, start, request, response,
  turn, new_conn,
}
use kafka_go.Protocol.Connection.Queue.{
  count, count-append, count-middle, frames, frames-append, ids, ids-append, Fits, All-append,
}

-- The connection after `k` requests: the responses that wait in the stream are given, every waiting
-- operation has one response, in the stream or to come, and no two operations have the same id.
pub record IsShared (k : ℕ) (c : Conn) : Type 0 where
  pub queued : List Response
  pub input : c.input ≡ frames queued
  pub answers : c.answers ≡ c.got ++ queued
  pub fits : All Fits queued
  pub balance : (i : ℕ) → count i c.waiting ≡ count i (ids queued) + count i c.unanswered
  pub once : (i : ℕ) → count i c.waiting ≤ 1
  pub last : c.correlation_id ≡ k
  pub past : (i : ℕ) → k < i → count i c.waiting ≡ 0

request-IsShared :
    (k : ℕ) (c : Conn) → suc k < 2 ^ 32 → IsShared k c → IsShared (suc k) (do_request c)
unfolding do_request count
request-IsShared k c h s = record {
  queued = s.queued;
  input = s.input;
  answers = s.answers;
  fits = s.fits;
  balance = λ i. ground (arith, s.balance i);
  once = λ i. ground (arith, s.once i, s.past i, s.last);
  last = omega (arith, s.last);
  past = λ i l. ground (arith, s.past i, s.last);
}

-- An answered request is one of those that were made.
asked :
    (k : ℕ) (c : Conn) (before after : List ℕ) (r : Response)
    → c.unanswered ≡ before ++ r.0 ∷ after
    → k < 2 ^ 32
    → IsShared k c
    → r.0 < 2 ^ 32
asked k c before after r e h s =
    ground (arith, ap (count r.0) e, count-middle r.0 r.0 before after, s.balance r.0, s.past r.0)

response-IsShared :
    (k : ℕ) (c : Conn) (before after : List ℕ) (r : Response)
    → c.unanswered ≡ before ++ r.0 ∷ after
    → length r.1 + 4 < 2 ^ 31
    → k < 2 ^ 32
    → IsShared k c
    → IsShared k (respond r (before ++ after) c)
unfolding respond count
response-IsShared k c before after r e l h s = record {
  queued = s.queued ++ r ∷ [];
  input = ap (λ i. i ++ response_frame r) s.input ∙ sym (frames-append s.queued r);
  answers = ap (λ rs. rs ++ r ∷ []) s.answers ∙ append_assoc c.got s.queued (r ∷ []);
  fits = All-append s.queued r s.fits (asked k c before after r e h s, l);
  balance = λ i. omega (
    arith,
    ap (count i) e,
    count-middle i r.0 before after,
    s.balance i,
    ap (count i) (ids-append s.queued r),
    count-append i (ids s.queued) (r.0 ∷ []),
  );
  once = s.once;
  last = s.last;
  past = s.past;
}

own_response :
    (id size : ℕ) (input : List ℕ) (r : Response) (rs : List Response)
    → r.0 ≡ id
    → ours (pos (length r.1)) (r.1 ++ frames rs) ≡ ours (pos size) input
    → (r ∷ rs ≡ (id, take size input) ∷ rs) × (drop size input ≡ frames rs)
own_response id size input r rs p e =
    let s : length r.1 ≡ size = cc in
    let i : r.1 ++ frames rs ≡ input = cc in
    rw (← s, ← i, ← p, take-append_length r.1 (frames rs), drop-append_length r.1 (frames rs))
      (refl, refl)

-- The turn of an operation is taken only with its own response.
turn-own :
    (id size : ℕ) (input : List ℕ) (queued : List Response)
    → All Fits queued
    → peek_turn id (frames queued) ≡ ours (pos size) input
    → (rest : List Response) × (queued ≡ (id, take size input) ∷ rest)
      × (drop size input ≡ frames rest)
unfolding frames peek_turn
turn-own id size input [] h e = absurd cc
turn-own id size input (r ∷ rs) h e =
    let f = sym (peek_turn-frame r.0 id r.1 (frames rs) h.0.0 h.0.1) ∙ e in
    elim (Bool-cases (r.0 == id)) [
      | inl q ↦
          let (p, d) = own_response id size input r rs (ground arith) (rw q at f) in (rs, p, d)
      | inr q ↦ let g = rw q at f in absurd cc
    ]

turn-IsShared :
    (k : ℕ) (c : Conn) (before after : List ℕ) (id size : ℕ) (input : List ℕ)
    → c.waiting ≡ before ++ id ∷ after
    → peek_turn id c.input ≡ ours (pos size) input
    → IsShared k c
    → IsShared k (take_response id size input (before ++ after) c)
unfolding take_response
turn-IsShared k c before after id size input e t s =
    let (rest, q, d) =
      turn-own id size input s.queued s.fits (ap (peek_turn id) (sym s.input) ∙ t) in
    record {
      queued = rest;
      input = d;
      answers =
          s.answers
          ∙ ap (◌++◌ c.got) q
          ∙ sym (append_assoc c.got ((id, take size input) ∷ []) rest);
      fits = (subst (All Fits) q s.fits).1;
      balance = λ i. omega (
        arith,
        ap (count i) e,
        count-middle i id before after,
        s.balance i,
        ap (λ rs. count i (ids rs)) q,
        count-middle i id [] (ids rest),
      );
      once = λ i. omega (arith, ap (count i) e, count-middle i id before after, s.once i);
      last = s.last;
      past = λ i l. omega (arith, ap (count i) e, count-middle i id before after, s.past i l);
    }

start-IsShared : IsShared 0 new_conn
unfolding frames count
start-IsShared = record {
  queued = [];
  input = refl;
  answers = refl;
  fits = tt;
  balance = λ i. refl;
  once = λ i. omega arith;
  last = refl;
  past = λ i l. refl;
}

pub Run-IsShared : {k : ℕ} {c : Conn} → Run k c → k < 2 ^ 32 → IsShared k c
Run-IsShared start h = start-IsShared
Run-IsShared (request r) h = request-IsShared _ _ h (Run-IsShared r (omega arith))
Run-IsShared (response before after r run e l) h =
    response-IsShared _ _ before after r e l h (Run-IsShared run h)
Run-IsShared (turn before after id size input run e t) h =
    turn-IsShared _ _ before after id size input e t (Run-IsShared run h)
