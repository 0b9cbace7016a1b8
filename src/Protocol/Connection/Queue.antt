-- ===== src/Protocol/Connection/Queue.antt =====
-- The responses that stand in the stream, and how often an id occurs among operations.
use kafka_go.Prelude.{
  ℕ, suc, ◌+◌, ◌^◌, ◌<◌, ◌≡◌, refl, sym, ap, ◌∙◌, List, [], ◌∷◌, ◌++◌, length, map, ◌==◌,
  append_assoc, append-nil, arith, if◌then◌else◌, All,
}
use kafka_go.Protocol.Connection.{Response, response_frame}

unfoldable pub count : ℕ → List ℕ → ℕ
count i [] = 0
count i (x ∷ xs) = let rest = count i xs in if x == i then suc rest else rest

pub count-append : (i : ℕ) (xs ys : List ℕ) → count i (xs ++ ys) ≡ count i xs + count i ys
unfolding count
count-append i [] ys = omega arith
count-append i (x ∷ xs) ys = ground (arith, count-append i xs ys)

pub count-middle :
    (i x : ℕ) (xs ys : List ℕ)
    → count i (xs ++ x ∷ ys) ≡ count i (xs ++ ys) + (if x == i then 1 else 0)
unfolding count
count-middle i x xs ys = ground (arith, count-append i xs (x ∷ ys), count-append i xs ys)

unfoldable pub frames : List Response → List ℕ
frames [] = []
frames (r ∷ rs) = response_frame r ++ frames rs

pub frames-append :
    (rs : List Response) (r : Response) → frames (rs ++ r ∷ []) ≡ frames rs ++ response_frame r
unfolding frames
frames-append [] r = append-nil (response_frame r)
frames-append (s ∷ rs) r =
    ap (◌++◌ (response_frame s)) (frames-append rs r)
    ∙ sym (append_assoc (response_frame s) (frames rs) (response_frame r))

abbrev pub ids : List Response → List ℕ
ids rs = map (λ r. r.0) rs

pub ids-append : (rs : List Response) (r : Response) → ids (rs ++ r ∷ []) ≡ ids rs ++ r.0 ∷ []
ids-append [] r = refl
ids-append (s ∷ rs) r = ap (◌∷◌ s.0) (ids-append rs r)

abbrev pub Fits : Response → Type 0
Fits r = (r.0 < 2 ^ 32) × (length r.1 + 4 < 2 ^ 31)

pub All-append :
    (rs : List Response) (r : Response) → All Fits rs → Fits r → All Fits (rs ++ r ∷ [])
All-append [] r h f = (f, tt)
All-append (s ∷ rs) r h f = (h.0, All-append rs r h.1 f)
