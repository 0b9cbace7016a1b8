-- ===== src/Errors/Cases.antt =====
-- Which errors have a title and a description.
use Prim.Native.String.{String}
use kafka_go.Prelude.{
  ℕ, Bool, true, false, not, ◌&&◌, ◌||◌, List, [], ◌∷◌, if◌then◌else◌, ◌≡◌, refl, sym, ap, ◌∙◌,
  arith,
}
use kafka_go.Errors.{text_of, title, description, is_one_of}
use kafka_go.Errors.Titles.{titles}
use kafka_go.Errors.Descriptions.{descriptions}

-- `s == ""`
unfoldable pub is_empty : String → Bool
is_empty String.[] = true
is_empty (String.◌∷◌ c s) = false

unfoldable codes_of : List (ℕ × String) → List ℕ
codes_of [] = []
codes_of ((c, s) ∷ cases) = c ∷ codes_of cases

-- Every case has a text.
unfoldable filled : List (ℕ × String) → Bool
filled [] = true
filled ((c, s) ∷ cases) = not (is_empty s) && filled cases

unfoldable remove : List ℕ → List ℕ → List ℕ
remove cs [] = []
remove cs (k ∷ ks) = if is_one_of k cs then remove cs ks else k ∷ remove cs ks

text_of-is_empty :
    (code : ℕ) (cases : List (ℕ × String))
    → filled cases ≡ true
    → is_empty (text_of code cases) ≡ not (is_one_of code (codes_of cases))
unfolding text_of filled is_one_of codes_of
text_of-is_empty code [] h = unfold is_empty in refl
text_of-is_empty code ((c, s) ∷ cases) h = ground (arith, text_of-is_empty code cases)

one_of-remove :
    (code : ℕ) (cs ks : List ℕ)
    → is_one_of code (remove cs ks) ≡ (is_one_of code ks && not (is_one_of code cs))
unfolding is_one_of remove
one_of-remove code cs [] = refl
one_of-remove code cs (k ∷ ks) = ground (arith, one_of-remove code cs ks)

-- The codes whose description is missing: NetworkException, OffsetNotAvailable and
-- PreferredLeaderNotAvailable.
abbrev pub undescribed : List ℕ
undescribed = 13 ∷ 78 ∷ 80 ∷ []

same_codes : codes_of descriptions ≡ remove undescribed (codes_of titles)
unfolding codes_of remove is_one_of titles descriptions
same_codes = refl

titles-filled : filled titles ≡ true
unfolding filled is_empty titles
titles-filled = refl

descriptions-filled : filled descriptions ≡ true
unfolding filled is_empty descriptions
descriptions-filled = refl

de_morgan : (a b : Bool) → not (a && not b) ≡ (not a || b)
de_morgan false b = refl
de_morgan true false = refl
de_morgan true true = refl

-- The description of an error code is empty exactly if its title is, or if it is NetworkException,
-- OffsetNotAvailable or PreferredLeaderNotAvailable.
pub description-title :
    (code : ℕ) → is_empty (description code) ≡ (is_empty (title code) || is_one_of code undescribed)
unfolding description title
description-title code =
    let t = text_of-is_empty code titles titles-filled in
    let d = text_of-is_empty code descriptions descriptions-filled in
    let r = one_of-remove code undescribed (codes_of titles) in
    d
    ∙ ap (λ (ks : List ℕ). not (is_one_of code ks)) same_codes
    ∙ ap not r
    ∙ de_morgan (is_one_of code (codes_of titles)) (is_one_of code undescribed)
    ∙ ap (λ (b : Bool). b || is_one_of code undescribed) (sym t)
