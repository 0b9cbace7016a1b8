-- ===== src/Errors.antt =====
-- error.go: the errors that a broker reports, and how the client sorts errors. A code is an int16;
-- the text that Error() makes of one is not part of the model.
pub mod Titles
pub mod Descriptions
pub mod Cases
use Prim.Native.String.{String}
use kafka_go.Prelude.{
  ℕ, ◌-◌, ◌^◌, Bool, true, false, not, ◌&&◌, ◌||◌, List, [], ◌∷◌, Option, none, some, map, ◌==◌,
  if◌then◌else◌, ◌≡◌, refl, sym, ap, ◌∙◌, arith, Bool-cases, inl, inr,
}
use kafka_go.Wire.Reader.{Error, eof, unexpected_eof, kafka}
use kafka_go.Errors.Titles.{titles}
use kafka_go.Errors.Descriptions.{descriptions}

-- `switch e`: the text of the first case with the code, or "".
unfoldable pub text_of : ℕ → List (ℕ × String) → String
text_of code [] = ""
text_of code ((c, s) ∷ cases) = if c == code then s else text_of code cases

unfoldable pub title : ℕ → String
title code = text_of code titles

unfoldable pub description : ℕ → String
description code = text_of code descriptions

abbrev pub request_timed_out : ℕ
request_timed_out = 7

unfoldable pub is_timeout_code : ℕ → Bool
is_timeout_code code = code == request_timed_out

-- `e == InvalidMessage || ...`
unfoldable pub is_one_of : ℕ → List ℕ → Bool
is_one_of code [] = false
is_one_of code (c ∷ cs) = code == c || is_one_of code cs

unfoldable pub is_temporary_code : ℕ → Bool
is_temporary_code code =
    is_one_of code
      (2 ∷ 3 ∷ 5 ∷ 7 ∷ 13 ∷ 14 ∷ 15 ∷ 19 ∷ 20 ∷ 56 ∷ 70 ∷ 71 ∷ 72 ∷ 74 ∷ 75 ∷ 78 ∷ 80 ∷ [])
    || is_timeout_code code

-- isTimeout and isTemporary; the errors of the network are not part of the model.
unfoldable pub is_timeout : Error → Bool
is_timeout (kafka code) = is_timeout_code code
is_timeout e = false

unfoldable pub is_temporary : Error → Bool
is_temporary (kafka code) = is_temporary_code code
is_temporary e = false

-- `err == io.EOF`
unfoldable pub is_eof : Error → Bool
is_eof eof = true
is_eof e = false

-- An error value, or nil.
unfoldable pub silent_eof : Option Error → Option Error
silent_eof none = none
silent_eof (some e) = if is_eof e then none else some e

unfoldable pub dont_expect_eof : Option Error → Option Error
dont_expect_eof none = none
dont_expect_eof (some e) = if is_eof e then some unexpected_eof else some e

unfoldable pub coalesce_errors : List (Option Error) → Option Error
coalesce_errors [] = none
coalesce_errors (none ∷ errs) = coalesce_errors errs
coalesce_errors (some e ∷ errs) = some e
