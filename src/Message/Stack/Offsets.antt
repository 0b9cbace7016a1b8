-- ===== src/Message/Stack/Offsets.antt =====
-- Which messages the reader of message sets gives.
use kafka_go.Prelude.{
  ℕ, zero, suc, ◌+◌, ◌%◌, ◌^◌, ◌≡◌, List, [], ◌∷◌, Option, none, some, ℤ, false, Bool-cases, inl,
  inr, ◌==◌, length,
}
use Prim.Native.Nat.{bit_and}
use kafka_go.Wire.Reader.{
  Error, Cursor, Outcome, done, fail, Reader, pure, ◌>>=◌, ◌>>◌, and_then, at,
}
use kafka_go.Wire.Read.{read_bytes_with, discard_bytes}
use kafka_go.Message.Compression.{Codec, Codecs, resolve_codec, compression_codec_mask}
use kafka_go.Message.Stack.{
  MessageHeader, Levels, Next, got, failed, Read, read_pair, is_before, read_message, on_level,
  read_message_header, read_compressed, extract_offset,
}

module _ {K V : Type 0} (codecs : Codecs) (min : ℕ) (key : ℤ → Reader K)
    (value : ℤ → Reader V) where
  -- A message that is given does not stand before `min`.
  abbrev pub FromMin : Next (Read K V) → Type 0
  FromMin (got m ls) = is_before codecs min key value m.offset ≡ false
  FromMin (failed e ls) = Unit

  on_level-FromMin :
      (A : Type 0) (o : Outcome A) (base : ℕ) (ls : Levels) (f : A → Cursor → Next (Read K V))
      → ((a : A) (c : Cursor) → FromMin (f a c))
      → FromMin (on_level o base ls f)
  on_level-FromMin A (done a c) base ls f h = h a c
  on_level-FromMin A (fail e c) base ls f h = tt

  option-FromMin :
      (A : Type 0) (o : Option A) (n : Next (Read K V)) (f : A → Next (Read K V))
      → FromMin n
      → ((a : A) → FromMin (f a))
      → FromMin (elim o as (λ _. Next (Read K V)) [ none ↦ n | some a ↦ f a ])
  option-FromMin A none n f p h = p
  option-FromMin A (some a) n f p h = h a

  outcome-FromMin :
      (A : Type 0) (o : Outcome A) (g : Error → Next (Read K V)) (f : A → Next (Read K V))
      → ((e : Error) → FromMin (g e))
      → ((a : A) → FromMin (f a))
      → FromMin (elim o as (λ _. Next (Read K V)) [ fail e c ↦ g e | done a c ↦ f a ])
  outcome-FromMin A (done a c) g f p h = h a
  outcome-FromMin A (fail e c) g f p h = p e

  module _ (h : MessageHeader) (offset base : ℕ) (ls : Levels)
      (late : is_before codecs min key value offset ≡ false) where
    abbrev given : Read K V → Cursor → Next (Read K V)
    given r d = got r (record { cursor = d; base = base } ∷ ls)

    abbrev pair : K → V → Read K V
    pair k v = record { offset = offset; timestamp = h.timestamp; key = k; value = v; headers = [] }

    value-FromMin :
        (k : K) (o : Outcome V)
        → FromMin (on_level (and_then o (λ v. pure (pair k v))) base ls given)
    unfolding pure
    value-FromMin k (done v c) = late
    value-FromMin k (fail e c) = tt

    key-FromMin :
        (o : Outcome K)
        → FromMin (
            on_level
              (and_then o (λ k. read_bytes_with value >>= λ v. pure (pair k v)))
              base
              ls
              given)
    unfolding ◌>>=◌
    key-FromMin (done k c) = value-FromMin k (read_bytes_with value c)
    key-FromMin (fail e c) = tt

    pair-FromMin :
        (c : Cursor) → FromMin (on_level (read_pair codecs min key value h offset c) base ls given)
    unfolding read_pair ◌>>=◌
    pair-FromMin c = key-FromMin (read_bytes_with key c)

  -- Whatever the bytes, the codecs and the stack of sets, the reader of message sets gives no
  -- message below the offset that was asked for.
  pub read_message-FromMin :
      (fuel : ℕ) (ls : Levels) → FromMin (read_message codecs min key value fuel ls)
  unfolding read_message
  read_message-FromMin zero ls = tt
  read_message-FromMin (suc fuel) [] = tt
  read_message-FromMin (suc fuel) (l ∷ ls) = elim (Bool-cases (l.cursor.remain == 0)) [
    | inl e ↦ rw e (read_message-FromMin fuel ls)
    | inr e ↦ rw e (
        on_level-FromMin MessageHeader (read_message_header l.cursor) l.base ls _ λ h c.
          elim (Bool-cases (bit_and h.attributes compression_codec_mask == 0)) [
            | inl z ↦
                elim (Bool-cases (is_before codecs min key value ((h.offset + l.base) % 2 ^ 64))) [
                  | inl b ↦
                      rw (z, b)
                        (on_level-FromMin (Unit {0}) ((discard_bytes >> discard_bytes) c) l.base ls
                          _
                          λ _ d.
                            read_message-FromMin fuel (record { cursor = d; base = l.base } ∷ ls))
                  | inr b ↦ rw (z, b) (pair-FromMin h ((h.offset + l.base) % 2 ^ 64) l.base ls b c)
                ]
            | inr z ↦ rw z (
                option-FromMin Codec
                  (resolve_codec codecs (bit_and h.attributes compression_codec_mask)) _ _ tt
                  λ codec. on_level-FromMin (List ℕ) (read_compressed codec c) l.base ls _ λ set d.
                    outcome-FromMin ℕ (extract_offset h.offset set) _ _ (λ e. tt)
                      λ base. read_message-FromMin fuel (
                        record { cursor = at set (length set); base = base }
                        ∷ record { cursor = d; base = l.base }
                        ∷ ls))
          ])
  ]
