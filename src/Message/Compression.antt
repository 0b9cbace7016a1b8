-- ===== src/Message/Compression.antt =====
-- compression.go: the registry of codecs. The codecs of the gzip, snappy and lz4 packages are
-- parameters.
use kafka_go.Prelude.{ℕ, ◌≡◌, refl, List, [], ◌∷◌, Option, none, some, ◌==◌, if◌then◌else◌, arith}

-- A CompressionCodec: `none` is an error of the package.
pub record Codec : Type 0 where
  pub code : ℕ
  pub encode : List ℕ → Option (List ℕ)
  pub decode : List ℕ → Option (List ℕ)

-- The map `codecs`.
abbrev pub Codecs : Type 0
Codecs = List (ℕ × Codec)

-- `codecs[c.Code()] = c`
unfoldable pub register_compression_codec : Codec → Codecs → Codecs
register_compression_codec c [] = (c.code, c) ∷ []
register_compression_codec c ((k, d) ∷ cs) =
    if k == c.code then (k, c) ∷ cs else (k, d) ∷ register_compression_codec c cs

-- `none` is errUnknownCodec.
unfoldable pub resolve_codec : Codecs → ℕ → Option Codec
resolve_codec [] code = none
resolve_codec ((k, c) ∷ cs) code = if k == code then some c else resolve_codec cs code

-- 0x03
abbrev pub compression_codec_mask : ℕ
compression_codec_mask = 3

-- A registered codec is found by its code, and the other codes find what they found before.
pub resolve_codec-register_compression_codec :
    (c : Codec) (cs : Codecs) (code : ℕ)
    → resolve_codec (register_compression_codec c cs) code
      ≡ (if c.code == code then some c else resolve_codec cs code)
unfolding resolve_codec register_compression_codec
resolve_codec-register_compression_codec c [] code = refl
resolve_codec-register_compression_codec c ((k, d) ∷ cs) code =
    ground (arith, resolve_codec-register_compression_codec c cs code)
