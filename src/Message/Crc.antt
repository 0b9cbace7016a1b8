-- ===== src/Message/Crc.antt =====
-- crc32.go: the checksum of a message, and the function of hash/crc32 that it uses.
use Prim.Native.Nat.{bit_xor}
use kafka_go.Prelude.{
  ℕ, zero, suc, ◌-◌, ◌/◌, ◌%◌, ◌^◌, ◌<◌, ◌≡◌, refl, sym, ◌∙◌, ap, List, [], ◌∷◌, ◌++◌, arith, none,
  some, ◌==◌, if◌then◌else◌, length,
}
use kafka_go.Prelude.Bits.{bit_xor-lt}
use kafka_go.Wire.Bytes.{Slice, big_endian}

-- One bit of the reflected division, and a byte of it.
unfoldable pub crc_bits : ℕ → ℕ → ℕ → ℕ
crc_bits poly zero c = c
crc_bits poly (suc n) c = crc_bits poly n (if c % 2 == 1 then bit_xor (c / 2) poly else c / 2)

unfoldable pub crc_bytes : ℕ → ℕ → List ℕ → ℕ
crc_bytes poly c [] = c
crc_bytes poly c (b ∷ bs) = crc_bytes poly (crc_bits poly 8 (bit_xor c (b % 256))) bs

-- `^c` of a uint32
abbrev pub complement : ℕ → ℕ
complement c = 2 ^ 32 - 1 - c

-- `crc32.Update(sum, table, b)`, for the table of a polynomial.
unfoldable pub crc_update : ℕ → ℕ → List ℕ → ℕ
crc_update poly sum bs = complement (crc_bytes poly (complement sum) bs)

abbrev pub ieee : ℕ
ieee = 0xedb88320

abbrev pub castagnoli : ℕ
castagnoli = 0x82f63b78

unfoldable pub crc32_update : ℕ → List ℕ → ℕ
crc32_update sum bs = crc_update ieee sum bs

-- crc32Buffer.writeBytes, from the sum so far.
unfoldable pub crc_write_bytes : ℕ → Slice → ℕ
crc_write_bytes sum none = crc32_update (crc32_update sum (big_endian 4 (2 ^ 32 - 1))) []
crc_write_bytes sum (some b) = crc32_update (crc32_update sum (big_endian 4 (length b % 2 ^ 32))) b

unfoldable pub crc32_of_message : ℕ → ℕ → ℕ → Slice → Slice → ℕ
crc32_of_message magic attributes timestamp key value =
    let sum = crc32_update (crc32_update 0 (magic % 256 ∷ [])) (attributes % 256 ∷ []) in
    let sum' = if magic == 0 then sum else crc32_update sum (big_endian 8 timestamp) in
    crc_write_bytes (crc_write_bytes sum' key) value

-- The check value of CRC-32 and of CRC-32C.
crc_check : crc_update ieee 0 (49 ∷ 50 ∷ 51 ∷ 52 ∷ 53 ∷ 54 ∷ 55 ∷ 56 ∷ 57 ∷ []) ≡ 0xcbf43926
unfolding crc_update crc_bytes crc_bits
crc_check = refl

crc_check_castagnoli :
    crc_update castagnoli 0 (49 ∷ 50 ∷ 51 ∷ 52 ∷ 53 ∷ 54 ∷ 55 ∷ 56 ∷ 57 ∷ []) ≡ 0xe3069283
unfolding crc_update crc_bytes crc_bits
crc_check_castagnoli = refl

module _ (poly : ℕ) (p : poly < 2 ^ 32) where
  crc_bits-lt : (n c : ℕ) → c < 2 ^ 32 → crc_bits poly n c < 2 ^ 32
  unfolding crc_bits
  crc_bits-lt zero c h = h
  crc_bits-lt (suc n) c h =
      crc_bits-lt n (if c % 2 == 1 then bit_xor (c / 2) poly else c / 2)
        (ground (arith, bit_xor-lt 32 (c / 2) poly (omega arith) p))

  crc_bytes-lt : (c : ℕ) (bs : List ℕ) → c < 2 ^ 32 → crc_bytes poly c bs < 2 ^ 32
  unfolding crc_bytes
  crc_bytes-lt c [] h = h
  crc_bytes-lt c (b ∷ bs) h =
      crc_bytes-lt (crc_bits poly 8 (bit_xor c (b % 256))) bs
        (crc_bits-lt 8 (bit_xor c (b % 256)) (bit_xor-lt 32 c (b % 256) h (omega arith)))

  crc_bytes-append :
      (c : ℕ) (xs ys : List ℕ)
      → crc_bytes poly c (xs ++ ys) ≡ crc_bytes poly (crc_bytes poly c xs) ys
  unfolding crc_bytes
  crc_bytes-append c [] ys = refl
  crc_bytes-append c (x ∷ xs) ys = crc_bytes-append (crc_bits poly 8 (bit_xor c (x % 256))) xs ys

  complement_twice : (c : ℕ) → c < 2 ^ 32 → complement (complement c) ≡ c
  complement_twice c h = omega arith

  -- Updating piece by piece is updating once.
  pub crc_update-append :
      (sum : ℕ) (xs ys : List ℕ)
      → sum < 2 ^ 32
      → crc_update poly (crc_update poly sum xs) ys ≡ crc_update poly sum (xs ++ ys)
  unfolding crc_update
  crc_update-append sum xs ys h = ap complement (
      ap (λ c. crc_bytes poly c ys)
        (complement_twice (crc_bytes poly (complement sum) xs)
          (crc_bytes-lt (complement sum) xs (omega arith)))
      ∙ sym (crc_bytes-append (complement sum) xs ys))

  pub crc_update-lt : (sum : ℕ) (xs : List ℕ) → crc_update poly sum xs < 2 ^ 32
  unfolding crc_update
  crc_update-lt sum xs = omega arith

  pub crc_update-nil : (sum : ℕ) → sum < 2 ^ 32 → crc_update poly sum [] ≡ sum
  unfolding crc_update crc_bytes
  crc_update-nil sum h = omega arith
