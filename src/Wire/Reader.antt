-- ===== src/Wire/Reader.antt =====
-- The state of a read: what the bufio.Reader still delivers before its stream ends, and the number
-- of bytes left of the response (the `sz` and `remain` of read.go). Errors are values.
use kafka_go.Prelude.{ℕ, List, Option, none, some}

pub data Error : Type 0 where
  -- errShortRead, io.EOF, io.ErrUnexpectedEOF and bufio.ErrNegativeCount
  short_read eof unexpected_eof negative_count : Error
  -- `Error(code)`, an error that the broker reports
  kafka : ℕ → Error
  -- the fmt.Errorf values of the fetch response headers and the message readers
  topics_expected partitions_expected : ℕ → Error
  set_size_mismatch : ℕ → ℕ → Error
  unsupported_version : ℕ → Error
  -- errUnknownCodec, and an error of a compression package
  unknown_codec codec_error : Error
  -- bufio.ErrBufferFull
  buffer_full : Error
  -- io.ErrShortBuffer
  short_buffer : Error
  -- the fmt.Errorf values of Seek and of ReadBatchWith
  bad_whence bad_bounds : Error
  -- errInvalidWriteTopic and errInvalidWritePartition
  invalid_write_topic invalid_write_partition : Error
  -- no Go value: the read goes on behind the response, where the model does not follow
  overrun : Error
  -- no Go value: a run-time panic
  panics : Error
  -- bytes left of a response (expectZeroSize)
  unread : ℕ → Error
  -- no Go value: a loop of the model ran out of fuel
  out_of_fuel : Error

pub record Cursor : Type 0 where
  pub input : List ℕ
  pub remain : ℕ

-- Go's (value, remain, err), where the value counts only if err is nil.
pub data Outcome {ℓ} (A : Type ℓ) : Type ℓ where
  done : A → Cursor → Outcome A
  fail : Error → Cursor → Outcome A

abbrev pub Reader {ℓ} : Type ℓ → Type ℓ
Reader A = Cursor → Outcome A

abbrev pub and_then {ℓ κ} :
    {A : Type ℓ} {B : Type κ} → Outcome A → (A → Cursor → Outcome B) → Outcome B
and_then (done a c) f = f a c
and_then (fail e c) f = fail e c

unfoldable pub pure {ℓ} : {A : Type ℓ} → A → Reader A
pure a c = done a c

unfoldable pub throw {ℓ} : {A : Type ℓ} → Error → Reader A
throw e c = fail e c

-- `if remain, err = m(...); err != nil { return }` and then the rest.
infixl 5 ◌>>=◌ ◌>>◌
unfoldable pub ◌>>=◌ {ℓ κ} : {A : Type ℓ} {B : Type κ} → Reader A → (A → Reader B) → Reader B
◌>>=◌ m f c = and_then (m c) f

abbrev pub ◌>>◌ {ℓ κ} : {A : Type ℓ} {B : Type κ} → Reader A → Reader B → Reader B
m >> k = m >>= λ _. k

abbrev pub final {ℓ} : {A : Type ℓ} → Outcome A → Cursor
final (done a c) = c
final (fail e c) = c

abbrev pub at : List ℕ → ℕ → Cursor
at bs k = record { input = bs; remain = k }

-- An error of a library call on the way, or success.
unfoldable pub settle : Option Error → Cursor → Outcome (Unit {0})
settle none c = done tt c
settle (some e) c = fail e c
