-- ===== src/Conn/Offsets/Bounds.antt =====
-- Where Seek leaves the offset of a connection.
use kafka_go.Prelude.{ℕ, false, ◌≡◌}
use kafka_go.Conn.{Conn}
use kafka_go.Conn.Offsets.{Result, ok, error, out_of_range}

-- The outcome of a seek to an offset between `first` and `last`, or of one that changes nothing.
abbrev pub Within : Conn → ℕ → ℕ → Result ℕ × Conn → Type 0
Within c first last (ok o, next) =
    (next ≡ record c { offset = o }) × (out_of_range o first last ≡ false)
Within c first last (error e, next) = next ≡ c
