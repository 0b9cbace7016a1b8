-- ===== src/Protocol/Interface.antt =====
-- What the connection needs of a request: the `request` interface of protocol.go, with the law that
-- the announced size is the size written.
use kafka_go.Prelude.{ℕ, List}
use kafka_go.Wire.Sizes.{Sizes}

pub record Request (A : Type 0) : Type 0 where
  pub size : A → ℕ
  pub write_to : A → List ℕ
  pub sized : (t : A) → Sizes (size t) (write_to t)
