-- ===== src/Balancer/Least.antt =====
-- Which partition LeastBytes chooses.
use kafka_go.Prelude.{ℕ, ◌≤◌, ◌≡◌, some, get_elem?, All}
use kafka_go.Message.{Message}
use kafka_go.Balancer.{LeastBytesCounter, LeastBytes}

-- `d` is one of the counters, and no counter has fewer bytes.
pub record IsLeast (cs : LeastBytes) (d : LeastBytesCounter) : Type 0 where
  pub index : ℕ
  pub found : get_elem? cs index ≡ some d
  pub least : All (λ c. d.bytes ≤ c.bytes) cs

abbrev AtMost : ℕ → LeastBytes → Type 0
AtMost n cs = All (λ c. n ≤ c.bytes) cs
