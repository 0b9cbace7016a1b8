-- ===== src/Protocol/Connection/Delivery.antt =====
-- On a shared connection every response reaches the operation that asked for it.
use kafka_go.Prelude.{ℕ, ◌^◌, ◌<◌, ◌≤◌}
use kafka_go.Protocol.Connection.{Conn, Run}
use kafka_go.Protocol.Connection.Queue.{count}
use kafka_go.Protocol.Connection.Shared.{Run-IsShared}

-- While fewer than 2 ^ 32 requests have been made, no two operations wait with the same id.
pub Run-once : {k : ℕ} {c : Conn} → Run k c → k < 2 ^ 32 → (i : ℕ) → count i c.waiting ≤ 1
Run-once run h = (Run-IsShared run h).once
