-- ===== src/Writer/Sending/Attempts.antt =====
-- writer.go: the loop of writer.write ends, after the retries that are allowed.
use kafka_go.Prelude.{
  ℕ, zero, suc, ◌+◌, ◌≤◌, ◌<◌, ◌≡◌, refl, Bool, true, false, not, Option, none, some, if◌then◌else◌,
  Bool-cases, inl, inr, arith, subst,
}
use kafka_go.Writer.Sending.{
  Failure, is_code, needs_reconnect, should_retry, World, Sent, duplicate_sequence_number,
  after_write, after_dial, send,
}

retry_bound :
    (e : Failure) (retries attempts : ℕ)
    → should_retry e retries attempts ≡ true
    → attempts < retries
unfolding should_retry
retry_bound e retries attempts h = ground (arith, h)

module _ (retries : ℕ) (world : World) where
  -- The loop has ended within the retries, with an error only if it is not to be retried.
  pub record Ended (o : Option Sent) : Type 0 where
    pub sent : Sent
    pub ends : o ≡ some sent
    pub bound : sent.retries ≤ retries
    pub final : (e : Failure) → sent.error ≡ some e → should_retry e retries sent.retries ≡ false

  module _ (again : Bool → Option Sent) (attempts : ℕ) (h : attempts ≤ retries) where
    retry-Ended :
        (e : Failure) (again_connected connected : Bool)
        → ((b : Bool) → attempts < retries → Ended (again b))
        → Ended (
            if should_retry e retries attempts
            then again again_connected
            else some (record { connected = connected; error = some e; retries = attempts }))
    retry-Ended e b c k = elim (Bool-cases (should_retry e retries attempts)) [
      | inl q ↦ rw q (k b (retry_bound e retries attempts q))
      | inr q ↦ rw q (record {
        sent = record { connected = c; error = some e; retries = attempts };
        ends = refl;
        bound = h;
        final = λ f p. subst (λ x. should_retry x retries attempts ≡ false) (cc p) q;
      })
    ]

    after_write-Ended :
        (o : Option Failure)
        → ((b : Bool) → attempts < retries → Ended (again b))
        → Ended (after_write retries world again attempts o)
    unfolding after_write
    after_write-Ended none k = record {
      sent = record { connected = true; error = none; retries = attempts };
      ends = refl;
      bound = h;
      final = λ e p. absurd (cc p);
    }
    after_write-Ended (some e) k = elim (Bool-cases (is_code duplicate_sequence_number e)) [
      | inl q ↦ rw q (record {
        sent = record { connected = true; error = none; retries = attempts };
        ends = refl;
        bound = h;
        final = λ f p. absurd (cc p);
      })
      | inr q ↦ rw q (retry-Ended e (not (needs_reconnect e)) true k)
    ]

    after_dial-Ended :
        (o p : Option Failure)
        → ((b : Bool) → attempts < retries → Ended (again b))
        → Ended (after_dial retries world again attempts o p)
    unfolding after_dial
    after_dial-Ended none p k = after_write-Ended p k
    after_dial-Ended (some e) p k = retry-Ended e false false k

  -- With more rounds than the retries that are left, the loop that sends a batch ends, within the
  -- retries that are allowed, and with an error only if that is not to be retried.
  pub send-Ended :
      (fuel attempts : ℕ) (conn : Bool)
      → retries < attempts + fuel
      → attempts ≤ retries
      → Ended (send retries world fuel attempts conn)
  unfolding send
  send-Ended zero attempts conn f h = absurd (omega (arith, f, h))
  send-Ended (suc fuel) attempts true f h =
      after_write-Ended (send retries world fuel (attempts + 1)) attempts h (world.write attempts)
        (λ b k. send-Ended fuel (attempts + 1) b (omega (arith, f)) (omega (arith, k)))
  send-Ended (suc fuel) attempts false f h =
      after_dial-Ended (send retries world fuel (attempts + 1)) attempts h (world.dial attempts)
        (world.write attempts)
        (λ b k. send-Ended fuel (attempts + 1) b (omega (arith, f)) (omega (arith, k)))
