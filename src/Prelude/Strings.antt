-- ===== src/Prelude/Strings.antt =====
-- Strings as lists of bytes, and Go's `==` and `<` on them.
use Prim.Native.Nat.{ℕ}
use mathlib.Core.Path.{◌≡◌, refl}
use mathlib.Core.Logic.{◌↔◌}
use mathlib.Core.Bool.{Bool, true, false, ◌&&◌, ◌||◌}
use mathlib.Core.List.{List, [], ◌∷◌}
use native.Mathlib.Omega.{arith}
use kafka_go.Prelude.Tests.{◌==◌, ltb}

unfoldable pub same : List ℕ → List ℕ → Bool
same [] [] = true
same [] (b ∷ bs) = false
same (a ∷ as') [] = false
same (a ∷ as') (b ∷ bs) = a == b && same as' bs

-- The order of the first byte in which two strings differ.
unfoldable pub less : List ℕ → List ℕ → Bool
less s [] = false
less [] (b ∷ bs) = true
less (a ∷ as') (b ∷ bs) = ltb a b || a == b && less as' bs

pub same-eq : (s t : List ℕ) → same s t ≡ true → s ≡ t
unfolding same
same-eq [] [] h = refl
same-eq [] (b ∷ bs) h = cc
same-eq (a ∷ as') [] h = cc
same-eq (a ∷ as') (b ∷ bs) h = ground (arith, same-eq as' bs)

pub same_refl : (s : List ℕ) → same s s ≡ true
unfolding same
same_refl [] = refl
same_refl (a ∷ as') = ground (arith, same_refl as')

pub same_iff : (s t : List ℕ) → (same s t ≡ true) ↔ (s ≡ t)
same_iff s t = (same-eq s t, λ e. rw e (same_refl t))
