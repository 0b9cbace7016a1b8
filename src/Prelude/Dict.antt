-- ===== src/Prelude/Dict.antt =====
-- Maps with string keys, as association lists.
use Prim.Native.Nat.{ℕ}
use mathlib.Core.Path.{◌≡◌, refl}
use mathlib.Core.List.{List, [], ◌∷◌}
use mathlib.Core.Option.{Option, none, some}
use native.Mathlib.Omega.{arith}
use kafka_go.Prelude.Tests.{if◌then◌else◌}
use kafka_go.Prelude.Strings.{same, same_iff}

module _ {ℓ} {V : Type ℓ} where
  unfoldable pub find : List ℕ → List (List ℕ × V) → Option V
  find key [] = none
  find key ((k, v) ∷ m) = if same k key then some v else find key m

  -- `m[key] = f(m[key])`, where `f` gets `none` for a missing key.
  unfoldable pub alter : List ℕ → (Option V → V) → List (List ℕ × V) → List (List ℕ × V)
  alter key f [] = (key, f none) ∷ []
  alter key f ((k, v) ∷ m) = if same k key then (k, f (some v)) ∷ m else (k, v) ∷ alter key f m

  pub find-alter :
      (key j : List ℕ) (f : Option V → V) (m : List (List ℕ × V))
      → find j (alter key f m) ≡ (if same key j then some (f (find key m)) else find j m)
  unfolding find alter
  find-alter key j f [] = refl
  find-alter key j f ((k, v) ∷ m) =
      ground (arith, same_iff k key, same_iff key j, same_iff k j, find-alter key j f m)
