-- ===== src/Base/Bytes.antt =====
-- `std::string` equality.
use Prim.Native.Nat.{ℕ}
use native.Mathlib.Omega.{arith}
use mathlib.Core.Path.{◌≡◌, refl}
use mathlib.Core.Bool.{Bool, true, false}
use mathlib.Core.List.{List}
use mathlib.Core.Logic.{ite}
use native.Mathlib.Decide.{ℕ_discrete}

unfoldable pub bytes_discrete : Discrete (List ℕ)
unfolding ℕ_discrete
bytes_discrete = hlevel ℕ_discrete

-- `std::string` equality.
unfoldable pub eqb : List ℕ → List ℕ → Bool
unfolding bytes_discrete
eqb a b = ite (bytes_discrete a b) true false

ite-true : {P : Type 0} (d : Dec P) → ite d true false ≡ true → P
ite-true (yes p) e = p
ite-true (no n) e = absurd (ground (arith, e))

ite-yes : {P : Type 0} (d : Dec P) → P → ite d true false ≡ true
ite-yes (yes p) q = refl
ite-yes (no n) q = absurd (n q)

pub eqb-true : (a b : List ℕ) → eqb a b ≡ true → a ≡ b
unfolding eqb
eqb-true a b = ite-true (bytes_discrete a b)

pub eqb_refl : (a : List ℕ) → eqb a a ≡ true
unfolding eqb
eqb_refl a = ite-yes (bytes_discrete a a) refl
