-- ===== src/Prelude/Arith.antt =====
-- Facts about division that the components share.
use Prim.Native.Nat.{ℕ, ◌+◌, ◌*◌, ◌/◌, ◌%◌, ◌<◌}
use mathlib.Core.Path.{◌≡◌, ◌∙◌}
use native.Mathlib.Omega.{arith}
use native.Mathlib.Nat.{add-mul-div_right, add-mul-mod_self_right, div-eq_of_lt, mod-eq_of_lt}

pub div_mod_unique : (i r k : ℕ) → i < k → ((i + r * k) / k ≡ r) × ((i + r * k) % k ≡ i)
div_mod_unique i r k h = (
  add-mul-div_right i r (omega arith) ∙ (omega (arith, div-eq_of_lt h)),
  add-mul-mod_self_right i r k ∙ mod-eq_of_lt h,
)
