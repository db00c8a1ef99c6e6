-- ===== src/Base/Division.antt =====
-- Division of native numbers.
use Prim.Native.Nat.{ℕ, ◌+◌, ◌*◌, ◌/◌, ◌%◌, ◌<◌}
use mathlib.Core.Path.{◌≡◌, refl}
use native.Mathlib.Omega.{arith}
use native.Mathlib.Nat.{div-mul-le_self, lt-div-mul-add, mod-eq-sub-div-mul}

-- Quotient and remainder as two equations, which hide the division.
pub div-mod :
    (a b : ℕ) → 0 < b → (q : ℕ) × (r : ℕ) × (a / b ≡ q) × (a % b ≡ r) × (a ≡ q * b + r) × (r < b)
div-mod a b p = (
  a / b,
  a % b,
  refl,
  refl,
  omega (arith, mod-eq-sub-div-mul a b, div-mul-le_self a b),
  omega (arith, mod-eq-sub-div-mul a b, div-mul-le_self a b, lt-div-mul-add {a = a} {b = b} p),
)
