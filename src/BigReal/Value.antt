-- ===== src/BigReal/Value.antt =====
-- The number that the digits of a big real stand for.
use simplix.Base.{ℕ, zero, suc, ◌+◌, ◌*◌, ◌<◌, ◌≡◌, refl, arith, update}
use simplix.BigReal.{Digits, base}

-- The first `n` digits, read to the base 10000.
unfoldable pub value : ℕ → Digits → ℕ
value zero x = 0
value (suc n) x = value n x * base + x n

unfoldable pub power : ℕ → ℕ
power zero = 1
power (suc n) = power n * base

-- The first `n` digits are digits.
abbrev pub IsReduced : ℕ → Digits → Type 0
IsReduced n x = (i : ℕ) → i < n → x i < base

pub value-cong : (n : ℕ) (x y : Digits) → ((i : ℕ) → i < n → x i ≡ y i) → value n x ≡ value n y
unfolding value
value-cong zero x y e = refl
value-cong (suc n) x y e =
    omega (arith, value-cong n x y (λ i h. e i (omega arith)), e n (omega arith))

pub value-update : (n : ℕ) (x : Digits) (v : ℕ) → value n (update x n v) ≡ value n x
value-update n x v = value-cong n (update x n v) x (λ i h. ground arith)

pub value-lt : (n : ℕ) (x : Digits) → IsReduced n x → value n x < power n
unfolding value power
value-lt zero x r = omega arith
value-lt (suc n) x r = omega (arith, value-lt n x (λ i h. r i (omega arith)), r n (omega arith))
