-- ===== src/BigReal/Sub.antt =====
-- Sub of kernel/main.c computes the difference.
use simplix.Base.{
  ℕ, zero, suc, ◌+◌, ◌-◌, ◌*◌, ◌^◌, ◌≤◌, ◌<◌, ◌≡◌, refl, ap, ◌∙◌, inl, inr, true, false, arith, ltb,
  if◌then◌else◌, update, Bool-cases,
}
use simplix.BigReal.{Digits, base, minus, is_negative, borrow, sub_loop, sub}
use simplix.BigReal.Value.{value, IsReduced, value-cong}

-- The array after the round of Sub at the digit `i`.
abbrev sub_at : ℕ → Digits → Digits → Digits
sub_at i x y =
    let x1 = update x i (minus (x i) (y i)) in if is_negative (x1 i) then borrow i x1 else x1

sub_loop_step : (i : ℕ) (x y : Digits) → sub_loop (suc i) x y ≡ sub_loop i (sub_at i x y) y
unfolding sub_loop
sub_loop_step i x y = refl

sub_loop_nil : (x y : Digits) → sub_loop zero x y ≡ x
unfolding sub_loop
sub_loop_nil x y = refl

sub_at-frame : (i : ℕ) (x y : Digits) (j : ℕ) → i < j → sub_at i x y j ≡ x j
sub_at-frame zero x y j h = ground arith
sub_at-frame (suc i) x y j h = ground arith

sub_loop-frame : (n : ℕ) (x y : Digits) (j : ℕ) → n ≤ j → sub_loop n x y j ≡ x j
sub_loop-frame zero x y j h = ap (λ (z : Digits). z j) (sub_loop_nil x y)
sub_loop-frame (suc i) x y j h =
    ap (λ (z : Digits). z j) (sub_loop_step i x y)
    ∙ sub_loop-frame i (sub_at i x y) y j (omega arith)
    ∙ sub_at-frame i x y j h

-- The last digit `d` of `x`, less the borrow `b`.
abbrev IsBorrowed : ℕ → Digits → ℕ → ℕ → Type 0
IsBorrowed i x d b = (b ≤ 1) × (d < base) × (x i ≡ minus d b)

-- The first round, without a digit before it.
sub_at-first :
    (x y : Digits) (d b : ℕ) → IsBorrowed zero x d b → y 0 + b ≤ d → sub_at zero x y 0 ≡ d - b - y 0
sub_at-first x y d b (le, lt, at) h = ground arith

-- The other rounds: the digit, and the borrow `c` from the digit before it.
sub_at-low :
    (j : ℕ) (x y : Digits) (d b : ℕ)
    → IsBorrowed (suc j) x d b
    → y (suc j) < base
    → d < b + y (suc j)
    → (sub_at (suc j) x y (suc j) ≡ d + base - b - y (suc j))
      × (sub_at (suc j) x y j ≡ minus (x j) 1)
sub_at-low j x y d b (le, lt, at) s h =
    let t : minus (x (suc j)) (y (suc j)) ≡ d + 2 ^ 32 - b - y (suc j) = omega (arith, at) in
    let neg : is_negative (minus (x (suc j)) (y (suc j))) ≡ true = ground arith in
    (ground arith, ground arith)

sub_at-high :
    (j : ℕ) (x y : Digits) (d b : ℕ)
    → IsBorrowed (suc j) x d b
    → b + y (suc j) ≤ d
    → (sub_at (suc j) x y (suc j) ≡ d - b - y (suc j)) × (sub_at (suc j) x y j ≡ x j)
sub_at-high j x y d b (le, lt, at) h =
    let t : minus (x (suc j)) (y (suc j)) ≡ d - b - y (suc j) = omega (arith, at) in
    let neg : is_negative (minus (x (suc j)) (y (suc j))) ≡ false = ground arith in
    (ground arith, ground arith)

sub_at-below : (j : ℕ) (x y : Digits) (k : ℕ) → k < j → sub_at (suc j) x y k ≡ x k
sub_at-below j x y k h = ground arith

-- What the loop promises from the digit `i` on, of which the number is `total`.
Difference : ℕ → ℕ → ℕ → Digits → Digits → Type 0
Difference i b total y z = (value (suc i) z + value (suc i) y + b ≡ total) × IsReduced (suc i) z

Difference-first :
    (x y z : Digits) (d b : ℕ)
    → d < base
    → y 0 + b ≤ d
    → z 0 ≡ d - b - y 0
    → Difference zero b (value zero x * base + d) y z
unfolding Difference value
Difference-first x y z d b lt h at =
    (omega (arith, at), λ j k. (let e : j ≡ 0 = omega (arith, k) in rw e (omega (arith, at))))

Difference-suc :
    (j b c d e : ℕ) (x a y z : Digits)
    → value j a ≡ value j x
    → e + b + y (suc j) ≡ d + c * base
    → e < base
    → z (suc j) ≡ e
    → Difference j c (value j a * base + x j) y z
    → Difference (suc j) b (value (suc j) x * base + d) y z
unfolding Difference value
Difference-suc j b c d e x a y z same digit lt at (sum, r) = (
  omega (arith, sum, same, digit, at),
  λ k h. elim (Bool-cases (ltb k (suc j))) [
    | inl l ↦ r k (ground arith)
    | inr l ↦ let q : k ≡ suc j = ground arith in rw q (omega (arith, lt, at))
  ],
)

-- The minuend is still large enough for the digits that are left.
rest_fits :
    (j b c d e : ℕ) (x a y : Digits)
    → value j a ≡ value j x
    → e + b + y (suc j) ≡ d + c * base
    → e < base
    → value (suc (suc j)) y + b ≤ value (suc j) x * base + d
    → value (suc j) y + c ≤ value j a * base + x j
unfolding value
rest_fits j b c d e x a y same digit lt fits = omega (arith, same, digit, lt, fits)

first_fits :
    (x y : Digits) (d b : ℕ) → value (suc zero) y + b ≤ value zero x * base + d → y 0 + b ≤ d
unfolding value
first_fits x y d b fits = omega (arith, fits)

sub_loop-Difference :
    (i : ℕ) (x y : Digits) (d b : ℕ)
    → IsBorrowed i x d b
    → IsReduced i x
    → IsReduced (suc i) y
    → value (suc i) y + b ≤ value i x * base + d
    → Difference i b (value i x * base + d) y (sub_loop (suc i) x y)
sub_loop-Difference zero x y d b (le, lt, at) r s fits =
    let small = first_fits x y d b fits in
    rw (sub_loop_step zero x y, sub_loop_nil (sub_at zero x y) y)
      (Difference-first x y (sub_at zero x y) d b lt small
        (sub_at-first x y d b (le, lt, at) small))
sub_loop-Difference (suc j) x y d b (le, lt, at) r s fits =
    let a = sub_at (suc j) x y in
    let same = value-cong j a x (sub_at-below j x y) in
    let y_lt = s (suc j) (omega arith) in
    let next : (c e : ℕ)
        → c ≤ 1
        → e + b + y (suc j) ≡ d + c * base
        → e < base
        → a (suc j) ≡ e
        → a j ≡ minus (x j) c
        → Difference (suc j) b (value (suc j) x * base + d) y (sub_loop (suc j) a y) =
      λ c e c_le sum e_lt digit rest.
        Difference-suc j b c d e x a y (sub_loop (suc j) a y) same sum e_lt
          (sub_loop-frame (suc j) a y (suc j) (omega arith) ∙ digit)
          (sub_loop-Difference j a y (x j) c (c_le, r j (omega arith), rest)
            (λ k h. rw (sub_at-below j x y k h) (r k (omega arith))) (λ k h. s k (omega arith))
            (rest_fits j b c d e x a y same sum e_lt fits)) in
    rw (sub_loop_step (suc j) x y) (elim (Bool-cases (ltb d (b + y (suc j)))) [
      | inl low ↦
          let (digit, rest) = sub_at-low j x y d b (le, lt, at) y_lt (ground arith) in
          next 1 (d + base - b - y (suc j)) (omega arith) (ground arith) (ground arith) digit rest
      | inr high ↦
          let (digit, rest) = sub_at-high j x y d b (le, lt, at) (ground arith) in
          next 0 (d - b - y (suc j)) (omega arith) (ground arith) (ground arith) digit
            (omega (arith, rest, r j (omega arith)))
    ])

Difference-exact :
    (i total : ℕ) (y z : Digits)
    → Difference i 0 total y z
    → (value (suc i) z + value (suc i) y ≡ total) × IsReduced (suc i) z
unfolding Difference
Difference-exact i total y z (sum, r) = (omega (arith, sum), r)

value-suc : (i : ℕ) (x : Digits) → value (suc i) x ≡ value i x * base + x i
unfolding value
value-suc i x = refl

sub-nil :
    (x y : Digits)
    → (value zero (sub zero x y) + value zero y ≡ value zero x) × IsReduced zero (sub zero x y)
unfolding value sub sub_loop
sub-nil x y = (refl, λ i h. absurd (omega (arith, h)))

-- If the subtrahend is at most the minuend, Sub leaves the difference in `x`, in digits of the
-- base.
pub sub-value :
    (n : ℕ) (x y : Digits)
    → IsReduced n x
    → IsReduced n y
    → value n y ≤ value n x
    → (value n (sub n x y) + value n y ≡ value n x) × IsReduced n (sub n x y)
unfolding sub
sub-value zero x y r s fits = sub-nil x y
sub-value (suc i) x y r s fits = rw (value-suc i x) (
    Difference-exact i (value i x * base + x i) y (sub_loop (suc i) x y) (
      sub_loop-Difference i x y (x i) 0
        (omega arith, r i (omega arith), omega (arith, r i (omega arith)))
        (λ j h. r j (omega arith)) s (omega (arith, fits, value-suc i x))))
