-- ===== src/BigReal/Arccot.antt =====
-- The series of arccot in kernel/main.c ends: its powers reach zero.
use simplix.Base.{
  ℕ, zero, suc, ◌+◌, ◌-◌, ◌*◌, ◌/◌, ◌^◌, ◌≤◌, ◌<◌, ◌≡◌, refl, inl, inr, Bool, true, false, not,
  Option, some, arith, ltb, leb, if◌then◌else◌, update, Bool-cases,
}
use native.Mathlib.Nat.{div-le_self, div-mul-le_self, two-pow-succ}
use simplix.BigReal.{
  Digits, base, wrap, is_below, max_div, clear, set_to_integer, is_zero_from, is_zero, next_power,
  div, arccot_loop, arccot, add, sub,
}
use simplix.BigReal.Value.{value, power, IsReduced, value-lt}
use simplix.BigReal.Divide.{div-value}

value-zero_digit : (n : ℕ) (x : Digits) → value n x ≡ 0 → (j : ℕ) → j < n → x j ≡ 0
unfolding value
value-zero_digit zero x e j h = absurd (omega (arith, h))
value-zero_digit (suc n) x e j h = elim (Bool-cases (ltb j n)) [
  | inl k ↦ value-zero_digit n x (omega (arith, e)) j (ground arith)
  | inr k ↦ let q : j ≡ n = ground arith in rw q (omega (arith, e))
]

is_zero_from_lem :
    (left i : ℕ) (x : Digits) → ((j : ℕ) → j < i + left → x j ≡ 0) → is_zero_from left i x ≡ true
unfolding is_zero_from
is_zero_from_lem zero i x z = refl
is_zero_from_lem (suc left) i x z =
    ground (arith, z i, is_zero_from_lem left (i + 1) x (λ j h. z j (omega (arith, h))))

-- IsZero holds if the number is zero.
pub is_zero-value : (n : ℕ) (x : Digits) → value n x ≡ 0 → is_zero n x ≡ true
unfolding is_zero
is_zero-value n x e = is_zero_from_lem n 0 x (λ j h. value-zero_digit n x e j (omega (arith, h)))

halved : (a d b : ℕ) → 2 ≤ d → b ≡ a / d → 2 * b ≤ a
halved a d b two e =
    let low = div-mul-le_self a d in
    let twice : 2 * (a / d) ≤ a / d * d = grind arith in omega (arith, e, low, twice)

-- One round at least halves the power.
next_power_lem :
    (p n : ℕ) (u : Digits)
    → 1 < p
    → p ≤ max_div * max_div
    → IsReduced n u
    → (2 * value n (next_power p n u) ≤ value n u) × IsReduced n (next_power p n u)
next_power_lem p n u lo hi r = elim (Bool-cases (ltb p max_div)) [
  | inl small ↦
      let below : is_below p max_div ≡ true = ground arith in
      let p_lt : p < max_div = ground arith in
      let sq : p * p ≤ 449 * 449 = grind arith in
      let two : 2 ≤ p * p = grind arith in
      let w : wrap (p * p) ≡ p * p = omega (arith, sq) in
      let (val, red) = div-value n (p * p) u u r (omega (arith, two)) (omega (arith, sq)) in
      rw below (rw w (halved (value n u) (p * p) (value n (div n u (p * p) u)) two val, red))
  | inr large ↦
      let below : is_below p max_div ≡ false = ground arith in
      let (val, red) = div-value n p u u r (omega arith) hi in
      let u1 = div n u p u in
      let (val', red') = div-value n p u1 u1 red (omega arith) hi in
      rw below (
        omega (arith, halved (value n u) p (value n u1) lo val, div-le_self (value n u1) p, val'),
        red',
      )
]

abbrev pub Returns : Option Digits → Type 0
Returns o = (r : Digits) × (o ≡ some r)

arccot_stop :
    (fuel p n k : ℕ) (sign : Bool) (x u v : Digits)
    → is_zero n u ≡ true
    → arccot_loop (suc fuel) p n k sign x u v ≡ some x
unfolding arccot_loop
arccot_stop fuel p n k sign x u v z = rw z refl

arccot_round :
    (fuel p n k : ℕ) (sign : Bool) (x u v : Digits)
    → is_zero n u ≡ false
    → (let u' = next_power p n u in
        let v' = div n u' k v in
        Returns (
          arccot_loop fuel p n
            (wrap (k + 2))
            (not sign)
            (if sign then add n x v' else sub n x v')
            u'
            v'))
    → Returns (arccot_loop (suc fuel) p n k sign x u v)
unfolding arccot_loop
arccot_round fuel p n k sign x u v z (r, e) = (r, rw z e)

arccot_loop-Returns :
    (fuel p n k : ℕ) (sign : Bool) (x u v : Digits)
    → 1 < p
    → p ≤ max_div * max_div
    → IsReduced n u
    → value n u < 2 ^ fuel
    → Returns (arccot_loop (suc fuel) p n k sign x u v)
arccot_loop-Returns zero p n k sign x u v lo hi r f =
    (x, arccot_stop zero p n k sign x u v (is_zero-value n u (omega (arith, f))))
arccot_loop-Returns (suc fuel) p n k sign x u v lo hi r f = elim (Bool-cases (is_zero n u)) [
  | inl z ↦ (x, arccot_stop (suc fuel) p n k sign x u v z)
  | inr z ↦
      let (half, red) = next_power_lem p n u lo hi r in
      arccot_round (suc fuel) p n k sign x u v z (
        arccot_loop-Returns fuel p n (wrap (k + 2)) (not sign) _ (next_power p n u) _ lo hi red
          (omega (arith, half, f, two-pow-succ fuel)))
]

clear_lem :
    (left i : ℕ) (x : Digits) (j : ℕ)
    → clear left i x j ≡ (if leb i j then if ltb j (i + left) then 0 else x j else x j)
unfolding clear
clear_lem zero i x j = ground arith
clear_lem (suc left) i x j = ground (arith, clear_lem left (i + 1) (update x i 0) j)

set_to_integer-IsReduced :
    (n : ℕ) (x : Digits) (a : ℕ) → a < base → IsReduced n (set_to_integer n x a)
unfolding set_to_integer
set_to_integer-IsReduced n x a h j l = ground (arith, clear_lem (n - 1) 1 x j)

-- For a cotangent from 2 to MaxDiv * MaxDiv the loop of arccot ends within as many rounds as twice
-- can be taken to reach the base to the power `n`, whatever the buffers hold.
pub arccot-Returns :
    (fuel p n : ℕ) (x u v : Digits)
    → 1 < p
    → p ≤ max_div * max_div
    → power n ≤ 2 ^ fuel
    → Returns (arccot (suc fuel) p n x u v)
unfolding arccot
arccot-Returns fuel p n x u v lo hi enough =
    let one = set_to_integer-IsReduced n u 1 (omega arith) in
    let u1 = set_to_integer n u 1 in
    let (val, red) = div-value n p u1 u1 one (omega arith) hi in
    arccot_loop-Returns fuel p n 3 false (add n (set_to_integer n x 0) (div n u1 p u1))
      (div n u1 p u1) v lo hi red
      (omega (arith, val, div-le_self (value n u1) p, value-lt n u1 one, enough))
