-- ===== src/BigReal.antt =====
-- The big reals of kernel/main.c, with which the demonstration task computes pi.
-- A big real is an array of `n` digits to the base 10000, the integer part first. A `long` is its
-- 32-bit pattern, below 2 ^ 32: a negative number has its highest bit set.
pub mod Value
pub mod Add
pub mod Sub
pub mod Scale
pub mod Divide
pub mod Arccot
mod Tests
use simplix.Base.{
  ℕ, zero, suc, ◌+◌, ◌-◌, ◌*◌, ◌/◌, ◌%◌, ◌^◌, Bool, true, false, not, ◌&&◌, ◌||◌, Option, none,
  some, leb, ltb, ◌==◌, if◌then◌else◌, update,
}

abbrev pub Digits : Type 0
Digits = ℕ → ℕ

abbrev pub base : ℕ
base = 10000

abbrev pub max_div : ℕ
max_div = 450

-- Arithmetic of patterns.
abbrev pub wrap : ℕ → ℕ
wrap a = a % 2 ^ 32

abbrev pub minus : ℕ → ℕ → ℕ
minus a b = (a + 2 ^ 32 - b) % 2 ^ 32

abbrev pub is_negative : ℕ → Bool
is_negative a = leb (2 ^ 31) a

-- `a < b` for a pattern `b` that is not negative.
abbrev pub is_below : ℕ → ℕ → Bool
is_below a b = is_negative a || ltb a b

abbrev pub negate : ℕ → ℕ
negate a = minus 0 a

-- `a / b`, which is cut towards zero; `b` is not negative.
abbrev pub quotient : ℕ → ℕ → ℕ
quotient a b = if is_negative a then negate (negate a / b) else a / b

-- `for (i = 1; i < n; i++) x[i] = 0;`, by the rounds that are left.
unfoldable pub clear : ℕ → ℕ → Digits → Digits
clear zero i x = x
clear (suc left) i x = clear left (i + 1) (update x i 0)

unfoldable pub set_to_integer : ℕ → Digits → ℕ → Digits
unfolding clear
set_to_integer n x integer = update (clear (n - 1) 1 x) 0 integer

-- The loop of `IsZero`, by the rounds that are left.
unfoldable pub is_zero_from : ℕ → ℕ → Digits → Bool
is_zero_from zero i x = true
is_zero_from (suc left) i x =
    let rest = is_zero_from left (i + 1) x in if x i == 0 then rest else false

unfoldable pub is_zero : ℕ → Digits → Bool
unfolding is_zero_from
is_zero n x = is_zero_from n 0 x

-- The loops from `n - 1` down to 0 recur on the number of digits that are left.
unfoldable pub add_loop : ℕ → ℕ → Digits → Digits → Digits
add_loop zero carry x y = x
add_loop (suc i) carry x y =
    let s = wrap (x i + wrap (y i + carry)) in
    let small = is_below s base in
    add_loop i (if small then 0 else 1) (update x i (if small then s else minus s base)) y

unfoldable pub add : ℕ → Digits → Digits → Digits
unfolding add_loop
add n x y = add_loop n 0 x y

-- `x[i] += B; x[i-1]--;`
abbrev pub borrow : ℕ → Digits → Digits
borrow zero x = x
borrow (suc j) x =
    let x1 = update x (suc j) (wrap (x (suc j) + base)) in update x1 j (minus (x1 j) 1)

unfoldable pub sub_loop : ℕ → Digits → Digits → Digits
sub_loop zero x y = x
sub_loop (suc i) x y =
    let x1 = update x i (minus (x i) (y i)) in
    sub_loop i (if is_negative (x1 i) then borrow i x1 else x1) y

unfoldable pub sub : ℕ → Digits → Digits → Digits
unfolding sub_loop
sub n x y = sub_loop n x y

unfoldable pub mul_loop : ℕ → ℕ → Digits → ℕ → Digits
mul_loop zero carry x q = x
mul_loop (suc i) carry x q =
    let xi = wrap (wrap (x i * q) + carry) in
    let small = is_below xi base in
    mul_loop i (if small then 0 else xi / base)
      (update x i (if small then xi else minus xi (wrap (xi / base * base)))) q

unfoldable pub mul : ℕ → Digits → ℕ → Digits
unfolding mul_loop
mul n x q = mul_loop n 0 x q

-- By the rounds that are left. The quotient may be stored in `x` itself: the loop reads x[i]
-- before it writes y[i], and never after.
unfoldable pub div_loop : ℕ → ℕ → ℕ → Digits → ℕ → Digits → Digits
div_loop zero i carry x d y = y
div_loop (suc left) i carry x d y =
    let xi = wrap (x i + wrap (carry * base)) in
    let q = quotient xi d in div_loop left (i + 1) (minus xi (wrap (q * d))) x d (update y i q)

unfoldable pub div : ℕ → Digits → ℕ → Digits → Digits
unfolding div_loop
div n x d y = div_loop n 0 0 x d y

-- The next power of the loop of `arccot`: one division for small `p`, two for large.
abbrev pub next_power : ℕ → ℕ → Digits → Digits
next_power p n u =
    if is_below p max_div then div n u (wrap (p * p)) u else (let u1 = div n u p u in div n u1 p u1)

-- The loop on fuel; `v` is the buffer of the summand.
unfoldable pub arccot_loop : ℕ → ℕ → ℕ → ℕ → Bool → Digits → Digits → Digits → Option Digits
arccot_loop zero p n k sign x u v = none
arccot_loop (suc fuel) p n k sign x u v =
    let u' = next_power p n u in
    let v' = div n u' k v in
    let rest =
      arccot_loop fuel p n (wrap (k + 2)) (not sign) (if sign then add n x v' else sub n x v') u'
        v' in
    if is_zero n u then some x else rest

unfoldable pub arccot : ℕ → ℕ → ℕ → Digits → Digits → Digits → Option Digits
unfolding arccot_loop
arccot fuel p n x u v =
    let x1 = set_to_integer n x 0 in
    let u1 = set_to_integer n u 1 in
    let u2 = div n u1 p u1 in arccot_loop fuel p n 3 false (add n x1 u2) u2 v
