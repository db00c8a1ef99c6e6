-- ===== src/Str/Tests.antt =====
-- The theorems about lib/string.c at a short format.
use simplix.Base.{◌<◌, ◌≤◌, ◌⊎◌, ◌-◌, ◌+◌, ◌^◌, ℕ, ◌≡◌, refl, ◌==◌, if◌then◌else◌, arith}
use simplix.Str.{Memory}
use simplix.Str.Format.{
  vsnprintf, format_loop, format_round, convert, convert_number, put_signed, put_number, put_digits,
  put_many, digits_of, put,
}
use simplix.Str.Printed.{vsnprintf-inside, vsnprintf-behind}
use simplix.Str.Digits.{value, digits_of-shown}

-- The format "%d!" at 100, for the argument -42 and a buffer at 0.
abbrev format : Memory
format i = if i == 100 then 37 else if i == 101 then 100 else if i == 102 then 33 else 0

vsnprintf_minus_42 :
    let r = vsnprintf 9 0 16 100 (λ _. 2 ^ 32 - 42) format in
    (r.0 ≡ 5) × (r.1 0 ≡ 45) × (r.1 1 ≡ 52) × (r.1 2 ≡ 50) × (r.1 3 ≡ 33) × (r.1 4 ≡ 0)
unfolding vsnprintf format_loop format_round convert convert_number put_signed put_number put_digits
    put_many digits_of put
vsnprintf_minus_42 = (refl, refl, refl, refl, refl, refl)

vsnprintf-inside_example :
    let r = vsnprintf 9 0 4 100 (λ _. 2 ^ 32 - 42) format in
    (0 < r.0)
    × (r.0 ≤ 4)
    × (r.1 (0 + (r.0 - 1)) ≡ 0)
    × ((a : ℕ) → (a < 0) ⊎ (0 + 4 ≤ a) → r.1 a ≡ format a)
vsnprintf-inside_example =
    vsnprintf-inside 9 0 4 100 (λ _. 2 ^ 32 - 42) format (omega arith) (omega arith)

vsnprintf-behind_example :
    let r = vsnprintf (2 + 7) 0 1 101 (λ _. 0) format in (r.0 ≡ 2) × (r.1 (0 + 1) ≡ 0)
vsnprintf-behind_example = vsnprintf-behind 7 0 101 (λ _. 0) format (ground arith) (ground arith)

digits_of-shown_example :
    (value 10 (digits_of 10 10 4294967295) ≡ 4294967295)
    × (value 16 (digits_of 8 16 4294967295) ≡ 4294967295)
digits_of-shown_example = digits_of-shown 4294967295 (omega arith)
