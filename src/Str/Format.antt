-- ===== src/Str/Format.antt =====
-- vsnprintf and snprintf of lib/string.c. The text is written to the memory that the format and the
-- strings are read from. The arguments are the words on the stack, by their position. A `goto end`
-- is the mark `full`, behind which nothing is written any more. `minwidth` is `none` where it is -1.
-- A loop over characters takes fuel: a number of rounds, behind which it is cut off.
use simplix.Base.{
  ℕ, zero, suc, ◌+◌, ◌-◌, ◌*◌, ◌/◌, ◌%◌, ◌^◌, Bool, true, false, ◌&&◌, ◌||◌, Option, none, some,
  List, [], ◌∷◌, length, ltb, leb, ◌==◌, if◌then◌else◌, update,
}
use simplix.Str.{Memory}

pub record Out : Type 0 where
  pub to : ℕ
  pub mem : Memory
  pub count : ℕ
  pub full : Bool

-- OUTPUTCHAR. The size is a number of 32 bits, so that `size-1` is large for a size of 0.
unfoldable pub put : ℕ → ℕ → Out → Out
put size c o = if o.full then o else record {
  to = o.to + 1;
  mem = update o.mem o.to (c % 2 ^ 8);
  count = o.count + 1;
  full = leb ((size + 2 ^ 32 - 1) % 2 ^ 32) (o.count + 1);
}

unfoldable pub put_string : ℕ → ℕ → ℕ → Out → Out
put_string zero size s o = o
put_string (suc fuel) size s o =
    let rest = put_string fuel size (s + 1) (put size (o.mem s) o) in
    if o.mem s == 0 then o else rest

unfoldable pub put_many : ℕ → ℕ → ℕ → Out → Out
put_many zero size c o = o
put_many (suc n) size c o = put_many n size c (put size c o)

-- The digits of a number, the last one first, by the length of the array; the loop runs once at
-- least.
unfoldable pub digits_of : ℕ → ℕ → ℕ → List ℕ
digits_of zero base n = []
digits_of (suc room) base n =
    let rest = digits_of room base (n / base) in n % base ∷ (if n / base == 0 then [] else rest)

unfoldable pub put_digits : (ℕ → ℕ) → List ℕ → ℕ → Out → Out
put_digits show [] size o = o
put_digits show (d ∷ ds) size o = put size (show d) (put_digits show ds size o)

-- The characters that fill up the width, and the digits.
unfoldable pub put_number : (ℕ → ℕ) → List ℕ → Option ℕ → Bool → ℕ → Out → Out
put_number show ds minwidth zeropad size o =
    let pads : ℕ = elim minwidth [ none ↦ 0 | some m ↦ m - length ds ] in
    put_digits show ds size (put_many pads size (if zeropad then 48 else 32) o)

abbrev pub decimal : ℕ → ℕ
decimal d = 48 + d

abbrev pub hexadecimal : ℕ → ℕ → ℕ
hexadecimal c d = if ltb d 10 then 48 + d else if c == 120 then 97 + d - 10 else 65 + d - 10

-- `%d`. The smallest number is its own negation; its last digit is -8, and it has no other.
unfoldable pub put_signed : ℕ → Option ℕ → Bool → ℕ → Out → Out
put_signed n minwidth zeropad size o =
    if ltb n (2 ^ 31)
    then put_number decimal (digits_of 10 10 n) minwidth zeropad size o
    else if n == 2 ^ 31
    then put_number (λ d. 48 - 8) (0 ∷ []) minwidth zeropad size (put size 45 o)
    else put_number decimal (digits_of 10 10 (2 ^ 32 - n)) minwidth zeropad size (put size 45 o)

-- The state of the loop over the format: the positions in it and among the arguments.
pub record FormatState : Type 0 where
  pub i : ℕ
  pub arg : ℕ
  pub minwidth : Option ℕ
  pub zeropad : Bool
  pub out : Out

abbrev pub is_conversion : ℕ → Bool
is_conversion c = c == 117 || c == 100 || c == 120 || c == 88

-- The loop behind `%.`, from position `j` on. A position that is not at a conversion is left where
-- it was.
unfoldable pub scan_width : ℕ → ℕ → ℕ → ℕ → FormatState → FormatState
scan_width zero format j width s = record s { minwidth = some width }
scan_width (suc fuel) format j width s =
    let c = s.out.mem (format + j) in
    let digit = leb 48 c && leb c 57 in
    let rest =
      scan_width fuel format (j + 1) (10 * width + (c - 48))
        (if c == 48 && j == s.i then record s { zeropad = true } else s) in
    if c == 0
    then record s { minwidth = some width }
    else if digit
    then rest
    else if is_conversion c
    then record s { i = j; minwidth = some width }
    else record s { minwidth = some width }

-- The cases of the switch that print a number, and the default.
unfoldable pub convert_number : ℕ → ℕ → ℕ → FormatState → FormatState
convert_number size word c s =
    let number : Out → FormatState = λ o. record s { arg = s.arg + 1; minwidth = none; out = o } in
    if c == 117
    then number (put_number decimal (digits_of 10 10 word) s.minwidth s.zeropad size s.out)
    else if c == 100
    then number (put_signed word s.minwidth s.zeropad size s.out)
    else if c == 120 || c == 88
    then number (put_number (hexadecimal c) (digits_of 8 16 word) s.minwidth s.zeropad size s.out)
    else record s { out = put size c (put size 37 s.out) }

-- One round of the switch, for the character `c` and the words `args` of the stack.
unfoldable pub convert : ℕ → ℕ → ℕ → (ℕ → ℕ) → ℕ → FormatState → FormatState
convert fuel size format args c s =
    let word = args s.arg % 2 ^ 32 in
    let next : Out → FormatState = λ o. record s { arg = s.arg + 1; out = o } in
    if c == 37
    then record s { out = put size 37 (put size 37 s.out) }
    else if c == 99
    then next (put size word s.out)
    else if c == 115
    then next (put_string fuel size word s.out)
    else if c == 46
    then scan_width fuel format s.i 0 (record s { zeropad = false })
    else convert_number size word c s

-- A round of the loop over the format, for a character `c` that does not end it. While a width is
-- pending, each character is a conversion.
unfoldable pub format_round : ℕ → ℕ → ℕ → (ℕ → ℕ) → ℕ → FormatState → FormatState
format_round fuel size format args c s =
    let pending : Bool = elim s.minwidth [ none ↦ false | some _ ↦ true ] in
    if pending
    then convert fuel size format args c (record s { i = s.i + 1 })
    else if c == 37
    then convert fuel size format args (s.out.mem (format + (s.i + 1))) (record s { i = s.i + 2 })
    else record s { i = s.i + 1; out = put size c s.out }

unfoldable pub format_loop : ℕ → ℕ → ℕ → (ℕ → ℕ) → FormatState → FormatState
format_loop zero size format args s = s
format_loop (suc fuel) size format args s =
    let c = s.out.mem (format + s.i) in
    let rest = format_loop fuel size format args (format_round fuel size format args c s) in
    if s.out.full || c == 0 then s else rest

-- The result counts the zero at the end.
unfoldable pub vsnprintf : ℕ → ℕ → ℕ → ℕ → (ℕ → ℕ) → Memory → ℕ × Memory
vsnprintf fuel str size format args mem =
    let start : Out = record { to = str; mem = mem; count = 0; full = false } in
    let s =
      format_loop fuel size format args
        (record { i = 0; arg = 0; minwidth = none; zeropad = false; out = start }) in
    (s.out.count + 1, update s.out.mem s.out.to 0)

unfoldable pub snprintf : ℕ → ℕ → ℕ → ℕ → (ℕ → ℕ) → Memory → ℕ × Memory
snprintf fuel str size format args mem = vsnprintf fuel str size format args mem
