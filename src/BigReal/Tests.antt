-- ===== src/BigReal/Tests.antt =====
-- The theorems about the big reals of kernel/main.c at numbers of three digits.
use simplix.Base.{◌/◌, ◌≡◌, arith, ◌==◌, if◌then◌else◌}
use simplix.BigReal.{Digits, div, arccot}
use simplix.BigReal.Value.{value, power, IsReduced}
use simplix.BigReal.Divide.{div-value}
use simplix.BigReal.Arccot.{Returns, arccot-Returns}

-- 3.1415 9265 and 2.7182 8182
abbrev pi : Digits
pi i = if i == 0 then 3 else if i == 1 then 1415 else 9265

abbrev euler : Digits
euler i = if i == 0 then 2 else if i == 1 then 7182 else 8182

pi-IsReduced : IsReduced 3 pi
pi-IsReduced i h = ground arith

div-value_example : (value 3 (div 3 pi 57 pi) ≡ value 3 pi / 57) × IsReduced 3 (div 3 pi 57 pi)
div-value_example = div-value 3 57 pi pi pi-IsReduced (omega arith) (omega arith)

arccot-Returns_example : Returns (arccot 41 18 3 pi euler pi)
unfolding power
arccot-Returns_example =
    arccot-Returns 40 18 3 pi euler pi (omega arith) (omega arith) (omega arith)
