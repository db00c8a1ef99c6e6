-- ===== src/Str/Copy.antt =====
-- The string routines of lib/string.c that read up to the terminating zero.
use simplix.Base.{
  ℕ, zero, suc, ◌+◌, ◌-◌, ◌≤◌, ◌<◌, ◌≡◌, refl, ap, ◌∙◌, ◌⊎◌, inl, inr, ◌&&◌, false, some, arith,
  ltb, leb, ◌==◌, if◌then◌else◌, update, Bool-cases,
}
use simplix.Str.{Memory, strlen, strlen_loop, strcpy, strncpy, strncpy_loop, strncpy_pad}

-- At `p` stands a string of `n` characters, with the zero behind it.
abbrev pub IsString : Memory → ℕ → ℕ → Type 0
IsString mem p n = ((i : ℕ) → i < n → (mem (p + i) == 0) ≡ false) × (mem (p + n) ≡ 0)

pub IsString-tail : (mem : Memory) (p n : ℕ) → IsString mem p (suc n) → IsString mem (p + 1) n
IsString-tail mem p n (chars, end) = (
  λ i h. (let e : p + 1 + i ≡ p + suc i = omega arith in rw e (chars (suc i) (omega arith))),
  let e : p + 1 + n ≡ p + suc n = omega arith in rw e end,
)

pub IsString-head : (mem : Memory) (p n : ℕ) → IsString mem p (suc n) → (mem p == 0) ≡ false
IsString-head mem p n (chars, end) =
    let e : p + 0 ≡ p = omega arith in rw e at (chars 0 (omega arith))

pub IsString-nil : (mem : Memory) (p : ℕ) → IsString mem p zero → mem p ≡ 0
IsString-nil mem p (chars, end) = let e : p + 0 ≡ p = omega arith in rw e at end

pub IsString-update :
    (mem : Memory) (p n i v : ℕ)
    → (i < p) ⊎ (p + n < i)
    → IsString mem p n
    → IsString (update mem i v) p n
IsString-update mem p n i v out (chars, end) = (λ j h. ground (arith, chars j), ground arith)

strlen_loop_lem :
    (fuel p n : ℕ) (mem : Memory)
    → IsString mem p n
    → n < fuel
    → strlen_loop fuel p mem ≡ some (p + n + 1)
unfolding strlen_loop
strlen_loop_lem zero p n mem s f = absurd (omega arith)
strlen_loop_lem (suc fuel) p zero mem s f = ground (arith, IsString-nil mem p s)
strlen_loop_lem (suc fuel) p (suc n) mem s f =
    ground
      (arith, IsString-head mem p n s, strlen_loop_lem fuel (p + 1) n mem (IsString-tail mem p n s))

strlen-loop :
    (fuel p q : ℕ) (mem : Memory)
    → strlen_loop fuel p mem ≡ some q
    → strlen fuel p mem ≡ some (q - p)
unfolding strlen
strlen-loop fuel p q mem e = rw (strlen, e) refl

-- With more fuel than characters, `strlen` returns one more than the number of characters before
-- the terminating zero.
pub strlen-IsString :
    (fuel p n : ℕ) (mem : Memory) → IsString mem p n → n < fuel → strlen fuel p mem ≡ some (n + 1)
strlen-IsString fuel p n mem s f =
    let e : p + n + 1 - p ≡ n + 1 = omega arith in
    rw e at (strlen-loop fuel p (p + n + 1) mem (strlen_loop_lem fuel p n mem s f))

-- The memory whose `n` bytes from `dst` on are the first `len` bytes from `src` and then zeros.
abbrev pub with_string : ℕ → ℕ → ℕ → ℕ → Memory → Memory
with_string dst src len n mem i =
    if leb dst i && ltb i (dst + n)
    then if ltb i (dst + len) then mem (src + (i - dst)) else 0
    else mem i

same_char :
    (mem : Memory) (dst src i : ℕ)
    → dst < i
    → mem (src + 1 + (i - (dst + 1))) ≡ mem (src + (i - dst))
same_char mem dst src i h = ap mem (omega arith)

first_char : (mem : Memory) (dst src : ℕ) → mem (src + (dst - dst)) ≡ mem src
first_char mem dst src = ap mem (omega arith)

-- The first character is written before the others.
with_string-step :
    (dst src len n : ℕ) (mem : Memory) (i : ℕ)
    → (dst ≤ src) ⊎ (src + len < dst)
    → with_string (dst + 1) (src + 1) len n (update mem dst (mem src)) i
      ≡ with_string dst src (suc len) (suc n) mem i
with_string-step dst src len n mem i apart = elim (Bool-cases (dst == i)) [
  | inl e ↦ let q : i ≡ dst = ground arith in rw q (ground (arith, first_char mem dst src))
  | inr e ↦ ground (arith, same_char mem dst src i)
]

-- With more fuel than characters, `strcpy` between areas that do not overlap copies the characters
-- and the terminating zero and changes no other byte.
pub strcpy-IsString :
    (fuel dst src n : ℕ) (mem : Memory)
    → IsString mem src n
    → (dst + n < src) ⊎ (src + n < dst)
    → n < fuel
    → (mem' : Memory) × (strcpy fuel dst src mem ≡ some mem')
      × ((i : ℕ) → mem' i ≡ with_string dst src n (suc n) mem i)
unfolding strcpy
strcpy-IsString zero dst src n mem s apart f = absurd (omega arith)
strcpy-IsString (suc fuel) dst src zero mem s apart f =
    (update mem dst 0, ground (arith, IsString-nil mem src s), λ i. ground arith)
strcpy-IsString (suc fuel) dst src (suc n) mem s apart f =
    let tail =
      IsString-update mem (src + 1) n dst (mem src) (omega arith) (IsString-tail mem src n s) in
    let (mem', ran, is) =
      strcpy-IsString fuel (dst + 1) (src + 1) n (update mem dst (mem src)) tail (omega arith)
        (omega arith) in
    (
      mem',
      ground (arith, IsString-head mem src n s),
      λ i. is i ∙ with_string-step dst src n (suc n) mem i (omega arith),
    )

pad_lem :
    (left i dest : ℕ) (mem : Memory) (j : ℕ)
    → strncpy_pad left i dest mem j
      ≡ (if leb (dest + i) j && ltb j (dest + i + left) then 0 else mem j)
unfolding strncpy_pad
pad_lem zero i dest mem j = ground arith
pad_lem (suc left) i dest mem j =
    ground (arith, pad_lem left (i + 1) dest (update mem (dest + i) 0) j)

strncpy_loop_lem :
    (left i dest src len : ℕ) (mem : Memory) (j : ℕ)
    → IsString mem (src + i) len
    → (dest + i + left ≤ src + i) ⊎ (src + i + len < dest + i)
    → strncpy_loop left i dest src mem j ≡ with_string (dest + i) (src + i) len left mem j
unfolding strncpy_loop
strncpy_loop_lem zero i dest src len mem j s apart = ground arith
strncpy_loop_lem (suc left) i dest src zero mem j s apart =
    ground (arith, IsString-nil mem (src + i) s, pad_lem (suc left) i dest mem j)
strncpy_loop_lem (suc left) i dest src (suc len) mem j s apart =
    let char = IsString-head mem (src + i) len s in
    let p : src + (i + 1) ≡ src + i + 1 = omega arith in
    let q : dest + (i + 1) ≡ dest + i + 1 = omega arith in
    let tail : IsString (update mem (dest + i) (mem (src + i))) (src + (i + 1)) len = rw p (
      IsString-update mem (src + i + 1) len (dest + i) (mem (src + i)) (omega arith)
        (IsString-tail mem (src + i) len s)) in
    let ih =
      strncpy_loop_lem left (i + 1) dest src len (update mem (dest + i) (mem (src + i))) j tail
        (omega arith) in
    let ih' = rw (p, q) at ih in
    rw char (ih' ∙ with_string-step (dest + i) (src + i) len left mem j (omega arith))

-- `strncpy` from a string to an area of `n` bytes that does not overlap it fills exactly this area,
-- with the first characters of the string and then with zeros.
pub strncpy-IsString :
    (dest src n len : ℕ) (mem : Memory) (j : ℕ)
    → IsString mem src len
    → (dest + n ≤ src) ⊎ (src + len < dest)
    → strncpy dest src n mem j ≡ with_string dest src len n mem j
unfolding strncpy
strncpy-IsString dest src n len mem j s apart =
    let p : src + 0 ≡ src = omega arith in
    let q : dest + 0 ≡ dest = omega arith in
    let lem = strncpy_loop_lem n 0 dest src len mem j (rw p s) (omega arith) in rw (p, q) at lem
