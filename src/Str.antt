-- ===== src/Str.antt =====
-- The routines of lib/string.c. Memory is a function from addresses to bytes.
-- A loop over a count recurs on the count; a loop up to the terminating zero takes fuel.
pub mod Block
pub mod Copy
pub mod Compare
pub mod Format
pub mod Printed
pub mod Digits
mod Tests
use simplix.Base.{
  ℕ, zero, suc, ◌+◌, ◌-◌, ◌*◌, ◌%◌, ◌^◌, Option, none, some, ltb, ◌==◌, if◌then◌else◌, update,
}

abbrev pub Memory : Type 0
Memory = ℕ → ℕ

-- `while (size-- > 0) *p++ = c;` with `c` cut to a byte.
unfoldable pub memset : ℕ → ℕ → ℕ → Memory → Memory
memset p c zero mem = mem
memset p c (suc size) mem = memset (p + 1) c size (update mem p (c % 2 ^ 8))

-- `while (n-- > 0) *d++ = *s++;`
unfoldable pub memcpy : ℕ → ℕ → ℕ → Memory → Memory
memcpy d s zero mem = mem
memcpy d s (suc n) mem = memcpy (d + 1) (s + 1) n (update mem d (mem s))

-- `while (*s++ != '\0') ;`
unfoldable pub strlen_loop : ℕ → ℕ → Memory → Option ℕ
strlen_loop zero s mem = none
strlen_loop (suc fuel) s mem =
    let rest = strlen_loop fuel (s + 1) mem in if mem s == 0 then some (s + 1) else rest

-- `none` means that the fuel ran out.
unfoldable pub strlen : ℕ → ℕ → Memory → Option ℕ
unfolding strlen_loop
strlen fuel str mem = elim (strlen_loop fuel str mem) [ none ↦ none | some s ↦ some (s - str) ]

unfoldable pub strcpy : ℕ → ℕ → ℕ → Memory → Option Memory
strcpy zero dst src mem = none
strcpy (suc fuel) dst src mem =
    let rest = strcpy fuel (dst + 1) (src + 1) (update mem dst (mem src)) in
    if mem src == 0 then some (update mem dst 0) else rest

-- The two loops of `strncpy`, by the rounds that are left.
unfoldable pub strncpy_pad : ℕ → ℕ → ℕ → Memory → Memory
strncpy_pad zero i dest mem = mem
strncpy_pad (suc left) i dest mem = strncpy_pad left (i + 1) dest (update mem (dest + i) 0)

unfoldable pub strncpy_loop : ℕ → ℕ → ℕ → ℕ → Memory → Memory
unfolding strncpy_pad
strncpy_loop zero i dest src mem = mem
strncpy_loop (suc left) i dest src mem =
    let rest = strncpy_loop left (i + 1) dest src (update mem (dest + i) (mem (src + i))) in
    if mem (src + i) == 0 then strncpy_pad (suc left) i dest mem else rest

unfoldable pub strncpy : ℕ → ℕ → ℕ → Memory → Memory
unfolding strncpy_loop
strncpy dest src n mem = strncpy_loop n 0 dest src mem

-- A char is a signed byte; the difference of two is given by its 32-bit pattern.
abbrev pub char_to_int : ℕ → ℕ
char_to_int c = if ltb c 128 then c else c + 2 ^ 32 - 256

unfoldable pub strcmp : ℕ → ℕ → ℕ → Memory → Option ℕ
strcmp zero s1 s2 mem = none
strcmp (suc fuel) s1 s2 mem =
    let rest = strcmp fuel (s1 + 1) (s2 + 1) mem in
    if mem s1 == mem s2
    then if mem s1 == 0 then some 0 else rest
    else some ((char_to_int (mem s1) + 2 ^ 32 - char_to_int (mem s2)) % 2 ^ 32)
