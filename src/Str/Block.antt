-- ===== src/Str/Block.antt =====
-- memset and memcpy change the given range and nothing else.
use simplix.Base.{
  ℕ, zero, suc, ◌+◌, ◌-◌, ◌%◌, ◌^◌, ◌≤◌, ◌≡◌, ◌⊎◌, ◌&&◌, arith, ltb, leb, if◌then◌else◌, update,
}
use simplix.Str.{Memory, memset, memcpy}

-- After memset each byte of the range is the low byte of `c`, and every other byte is as before.
pub memset_lem :
    (p c size : ℕ) (mem : Memory) (i : ℕ)
    → memset p c size mem i ≡ (if leb p i && ltb i (p + size) then c % 2 ^ 8 else mem i)
unfolding memset
memset_lem p c zero mem i = ground arith
memset_lem p c (suc size) mem i =
    ground (arith, memset_lem (p + 1) c size (update mem p (c % 2 ^ 8)) i)

-- After memcpy between ranges that do not overlap the destination holds the source's bytes, and
-- every other byte is as before. It also holds if the destination begins below the source.
pub memcpy_lem :
    (d s n : ℕ) (mem : Memory) (i : ℕ)
    → (d ≤ s) ⊎ (s + n ≤ d)
    → memcpy d s n mem i ≡ (if leb d i && ltb i (d + n) then mem (s + (i - d)) else mem i)
unfolding memcpy
memcpy_lem d s zero mem i h = ground arith
memcpy_lem d s (suc n) mem i h =
    ground (arith, memcpy_lem (d + 1) (s + 1) n (update mem d (mem s)) i (omega arith))
