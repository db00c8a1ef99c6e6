-- ===== src/Sys/Copies.antt =====
-- sys_fork of kernel/sys.c: the copies that it makes in memory.
use simplix.Base.{
  ℕ, ◌+◌, ◌-◌, ◌*◌, ◌/◌, ◌<◌, ◌≤◌, ◌≡◌, ap, ◌∙◌, arith, ◌⊎◌, inl, inr, true, false, List, leb, ltb,
  ◌&&◌, if◌then◌else◌, Bool-cases,
}
use simplix.Str.{Memory, memcpy}
use simplix.Str.Block.{memcpy_lem}
use simplix.PhysMem.{page_size}
use simplix.PhysMem.Fit.{covers}
use simplix.Sys.{store_word}
use simplix.Sys.Wait.{store_word-outside}
use simplix.Sys.Fork.{kstack_size, context_size, eax_offset}

-- The place of EAX in the context that the new task is resumed with.
abbrev pub eax_at : ℕ → ℕ
eax_at b1 = b1 * page_size + kstack_size - context_size + eax_offset

-- The three writes to memory.
abbrev pub fork_memory : ℕ → ℕ → ℕ → ℕ → ℕ → Memory → Memory
fork_memory q i n b1 b2 mem = store_word (eax_at b1) 0 (
    memcpy (b2 * page_size) (i * page_size) (n * page_size)
      (memcpy (b1 * page_size) (q * page_size) page_size mem))

-- With a new stack and image that meet nothing that was allocated.
pub record IsApart (q i n b1 b2 : ℕ) (xs : List (ℕ × ℕ)) : Type 0 where
  pub stack : (b1 + 1 ≤ q) ⊎ (q + 1 ≤ b1)
  pub image : (b2 + n ≤ i) ⊎ (i + n ≤ b2)
  pub new : (b2 + n ≤ b1) ⊎ (b1 + 1 ≤ b2)
  pub stack_image : (b1 + 1 ≤ i) ⊎ (i + n ≤ b1)
  pub stack_free : covers b1 xs ≡ false
  pub image_free : (j : ℕ) → b2 ≤ j → j < b2 + n → covers j xs ≡ false

module _ (q i n b1 b2 : ℕ) (xs : List (ℕ × ℕ)) (p : IsApart q i n b1 b2 xs) (mem : Memory) where
  abbrev first_copy : Memory
  first_copy = memcpy (b1 * page_size) (q * page_size) page_size mem

  first_lem :
      (a : ℕ)
      → first_copy a ≡ (
          if leb (b1 * page_size) a && ltb a (b1 * page_size + page_size)
          then mem (q * page_size + (a - b1 * page_size))
          else mem a)
  first_lem a =
      memcpy_lem (b1 * page_size) (q * page_size) page_size mem a
        (elim p.stack [ inl h ↦ inl (omega arith) | inr h ↦ inr (omega arith) ])

  abbrev second_copy : Memory
  second_copy = memcpy (b2 * page_size) (i * page_size) (n * page_size) first_copy

  second_lem :
      (a : ℕ)
      → second_copy a ≡ (
          if leb (b2 * page_size) a && ltb a (b2 * page_size + n * page_size)
          then first_copy (i * page_size + (a - b2 * page_size))
          else first_copy a)
  second_lem a =
      memcpy_lem (b2 * page_size) (i * page_size) (n * page_size) first_copy a
        (elim p.image [ inl h ↦ inl (omega arith) | inr h ↦ inr (omega arith) ])

  -- What the copies leave at an address, by where it is.
  first_in : (j : ℕ) → j < page_size → first_copy (b1 * page_size + j) ≡ mem (q * page_size + j)
  first_in j l =
      let same : b1 * page_size + j - b1 * page_size ≡ j = omega arith in
      ground (arith, first_lem (b1 * page_size + j), ap (λ x. mem (q * page_size + x)) same)

  first_out : (a : ℕ) → (a < b1 * page_size) ⊎ ((b1 + 1) * page_size ≤ a) → first_copy a ≡ mem a
  first_out a h = ground (arith, first_lem a)

  second_in :
      (j : ℕ)
      → j < n * page_size
      → second_copy (b2 * page_size + j) ≡ first_copy (i * page_size + j)
  second_in j l =
      let same : b2 * page_size + j - b2 * page_size ≡ j = omega arith in
      ground (arith, second_lem (b2 * page_size + j), ap (λ x. first_copy (i * page_size + x)) same)

  second_out :
      (a : ℕ) → (a < b2 * page_size) ⊎ ((b2 + n) * page_size ≤ a) → second_copy a ≡ first_copy a
  second_out a h = ground (arith, second_lem a)

  pub fork_memory-copied :
      (j : ℕ)
      → j < n * page_size
      → fork_memory q i n b1 b2 mem (b2 * page_size + j) ≡ mem (i * page_size + j)
  fork_memory-copied j l =
      store_word-outside (eax_at b1) 0 (b2 * page_size + j) second_copy
        (elim p.new [ inl h ↦ inl (omega arith) | inr h ↦ inr (omega arith) ])
      ∙ second_in j l
      ∙ first_out (i * page_size + j)
          (elim p.stack_image [ inl h ↦ inr (omega arith) | inr h ↦ inl (omega arith) ])

  pub fork_memory-stack :
      (j : ℕ)
      → j < page_size
      → (b1 * page_size + j < eax_at b1) ⊎ (eax_at b1 + 4 ≤ b1 * page_size + j)
      → fork_memory q i n b1 b2 mem (b1 * page_size + j) ≡ mem (q * page_size + j)
  fork_memory-stack j l h =
      store_word-outside (eax_at b1) 0 (b1 * page_size + j) second_copy h
      ∙ second_out (b1 * page_size + j)
          (elim p.new [ inl h ↦ inr (omega arith) | inr h ↦ inl (omega arith) ])
      ∙ first_in j l

  -- An address in a page that is covered is not in pages that are not.
  outside :
      (a b k : ℕ)
      → covers (a / page_size) xs ≡ true
      → ((j : ℕ) → b ≤ j → j < b + k → covers j xs ≡ false)
      → (a < b * page_size) ⊎ ((b + k) * page_size ≤ a)
  outside a b k full free = elim (Bool-cases (ltb a (b * page_size))) [
    | inl l ↦ inl (ground arith)
    | inr l ↦ elim (Bool-cases (leb ((b + k) * page_size) a)) [
      | inl u ↦ inr (ground arith)
      | inr u ↦
          let above : b * page_size ≤ a = ground arith in
          let below : a < (b + k) * page_size = ground arith in
          let no = free (a / page_size) (omega arith) (omega arith) in absurd cc
    ]
  ]

  pub fork_memory-kept :
      (a : ℕ) → covers (a / page_size) xs ≡ true → fork_memory q i n b1 b2 mem a ≡ mem a
  fork_memory-kept a full =
      let apart1 =
        outside a b1 1 full (λ j l u. let same : j ≡ b1 = omega arith in rw same p.stack_free) in
      let apart2 = outside a b2 n full p.image_free in
      store_word-outside (eax_at b1) 0 a second_copy
        (elim apart1 [ inl h ↦ inl (omega arith) | inr h ↦ inr (omega arith) ])
      ∙ second_out a apart2
      ∙ first_out a apart1
