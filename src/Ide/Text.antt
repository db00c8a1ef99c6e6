-- ===== src/Ide/Text.antt =====
-- fix_ide_string of drivers/ide.c: what it leaves at each position.
use simplix.Base.{
  ℕ, zero, suc, ◌+◌, ◌-◌, ◌*◌, ◌/◌, ◌%◌, ◌<◌, ◌≤◌, ◌≡◌, refl, ap, ◌∙◌, arith, inl, inr, true, false,
  ◌==◌, if◌then◌else◌, Bool-cases, ◌≢◌, ◌⊎◌,
}
use simplix.Str.{Memory}
use simplix.Ide.{is_shown, swap_pairs, wipe_back, fix_ide_string}

-- The pairs from position `p` on have their characters swapped.
record IsSwapped (pairs p : ℕ) (s s' : Memory) : Type 0 where
  even : (j : ℕ) → j < pairs → s' (p + 2 * j) ≡ s (p + 2 * j + 1)
  odd : (j : ℕ) → j < pairs → s' (p + 2 * j + 1) ≡ s (p + 2 * j)
  below : (i : ℕ) → i < p → s' i ≡ s i
  above : (i : ℕ) → p + 2 * pairs ≤ i → s' i ≡ s i

swap_pairs-IsSwapped : (pairs p : ℕ) (s : Memory) → IsSwapped pairs p s (swap_pairs pairs p s)
unfolding swap_pairs
swap_pairs-IsSwapped zero p s = record {
  even = λ j l. omega arith;
  odd = λ j l. omega arith;
  below = λ i l. refl;
  above = λ i l. refl;
}
swap_pairs-IsSwapped (suc pairs) p s =
    let s1 : Memory = λ i. if i == p then s (p + 1) else if i == p + 1 then s p else s i in
    let s' = swap_pairs pairs (p + 2) s1 in
    let rest = swap_pairs-IsSwapped pairs (p + 2) s1 in
    record {
      even = λ j. elim j as (λ k. k < suc pairs → s' (p + 2 * k) ≡ s (p + 2 * k + 1)) [
        | zero ↦ λ l.
            let at : p + 2 * 0 ≡ p = omega arith in
            rw at (rest.below p (omega arith) ∙ ground arith)
        | suc k ↦ λ l.
            let at : p + 2 * suc k ≡ p + 2 + 2 * k = omega arith in
            rw at (rest.even k (omega arith) ∙ ground arith)
      ];
      odd = λ j. elim j as (λ k. k < suc pairs → s' (p + 2 * k + 1) ≡ s (p + 2 * k)) [
        | zero ↦ λ l.
            let at : p + 2 * 0 ≡ p = omega arith in
            rw at (rest.below (p + 1) (omega arith) ∙ ground arith)
        | suc k ↦ λ l.
            let at : p + 2 * suc k ≡ p + 2 + 2 * k = omega arith in
            rw at (rest.odd k (omega arith) ∙ ground arith)
      ];
      below = λ i l. rest.below i (omega arith) ∙ ground arith;
      above = λ i l. rest.above i (omega arith) ∙ ground arith;
    }

-- The characters behind the last shown one before position `p` are wiped, and no others.
record IsWiped (p : ℕ) (s s' : Memory) : Type 0 where
  wiped : (i : ℕ) → i < p → ((j : ℕ) → i ≤ j → j < p → is_shown (s j) ≡ false) → s' i ≡ 0
  shown : (i j : ℕ) → i ≤ j → j < p → is_shown (s j) ≡ true → s' i ≡ s i
  above : (i : ℕ) → p ≤ i → s' i ≡ s i

wipe_back-IsWiped : (p : ℕ) (s : Memory) → IsWiped p s (wipe_back p s)
unfolding wipe_back
wipe_back-IsWiped zero s = record {
  wiped = λ i l none_. omega arith;
  shown = λ i j le l e. omega arith;
  above = λ i l. refl;
}
wipe_back-IsWiped (suc p) s = elim (Bool-cases (is_shown (s p))) [
  | inl e ↦ rw e (record {
    wiped = λ i l none_. let no = none_ p (omega arith) (omega arith) in cc;
    shown = λ i j le l e'. refl;
    above = λ i l. refl;
  })
  | inr e ↦
      let s1 : Memory = λ i. if i == p then 0 else s i in
      let rest = wipe_back-IsWiped p s1 in
      let same : (j : ℕ) → j < p → s1 j ≡ s j = λ j l. ground arith in
      rw e (record {
        wiped = λ i l none_. elim (Bool-cases (i == p)) [
          | inl at ↦ rest.above i (ground arith) ∙ ground arith
          | inr off ↦
              let i_lt : i < p = ground arith in
              rest.wiped i i_lt (λ j le j_lt. ap is_shown (same j j_lt) ∙ none_ j le (omega arith))
        ];
        shown = λ i j le l shown.
            let off : j ≢ p = λ at. cc in
            let j_lt : j < p = omega (arith, off) in
            rest.shown i j le j_lt (ap is_shown (same j j_lt) ∙ shown) ∙ same i (omega arith);
        above = λ i l. rest.above i (omega arith) ∙ ground arith;
      })
]

hidden : (c : ℕ) → (c ≤ 32) ⊎ (127 ≤ c) → is_shown c ≡ false
hidden c (inl le) = ground arith
hidden c (inr le) = ground arith

-- The character at a position, once those of each pair are swapped.
abbrev pub swapped : Memory → Memory
swapped s i = if i % 2 == 0 then s (i + 1) else s (i - 1)

swap_pairs-swapped :
    (pairs i : ℕ) (s : Memory) → i < 2 * pairs → swap_pairs pairs 0 s i ≡ swapped s i
swap_pairs-swapped pairs i s l =
    let all = swap_pairs-IsSwapped pairs 0 s in
    let at : i % 2 ≡ 0 → 0 + 2 * (i / 2) ≡ i = λ e. omega arith in
    let at' : i % 2 ≡ 1 → 0 + 2 * (i / 2) + 1 ≡ i = λ e. omega arith in
    let back : i % 2 ≡ 1 → 0 + 2 * (i / 2) ≡ i - 1 = λ e. omega arith in
    elim (Bool-cases (i % 2 == 0)) [
      | inl e ↦
          let even : i % 2 ≡ 0 = ground arith in
          rw e (rw (at even) at (all.even (i / 2) (omega arith)))
      | inr e ↦
          let not_even : i % 2 ≢ 0 = ground arith in
          let odd : i % 2 ≡ 1 = omega (arith, not_even) in
          rw e (rw (back odd) at (rw (at' odd) at (all.odd (i / 2) (omega arith))))
    ]

-- The string that the routine leaves. A length of an odd number of bytes counts as the one below.
pub record IsFixed (len : ℕ) (s s' : Memory) : Type 0 where
  -- The text: the characters of each pair are swapped, up to the last one between 33 and
  -- 126.
  pub text :
      (i j : ℕ) → i ≤ j → j + 2 < len → 32 < swapped s j → swapped s j < 127 → s' i ≡ swapped s i
  pub garbage :
      (i : ℕ)
      → i + 2 < len
      → ((j : ℕ) → i ≤ j → j + 2 < len → (swapped s j ≤ 32) ⊎ (127 ≤ swapped s j))
      → s' i ≡ 0
  pub before_last : (i : ℕ) → i + 2 ≡ len → s' i ≡ s (i + 1)
  pub last : (i : ℕ) → i + 1 ≡ len → s' i ≡ 0
  pub above : (i : ℕ) → len ≤ i → s' i ≡ s i

-- In a string of 2 bytes at least, cut to an even length, fix_ide_string swaps the characters of each
-- pair, and then: of the bytes before the last two, those up to the last character from 33 to 126 are
-- kept and those behind it are 0; the last byte but one keeps its swapped character, whatever it is;
-- the last byte is 0; and no byte from the end on is changed.
pub fix_ide_string-IsFixed :
    (len : ℕ) (s : Memory) → 2 ≤ len → IsFixed (len / 2 * 2) s (fix_ide_string len s)
unfolding fix_ide_string
fix_ide_string-IsFixed len s l =
    let pairs = len / 2 in
    let end = len / 2 * 2 in
    let s1 : Memory = λ i. if i == end - 1 then 0 else swap_pairs pairs 0 s i in
    let back = wipe_back-IsWiped (end - 2) s1 in
    let all = swap_pairs-IsSwapped pairs 0 s in
    let two : 2 ≤ end = omega arith in
    let same : (i : ℕ) → i + 2 ≤ end → s1 i ≡ swapped s i = λ i l.
      let off : i ≢ end - 1 = omega arith in
      let at : s1 i ≡ swap_pairs pairs 0 s i = ground arith in
      at ∙ swap_pairs-swapped pairs i s (omega arith) in
    record {
      text = λ i j le l lo hi.
          back.shown i j le (omega arith) (ap is_shown (same j (omega arith)) ∙ ground arith)
          ∙ same i (omega arith);
      garbage = λ i l none_.
          back.wiped i (omega arith)
            (λ j le j_lt. ap is_shown (same j (omega arith)) ∙ hidden _ (none_ j le (omega arith)));
      before_last = λ i at.
          back.above i (omega arith)
          ∙ same i (omega arith)
          ∙ (let even : i % 2 ≡ 0 = omega arith in ground arith);
      last = λ i at. back.above i (omega arith) ∙ ground arith;
      above = λ i l.
          back.above i (omega arith)
          ∙ (let off : i ≢ end - 1 = omega arith in
              let at : s1 i ≡ swap_pairs pairs 0 s i = ground arith in
              at ∙ all.above i (omega arith));
    }
