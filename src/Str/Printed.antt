-- ===== src/Str/Printed.antt =====
-- vsnprintf of lib/string.c stays inside of its buffer.
use simplix.Base.{
  ℕ, zero, suc, ◌+◌, ◌-◌, ◌*◌, ◌%◌, ◌^◌, ◌<◌, ◌≤◌, ◌≡◌, ◌≢◌, ◌⊎◌, refl, inl, inr, arith, Bool, true,
  false, ◌&&◌, ◌||◌, Option, none, some, List, [], ◌∷◌, ltb, leb, ◌==◌, if◌then◌else◌, Bool-cases,
  if_both,
}
use simplix.Str.{Memory}
use simplix.Str.Format.{
  Out, put, put_string, put_many, put_digits, put_number, put_signed, FormatState, is_conversion,
  scan_width, convert_number, convert, format_round, format_loop, vsnprintf, hexadecimal, decimal,
}

-- What each single character keeps, all of the routine keeps.
module _ (size : ℕ) (P : Out → Type 0) (kept : (c : ℕ) (o : Out) → P o → P (put size c o)) where
  put_string-kept : (fuel s : ℕ) (o : Out) → P o → P (put_string fuel size s o)
  unfolding put_string
  put_string-kept zero s o p = p
  put_string-kept (suc fuel) s o p =
      if_both P (o.mem s == 0) p
        (put_string-kept fuel (s + 1) (put size (o.mem s) o) (kept (o.mem s) o p))

  put_many-kept : (n c : ℕ) (o : Out) → P o → P (put_many n size c o)
  unfolding put_many
  put_many-kept zero c o p = p
  put_many-kept (suc n) c o p = put_many-kept n c (put size c o) (kept c o p)

  put_digits-kept : (show : ℕ → ℕ) (ds : List ℕ) (o : Out) → P o → P (put_digits show ds size o)
  unfolding put_digits
  put_digits-kept show [] o p = p
  put_digits-kept show (d ∷ ds) o p = kept (show d) _ (put_digits-kept show ds o p)

  put_number-kept :
      (show : ℕ → ℕ) (ds : List ℕ) (minwidth : Option ℕ) (zeropad : Bool) (o : Out)
      → P o
      → P (put_number show ds minwidth zeropad size o)
  unfolding put_number
  put_number-kept show ds minwidth zeropad o p = put_digits-kept show ds _ (put_many-kept _ _ o p)

  put_signed-kept :
      (n : ℕ) (minwidth : Option ℕ) (zeropad : Bool) (o : Out)
      → P o
      → P (put_signed n minwidth zeropad size o)
  unfolding put_signed
  put_signed-kept n minwidth zeropad o p =
      if_both P (ltb n (2 ^ 31)) (put_number-kept decimal _ minwidth zeropad o p) (
        if_both P (n == 2 ^ 31) (put_number-kept _ _ minwidth zeropad _ (kept 45 o p))
          (put_number-kept decimal _ minwidth zeropad _ (kept 45 o p)))

  scan_width-kept :
      (fuel format j width : ℕ) (s : FormatState)
      → P s.out
      → P (scan_width fuel format j width s).out
  unfolding scan_width
  scan_width-kept zero format j width s p = p
  scan_width-kept (suc fuel) format j width s p =
      let c = s.out.mem (format + j) in
      let s' : FormatState = if c == 48 && j == s.i then record s { zeropad = true } else s in
      let p' : P s'.out =
        if_both (λ (x : FormatState). P x.out) (c == 48 && j == s.i)
          {x = record s { zeropad = true }} {y = s} p p in
      let rest = scan_width-kept fuel format (j + 1) (10 * width + (c - 48)) s' p' in
      elim (Bool-cases (c == 0)) [
        | inl e ↦ rw e p
        | inr e ↦ elim (Bool-cases (leb 48 c && leb c 57)) [
          | inl f ↦ rw (e, f) rest
          | inr f ↦ elim (Bool-cases (is_conversion c)) [
            | inl g ↦ rw (e, f, g) p
            | inr g ↦ rw (e, f, g) p
          ]
        ]
      ]

  convert_number-kept :
      (word c : ℕ) (s : FormatState) → P s.out → P (convert_number size word c s).out
  unfolding convert_number
  convert_number-kept word c s p = elim (Bool-cases (c == 117)) [
    | inl e ↦ rw e (put_number-kept decimal _ s.minwidth s.zeropad s.out p)
    | inr e1 ↦ elim (Bool-cases (c == 100)) [
      | inl e ↦ rw (e1, e) (put_signed-kept word s.minwidth s.zeropad s.out p)
      | inr e2 ↦ elim (Bool-cases (c == 120 || c == 88)) [
        | inl e ↦ rw (e1, e2, e) (put_number-kept (hexadecimal c) _ s.minwidth s.zeropad s.out p)
        | inr e3 ↦ rw (e1, e2, e3) (kept c _ (kept 37 s.out p))
      ]
    ]
  ]

  convert-kept :
      (fuel format : ℕ) (args : ℕ → ℕ) (c : ℕ) (s : FormatState)
      → P s.out
      → P (convert fuel size format args c s).out
  unfolding convert
  convert-kept fuel format args c s p =
      let word = args s.arg % 2 ^ 32 in
      elim (Bool-cases (c == 37)) [
        | inl e ↦ rw e (kept 37 _ (kept 37 s.out p))
        | inr e1 ↦ elim (Bool-cases (c == 99)) [
          | inl e ↦ rw (e1, e) (kept word s.out p)
          | inr e2 ↦ elim (Bool-cases (c == 115)) [
            | inl e ↦ rw (e1, e2, e) (put_string-kept fuel word s.out p)
            | inr e3 ↦ elim (Bool-cases (c == 46)) [
              | inl e ↦
                  rw (e1, e2, e3, e)
                    (scan_width-kept fuel format s.i 0 (record s { zeropad = false }) p)
              | inr e4 ↦ rw (e1, e2, e3, e4) (convert_number-kept word c s p)
            ]
          ]
        ]
      ]

  format_round-kept :
      (fuel format : ℕ) (args : ℕ → ℕ) (c : ℕ) (s : FormatState) (width : Option ℕ)
      → s.minwidth ≡ width
      → P s.out
      → P (format_round fuel size format args c s).out
  unfolding format_round
  format_round-kept fuel format args c s (some width) e p =
      rw e (convert-kept fuel format args c _ p)
  format_round-kept fuel format args c s none e p = elim (Bool-cases (c == 37)) [
    | inl f ↦ rw (e, f) (convert-kept fuel format args _ _ p)
    | inr f ↦ rw (e, f) (kept c s.out p)
  ]

  format_loop-kept :
      (fuel format : ℕ) (args : ℕ → ℕ) (s : FormatState)
      → P s.out
      → P (format_loop fuel size format args s).out
  unfolding format_loop
  format_loop-kept zero format args s p = p
  format_loop-kept (suc fuel) format args s p =
      let c = s.out.mem (format + s.i) in
      let rest =
        format_loop-kept fuel format args (format_round fuel size format args c s)
          (format_round-kept fuel format args c s s.minwidth refl p) in
      elim (Bool-cases (s.out.full || c == 0)) [ inl e ↦ simp e p | inr e ↦ simp e rest ]

-- The text so far is in the buffer of `size` bytes at `str`, with room for the zero at the end, and
-- for another character unless the routine is at its end; every other byte is as in `mem`.
record IsOut (str size : ℕ) (mem : Memory) (o : Out) : Type 0 where
  place : o.to ≡ str + o.count
  room : o.count + 1 ≤ size
  more : o.full ≡ false → o.count + 1 < size
  outside : (a : ℕ) → (a < str) ⊎ (str + size ≤ a) → o.mem a ≡ mem a

put-IsOut :
    (str size : ℕ) (mem : Memory)
    → 2 ≤ size
    → size < 2 ^ 32
    → (c : ℕ) (o : Out) → IsOut str size mem o
    → IsOut str size mem (put size c o)
unfolding put
put-IsOut str size mem l u c o p = elim (Bool-cases o.full) [
  | inl e ↦ simp e p
  | inr e ↦
      let next = p.more e in
      simp e (record {
        place = omega (arith, p.place);
        room = omega arith;
        more = λ f. ground arith;
        outside = λ a h. let same = p.outside a h in ground (arith, p.place, same);
      })
]

-- For a buffer of 2 bytes at least, whatever the format and the arguments are and after any number of
-- rounds, vsnprintf returns a number from 1 to the size, the text of that many bytes ends with a
-- zero, and no byte outside of the buffer is written.
pub vsnprintf-inside :
    (fuel str size format : ℕ) (args : ℕ → ℕ) (mem : Memory)
    → 2 ≤ size
    → size < 2 ^ 32
    → let r = vsnprintf fuel str size format args mem in
      (0 < r.0)
      × (r.0 ≤ size)
      × (r.1 (str + (r.0 - 1)) ≡ 0)
      × ((a : ℕ) → (a < str) ⊎ (str + size ≤ a) → r.1 a ≡ mem a)
unfolding vsnprintf
vsnprintf-inside fuel str size format args mem l u =
    let start : Out = record { to = str; mem = mem; count = 0; full = false } in
    let s : FormatState = record {
      i = 0;
      arg = 0;
      minwidth = none;
      zeropad = false;
      out = start;
    } in
    let begin : IsOut str size mem start = record {
      place = omega arith;
      room = omega arith;
      more = λ f. omega arith;
      outside = λ a h. refl;
    } in
    let end =
      format_loop-kept size (IsOut str size mem) (put-IsOut str size mem l u) fuel format args s
        begin in
    (
      omega arith,
      end.room,
      ground (arith, end.place),
      λ a h. ground (arith, end.place, end.room, end.outside a h),
    )

-- With a buffer of 1 byte and a format that begins with a character other than a percent sign,
-- vsnprintf returns 2 and writes the zero behind the buffer.
pub vsnprintf-behind :
    (fuel str format : ℕ) (args : ℕ → ℕ) (mem : Memory)
    → mem format ≢ 0
    → mem format ≢ 37
    → let r = vsnprintf (2 + fuel) str 1 format args mem in (r.0 ≡ 2) × (r.1 (str + 1) ≡ 0)
unfolding vsnprintf format_loop format_round put
vsnprintf-behind fuel str format args mem some_ plain =
    let at : format + 0 ≡ format = omega arith in
    let rounds : 2 + fuel ≡ suc (suc fuel) = omega arith in
    let c1 : (mem format == 0) ≡ false = ground arith in
    let c2 : (mem format == 37) ≡ false = ground arith in
    rw (rounds, at, c1, c2) (refl, ground arith)
