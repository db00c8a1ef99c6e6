-- ===== src/PhysMem/Realloc.antt =====
-- realloc_physmem_block of kernel/physmem.c.
use simplix.Base.{
  ℕ, ◌+◌, ◌-◌, ◌*◌, ◌^◌, Bool, true, ◌&&◌, ◌||◌, Option, none, some, ltb, leb, ◌==◌, if◌then◌else◌,
  update,
}
use simplix.Ring.{list_insert_after, list_remove, list_replace}
use simplix.Str.{memset, memcpy}
use simplix.PhysMem.{
  PhysMem, Ret, s_ok, e_fail, e_invalidarg, Run, done, panic, out_of_fuel, Answer, page_size, wrap,
  get_block_descriptor, alloc_physmem_block_raw, free_physmem_block,
}

abbrev pub answer : Ret → Option ℕ → PhysMem → Answer
answer r a m = record { ret = r; stored = a; state = m }

-- A hole `h` of `n` pages in the place of the hole behind `b`.
unfoldable pub replace_next : ℕ → ℕ → ℕ → PhysMem → PhysMem
replace_next b h n m = record m {
  available = update m.available h true;
  pages = update m.pages h n;
  block_list = list_replace (m.block_list.next b) h m.block_list;
}

-- A new hole `h` of `n` pages behind `b`.
unfoldable pub insert_next : ℕ → ℕ → ℕ → PhysMem → PhysMem
insert_next b h n m = record m {
  available = update m.available h true;
  pages = update m.pages h n;
  block_list = list_insert_after b h m.block_list;
}

abbrev pub set_pages : ℕ → ℕ → PhysMem → PhysMem
set_pages b n m = record m { pages = update m.pages b n }

-- Is the block followed, in memory, by a hole?
abbrev pub hole_follows : ℕ → PhysMem → Bool
hole_follows b m = ltb b (m.block_list.next b) && m.available (m.block_list.next b)

-- The descriptor of the page where the block ends with its new size.
abbrev pub new_end : ℕ → ℕ → ℕ
new_end addr pages = get_block_descriptor (wrap (addr + wrap (pages * page_size)))

unfoldable pub shrink_block : ℕ → ℕ → ℕ → PhysMem → PhysMem
unfolding replace_next insert_next
shrink_block b addr pages m =
    let h = new_end addr pages in
    set_pages b pages (
      if hole_follows b m
      then replace_next b h
          (wrap (wrap (m.pages (m.block_list.next b) + m.pages b) + 2 ^ 32 - pages)) m
      else insert_next b h (wrap (m.pages b + 2 ^ 32 - pages)) m)

-- `h` is not initialised where the code removes it from the list: it is the parameter `junk`.
unfoldable pub widen_block : ℕ → ℕ → ℕ → ℕ → PhysMem → PhysMem
unfolding replace_next
widen_block junk b addr pages m =
    let n = m.block_list.next b in
    let h = new_end addr pages in
    set_pages b pages (
      if ltb (wrap (pages + 2 ^ 32 - m.pages b)) (m.pages n)
      then replace_next b h (wrap (wrap (m.pages n + 2 ^ 32 - pages) + m.pages b)) m
      else record m { block_list = list_remove junk m.block_list })

-- What is left to do once the new block is found.
abbrev pub move_block : ℕ → ℕ → ℕ → Answer → Run Answer
move_block b addr pages a = elim a.stored [
  | none ↦ done a
  | some new ↦
      (let m = a.state in
        let old = wrap (m.pages b * page_size) in
        let mem =
          memset (wrap (new + old)) 0 (wrap (wrap (pages + 2 ^ 32 - m.pages b) * page_size))
            (memcpy new addr old m.memory) in
        elim (free_physmem_block addr (record m { memory = mem })) [
          | done (s_ok, m') ↦ done (answer s_ok (some new) m')
          | done (_, m') ↦ panic
          | panic ↦ panic
          | out_of_fuel ↦ out_of_fuel
        ])
]

unfoldable pub relocate_block : ℕ → ℕ → ℕ → ℕ → PhysMem → Run Answer
relocate_block b addr pages paddr m = elim (alloc_physmem_block_raw pages paddr m) [
  | done a ↦ move_block b addr pages a
  | panic ↦ panic
  | out_of_fuel ↦ out_of_fuel
]

unfoldable pub realloc_physmem_block : ℕ → ℕ → ℕ → ℕ → PhysMem → Run Answer
unfolding shrink_block widen_block relocate_block
realloc_physmem_block junk addr pages paddr m =
    let b = get_block_descriptor addr in
    if pages == 0 || paddr == 0
    then done (answer e_invalidarg none m)
    else if m.available b
    then done (answer e_fail none m)
    else if pages == m.pages b
    then done (answer s_ok (some addr) m)
    else if ltb pages (m.pages b)
    then done (answer s_ok (some addr) (shrink_block b addr pages m))
    else if hole_follows b m
        && leb (wrap (pages + 2 ^ 32 - m.pages b)) (m.pages (m.block_list.next b))
    then done (answer s_ok (some addr) (widen_block junk b addr pages m))
    else relocate_block b addr pages paddr m
