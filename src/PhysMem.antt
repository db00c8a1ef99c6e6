-- ===== src/PhysMem.antt =====
-- The physical memory manager, kernel/physmem.c.
-- A block descriptor is named by its index in the array of descriptors, which is the number of the
-- block's first page; the fields of the descriptors are arrays, stale entries included, and the
-- links are the ring of list.h. Addresses and sizes are 32-bit, with the wrap-around written out.
pub mod Layout
pub mod Alloc
pub mod Fit
pub mod Take
pub mod Free
pub mod Merge
pub mod Release
pub mod Realloc
pub mod Boundary
pub mod Shift
pub mod Resize
pub mod InPlace
pub mod Boot
pub mod Tests
use simplix.Base.{
  ℕ, ◌+◌, ◌-◌, ◌*◌, ◌/◌, ◌%◌, ◌^◌, ◌≡◌, Bool, true, false, ◌&&◌, ◌||◌, Option, none, some, ltb, leb,
  ◌==◌, if◌then◌else◌, update,
}
use simplix.Ring.{Ring, list_append, list_insert_after, list_remove, list_replace, list_find_first}
use simplix.Str.{Memory, memset, memcpy}

-- The values of `ret_t` that this file returns.
pub data Ret : Type 0 where
  s_ok e_fail e_invalidarg e_nomem e_busy : Ret

-- How a call ends: it returns, the kernel stops in `panic` or in a failed ASSERT, or a loop over a
-- list does not end within the model's fuel.
pub data Run (A : Type 0) : Type 0 where
  done : A → Run A
  panic : Run A
  out_of_fuel : Run A

pub record PhysMem : Type 0 where
  pub pages : ℕ → ℕ
  pub available : ℕ → Bool
  pub block_list : Ring
  pub physmem_size : ℕ
  pub memory : Memory

abbrev pub page_size : ℕ
page_size = 4096

abbrev pub wrap : ℕ → ℕ
wrap n = n % 2 ^ 32

abbrev pub get_block_descriptor : ℕ → ℕ
get_block_descriptor addr = addr / page_size

abbrev pub get_block_descriptor_addr : ℕ → ℕ
get_block_descriptor_addr b = wrap (b * page_size)

-- PAGE_ALIGN_INF and PAGE_ALIGN_SUP
abbrev pub page_align_inf : ℕ → ℕ
page_align_inf addr = wrap addr / page_size * page_size

abbrev pub page_align_sup : ℕ → ℕ
page_align_sup addr = page_align_inf (addr + (page_size - 1))

-- A list of blocks has at most one block for each page, so this is enough for a loop over it.
abbrev pub fuel : PhysMem → ℕ
fuel m = m.physmem_size / page_size + 1

-- A call that stores an address through its pointer argument, with what it stores.
pub record Answer : Type 0 where
  pub ret : Ret
  pub stored : Option ℕ
  pub state : PhysMem

-- The code behind the label `found`.
unfoldable pub take_block : ℕ → ℕ → PhysMem → PhysMem
take_block b pages m =
    let m1 : PhysMem = record m { available = update m.available b false } in
    let addr = get_block_descriptor_addr b in
    let h = get_block_descriptor (wrap (addr + wrap (pages * page_size))) in
    if ltb pages (m1.pages b)
    then record m1 {
      available = update m1.available h true;
      pages = update (update m1.pages h (m1.pages b - pages)) b pages;
      block_list = list_insert_after b h m1.block_list;
    }
    else m1

-- `__alloc_physmem_block`
unfoldable pub alloc_physmem_block_raw : ℕ → ℕ → PhysMem → Run Answer
alloc_physmem_block_raw pages paddr m =
    if pages == 0 || paddr == 0
    then done (record { ret = e_invalidarg; stored = none; state = m })
    else elim (list_find_first (fuel m) (λ b. m.available b && leb pages (m.pages b))
        m.block_list) [
          | none ↦ out_of_fuel
          | some none ↦ done (record { ret = e_nomem; stored = none; state = m })
          | some (some b) ↦ done (record {
            ret = s_ok;
            stored = some (get_block_descriptor_addr b);
            state = take_block b pages m;
          })
        ]

abbrev zero_block : ℕ → Answer → Answer
zero_block pages a = elim a.stored [
  | none ↦ a
  | some addr ↦ record a {
    state = record (a.state) { memory = memset addr 0 (wrap (pages * page_size)) a.state.memory };
  }
]

unfoldable pub alloc_physmem_block : ℕ → ℕ → PhysMem → Run Answer
alloc_physmem_block pages paddr m = elim (alloc_physmem_block_raw pages paddr m) [
  | done a ↦ done (zero_block pages a)
  | panic ↦ panic
  | out_of_fuel ↦ out_of_fuel
]

-- The two merges of `free_physmem_block`.
unfoldable pub merge_next : ℕ → PhysMem → PhysMem
merge_next b m =
    let n = m.block_list.next b in
    if ltb b n && m.available n
    then record m {
      pages = update m.pages b (m.pages b + m.pages n);
      block_list = list_remove n m.block_list;
    }
    else m

unfoldable pub merge_prev : ℕ → PhysMem → PhysMem
merge_prev b m =
    let p = m.block_list.prev b in
    if ltb p b && m.available p
    then record m {
      pages = update m.pages p (m.pages p + m.pages b);
      block_list = list_remove b m.block_list;
    }
    else m

unfoldable pub free_physmem_block : ℕ → PhysMem → Run (Ret × PhysMem)
unfolding merge_next merge_prev
free_physmem_block addr m =
    if leb (wrap (m.physmem_size + 2 ^ 32 - page_size)) addr
    then panic
    else (let b = get_block_descriptor addr in
        if m.available b
        then done (e_fail, m)
        else done (
          s_ok,
          merge_prev b (merge_next b (record m { available = update m.available b true })),
        ))
