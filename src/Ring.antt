-- ===== src/Ring.antt =====
-- The circular doubly linked lists of include/simplix/list.h, at the level of pointers.
-- An element is named by a number (its address or its index in an array); a ring is the two
-- arrays of links and the head pointer, with `none` for NULL. Each macro is a function that makes
-- the macro's writes in the macro's order.
pub mod Chain
pub mod Insert
pub mod Remove
pub mod Replace
pub mod Each
mod Tests
use simplix.Base.{
  ℕ, zero, suc, ◌+◌, ◌≡◌, refl, Bool, true, false, ◌&&◌, ◌||◌, not, Option, none, some, List, [],
  ◌∷◌, ◌==◌, if◌then◌else◌, update,
}

pub record Ring : Type 0 where
  pub prev : ℕ → ℕ
  pub next : ℕ → ℕ
  pub head : Option ℕ

-- The two assignments that the macros are made of.
abbrev pub set_prev : ℕ → ℕ → Ring → Ring
set_prev item p r = record r { prev = update r.prev item p }

abbrev pub set_next : ℕ → ℕ → Ring → Ring
set_next item n r = record r { next = update r.next item n }

unfoldable pub list_empty : Ring → Bool
list_empty r = elim r.head [ none ↦ true | some _ ↦ false ]

unfoldable pub list_init : ℕ → Ring → Ring
list_init item r = set_next item item (set_prev item item r)

unfoldable pub list_insert_before : ℕ → ℕ → Ring → Ring
list_insert_before item new r =
    let r1 = set_prev new (r.prev item) r in
    let r2 = set_next new item r1 in
    let r3 = set_next (r2.prev new) new r2 in set_prev (r3.next new) new r3

unfoldable pub list_insert_after : ℕ → ℕ → Ring → Ring
list_insert_after item new r =
    let r1 = set_prev new item r in
    let r2 = set_next new (r1.next item) r1 in
    let r3 = set_next (r2.prev new) new r2 in set_prev (r3.next new) new r3

unfoldable pub list_append : ℕ → Ring → Ring
unfolding list_init list_insert_before
list_append item r = elim r.head [
  | some h ↦ list_insert_before h item r
  | none ↦ list_init item (record r { head = some item })
]

-- `list_head == item`
abbrev pub is_head : ℕ → Option ℕ → Bool
is_head item none = false
is_head item (some h) = item == h

unfoldable pub list_remove : ℕ → Ring → Ring
list_remove item r =
    if r.next item == item
    then record r { head = none }
    else (let r1 : Ring =
          if is_head item r.head then record r { head = some (r.next item) } else r in
        let r2 : Ring = set_prev (r1.next item) (r1.prev item) r1 in
        set_next (r2.prev item) (r2.next item) r2)

-- The element that is popped, and the ring without it. The callers test for NULL first.
unfoldable pub list_pop_head : Ring → Option ℕ × Ring
unfolding list_remove
list_pop_head r = elim r.head [ none ↦ (none, r) | some h ↦ (some h, list_remove h r) ]

unfoldable pub list_replace : ℕ → ℕ → Ring → Ring
list_replace old new r =
    let r1 = set_prev new (r.prev old) r in
    let r2 = set_next new (r1.next old) r1 in
    let r3 = set_next (r2.prev new) new r2 in
    let r4 = set_prev (r3.next new) new r3 in
    if is_head old r4.head then record r4 { head = some new } else r4

-- `list_for_each` with a body that leaves the loop at the first element that passes `test`.
-- The outer `none` means that the fuel ran out; the inner one, that no element passed.
unfoldable pub list_find : ℕ → (ℕ → Bool) → Ring → ℕ → ℕ → ℕ → Option (Option ℕ)
list_find zero test r head item index = none
list_find (suc fuel) test r head item index =
    let rest = list_find fuel test r head (r.next item) (index + 1) in
    if not (item == head) || index == 0
    then if test item then some (some item) else rest
    else some none

-- The loop from its start: it does not run where the head is NULL.
unfoldable pub list_find_first : ℕ → (ℕ → Bool) → Ring → Option (Option ℕ)
unfolding list_find
list_find_first fuel test r = elim r.head [
  | none ↦ some none
  | some h ↦ list_find fuel test r h h 0
]
