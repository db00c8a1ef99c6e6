-- ===== src/Screen/Tests.antt =====
-- The theorems about drivers/gfx.c at a string of two characters.
use simplix.Base.{◌≡◌, refl, some, arith, ◌==◌, if◌then◌else◌}
use simplix.Str.{Memory}
use simplix.Screen.{Screen, gfx_putchar, gfx_putstring}
use simplix.Screen.Cursor.{Safe, gfx_putchar-Safe}
use simplix.Screen.Text.{Shows, gfx_putstring-Shows}

-- "Hi" at address 100.
abbrev text : Memory
text i = if i == 100 then 72 else if i == 101 then 105 else 0

abbrev last_cell : Screen
last_cell = record { video = λ i. 32; offset = 1998 }

abbrev full_screen : Screen
full_screen = record { video = λ i. 32; offset = 2000 }

gfx_putchar-Safe_example : Safe full_screen (gfx_putchar 72 full_screen)
gfx_putchar-Safe_example = gfx_putchar-Safe 72 full_screen (omega arith)

gfx_putstring-Shows_example :
    (s' : Screen) × (gfx_putstring 3 text 100 last_cell ≡ some s') × Shows text 100 2 last_cell s'
gfx_putstring-Shows_example =
    gfx_putstring-Shows 3 100 2 text last_cell (λ i h. ground arith, refl) (omega arith)
      (λ k h. ground arith) (omega arith)
