-- ===== src/Keyboard/Line.antt =====
-- keyboard_readline of src/drivers/keyboard.c, which echoes through src/drivers/vga.c.
use kontol_os.Base.{
  ℕ, zero, suc, ◌+◌, ◌-◌, none, some, List, if◌then◌else◌, ◌==◌, ltb, sub32, length, set,
}
use kontol_os.Keyboard.{Keyboard, keyboard_getchar}
use kontol_os.Vga.{Vga, vga_putchar}

-- How a call stands after the interrupts that arrived: still waiting for a key; returned, with the count, the
-- buffer, both drivers and the interrupts that are left; a write outside the buffer; or no fuel left.
pub data Line : Type 0 where
  waiting : Line
  line : ℕ → List ℕ → Keyboard → Vga → List ℕ → Line
  fault : Line
  exhausted : Line

-- `buffer[i] = '\0'; return i;`
unfoldable pub end_line : ℕ → List ℕ → Keyboard → Vga → List ℕ → Line
end_line i buffer k v arriving =
    if ltb i (length buffer) then line i (set buffer i 0) k v arriving else fault

-- The loop, with at most `fuel` characters.
unfoldable pub read_from : ℕ → ℕ → ℕ → List ℕ → List ℕ → Keyboard → Vga → Line
read_from zero max_length i buffer arriving k v = exhausted
read_from (suc fuel) max_length i buffer arriving k v =
    let next : Line = elim (keyboard_getchar arriving k) [
      | none ↦ waiting
      | some (c, k', rest) ↦
          let stored =
            read_from fuel max_length (i + 1) (set buffer i c) rest k' (vga_putchar c v) in
          let erased = read_from fuel max_length (i - 1) buffer rest k' (vga_putchar 8 v) in
          let ignored = read_from fuel max_length i buffer rest k' v in
          if c == 10
          then end_line i buffer k' (vga_putchar 10 v) rest
          else if c == 8
          then if ltb 0 i then erased else ignored
          else if ltb i (length buffer)
          then stored
          else fault
    ] in
    if ltb i (sub32 max_length 1) then next else end_line i buffer k v arriving

-- The ring holds at most 255 characters, and an interrupt adds at most one.
unfoldable pub keyboard_readline : List ℕ → ℕ → List ℕ → Keyboard → Vga → Line
keyboard_readline buffer max_length arriving k v =
    read_from (256 + length arriving) max_length 0 buffer arriving k v
