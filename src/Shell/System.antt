-- ===== src/Shell/System.antt =====
-- The state that the commands of src/kernel/shell.c work on, and what a command comes to.
use kontol_os.Base.{ℕ, Option, none, some, List, [], ◌∷◌}
use kontol_os.CString.{CString}
use kontol_os.Memory.{Memory}
use kontol_os.Ramfs.{Fs}
use kontol_os.Vga.{Vga}
use kontol_os.Keyboard.{Keyboard}
use kontol_os.Timer.{Timer}
use kontol_os.Screen.{Call, calls}

-- The drivers, the heap and the file system; then the writes of the shell itself to ports, the newest
-- first, and what is still to come: the scancodes that the keyboard sends, and the bytes that the port
-- 0x64 gives. `stack` is what the uninitialised array of cmd_ls holds, `shape` what vga_show_cursor reads.
pub record System : Type 0 where
  pub fs : Fs
  pub memory : Memory
  pub vga : Vga
  pub keyboard : Keyboard
  pub timer : Timer
  pub outs : List (ℕ × ℕ)
  pub arriving : List ℕ
  pub status : List ℕ
  pub stack : List ℕ
  pub shape : ℕ × ℕ
  pub command_buffer : List ℕ

-- A command returns, or stops the processor for good.
pub data Outcome : Type 0 where
  returned : System → Outcome
  halted : System → Outcome

-- The type of `handler`: `argc` is the length of `argv`. `none` is a fault, such as a write outside an
-- array, or a loop that is still waiting when what is to come is used up.
abbrev pub Handler : Type 0
Handler = List CString → System → Option Outcome

unfoldable pub draw : List Call → System → System
draw cs s = record s { vga = calls cs s.vga }

-- The calls that print, then the end of the command.
unfoldable pub finish : List Call → System → Option Outcome
finish cs s = some (returned (draw cs s))

-- `outb(port, value)` and `outw(port, value)`
unfoldable pub out : ℕ → ℕ → System → System
out port value s = record s { outs = (port, value) ∷ s.outs }

-- `argv[1]`; `none` as `argc < 2`.
unfoldable pub second : List CString → Option CString
second [] = none
second (_ ∷ []) = none
second (_ ∷ a ∷ _) = some a
