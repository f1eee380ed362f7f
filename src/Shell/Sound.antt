-- ===== src/Shell/Sound.antt =====
-- The invariant of the system that the commands of src/kernel/shell.c keep.
pub mod Reports
pub mod Files
pub mod Entries
pub mod Listing
pub mod Execute
use kontol_os.Base.{
  ℕ, ◌+◌, ◌≡◌, ◌≢◌, refl, ap, ◌⊎◌, inl, inr, Option, none, some, List, [], ◌∷◌, length,
}
use kontol_os.Memory.{Memory}
use kontol_os.Ramfs.{Fs}
use kontol_os.Ramfs.Table.{IsValid}
use kontol_os.Ramfs.Claims.{InOrder}
use kontol_os.Ramfs.Same.{Bounded}
use kontol_os.Vga.Cursor.{IsOnScreen}
use kontol_os.Keyboard.Queue.{Queued}
use kontol_os.Screen.{Call, calls}
use kontol_os.Screen.Calls.{calls-Keeps}
use kontol_os.Shell.System.{System, Outcome, returned, halted, draw, finish, out}

-- The file table is valid, the heap is in order with a block of its own for every file and for every
-- pointer of `cs`, no file is too large, the cursor is on the screen, the timer runs, the ring of the
-- keyboard is in order, and the arrays have their sizes.
pub record Sound (cs : List (ℕ × ℕ)) (s : System) : Type 0 where
  pub valid : IsValid s.fs
  pub heap : InOrder cs s.fs s.memory
  pub bounded : Bounded s.fs.file_table
  pub screen : IsOnScreen s.vga
  pub clock : s.timer.timer_frequency ≢ 0
  pub ring : (q : List ℕ) × Queued s.keyboard q
  pub line : length s.command_buffer ≡ 256
  pub stack : length s.stack ≡ 1024

abbrev pub IsSound : System → Type 0
IsSound s = Sound [] s

abbrev pub After : Outcome → Type 0
After (returned s) = IsSound s
After (halted s) = IsSound s

-- The command returns or stops the processor, with the system in order.
abbrev pub Runs : Option Outcome → Type 0
Runs r = (o : Outcome) × (r ≡ some o) × After o

pub draw-Sound :
    (cs : List (ℕ × ℕ)) (ds : List Call) (s : System) → Sound cs s → Sound cs (draw ds s)
unfolding draw
draw-Sound cs ds s h = record {
  valid = h.valid;
  heap = h.heap;
  bounded = h.bounded;
  screen = (calls-Keeps ds s.vga h.screen).0;
  clock = h.clock;
  ring = h.ring;
  line = h.line;
  stack = h.stack;
}

pub out-Sound : (port value : ℕ) (s : System) → IsSound s → IsSound (out port value s)
unfolding out
out-Sound port value s h = record {
  valid = h.valid;
  heap = h.heap;
  bounded = h.bounded;
  screen = h.screen;
  clock = h.clock;
  ring = h.ring;
  line = h.line;
  stack = h.stack;
}

pub status-Sound : (rest : List ℕ) (s : System) → IsSound s → IsSound (record s { status = rest })
status-Sound rest s h = record {
  valid = h.valid;
  heap = h.heap;
  bounded = h.bounded;
  screen = h.screen;
  clock = h.clock;
  ring = h.ring;
  line = h.line;
  stack = h.stack;
}

-- A change of the heap alone.
pub memory-Sound :
    (cs ds : List (ℕ × ℕ)) (m : Memory) (s : System)
    → Sound cs s
    → InOrder ds s.fs m
    → Sound ds (record s { memory = m })
memory-Sound cs ds m s h heap = record {
  valid = h.valid;
  heap = heap;
  bounded = h.bounded;
  screen = h.screen;
  clock = h.clock;
  ring = h.ring;
  line = h.line;
  stack = h.stack;
}

-- A change of the file system and the heap.
pub files-Sound :
    (cs : List (ℕ × ℕ)) (fs : Fs) (m : Memory) (s : System)
    → Sound cs s
    → IsValid fs
    → Bounded fs.file_table
    → InOrder cs fs m
    → Sound cs (record s { fs = fs; memory = m })
files-Sound cs fs m s h valid bounded heap = record {
  valid = valid;
  heap = heap;
  bounded = bounded;
  screen = h.screen;
  clock = h.clock;
  ring = h.ring;
  line = h.line;
  stack = h.stack;
}

pub finish-Runs : (ds : List Call) (s : System) → IsSound s → Runs (finish ds s)
unfolding finish
finish-Runs ds s h = (returned (draw ds s), refl, draw-Sound [] ds s h)
