-- ===== src/Shell/Sample.antt =====
-- A system as the boot of src/kernel/kernel.c leaves it, for the tests.
use kontol_os.Base.{
  ℕ, zero, suc, ◌≡◌, refl, inl, inr, false, List, [], ◌∷◌, arith, length, replicate,
}
use kontol_os.Memory.{Memory, memory_init, mem_block, null, heap_size}
use kontol_os.Memory.Block.{block}
use kontol_os.Memory.Layout.{memory_init-Represents}
use kontol_os.Memory.Claims.{Apart-null}
use kontol_os.CString.{strlen}
use kontol_os.Ramfs.{File, Fs, fs_init, clear_table, clear_entry, has_flag, find_from}
use kontol_os.Ramfs.Table.{IsValid}
use kontol_os.Ramfs.Claims.{claims}
use kontol_os.Ramfs.Start.{Sized, fs_init-IsValid, clear_table-WellNamed, clear_table-Distinct}
use kontol_os.Keyboard.{Keyboard, keyboard_init}
use kontol_os.Keyboard.Queue.{keyboard_init-Queued}
use kontol_os.Vga.{Vga}
use kontol_os.Shell.System.{System}
use kontol_os.Shell.Sound.{IsSound}
use kontol_os.Kernel.Boot.{fs_init-InOrder, fs_init-Bounded, cleared-Claims, cleared-Bounded}

abbrev pub blank_file : File
blank_file = record { name = replicate 32 0; data_ptr = 7; size = 9; flags = 1 }

-- Static storage with arbitrary contents.
abbrev pub raw_fs : Fs
raw_fs = record {
  file_table = replicate 64 blank_file;
  current_dir = b'/' ∷ replicate 31 0;
  fs_initialized = 0;
}

abbrev pub raw_memory : Memory
raw_memory = record {
  heap_start = 0;
  total_memory = 0;
  used_memory = 0;
  header = λ p. mem_block 0 false 0;
  bytes = λ a. 0;
}

abbrev pub raw_keyboard : Keyboard
raw_keyboard = record {
  keyboard_buffer = λ i. 0;
  buffer_start = 0;
  buffer_end = 0;
  shift_pressed = false;
  ctrl_pressed = false;
  alt_pressed = false;
  capslock_on = false;
}

abbrev pub raw_vga : Vga
raw_vga = record { row = 3; col = 5; color = 7; buffer = λ a. 0; outs = [] }

-- With a command line, and scancodes that arrive.
abbrev pub booted : List ℕ → List ℕ → System
booted line arriving = record {
  fs = fs_init raw_fs;
  memory = memory_init raw_memory;
  vga = raw_vga;
  keyboard = keyboard_init raw_keyboard;
  timer = record { timer_ticks = 0; timer_frequency = 100; outs = [] };
  outs = [];
  arriving = arriving;
  status = [];
  stack = replicate 1024 0;
  shape = (0, 0);
  command_buffer = line;
}

pub blank-Sized : (n : ℕ) → Sized (replicate n blank_file)
blank-Sized zero = tt
blank-Sized (suc n) = (refl, blank-Sized n)

pub booted-IsSound : (line arriving : List ℕ) → length line ≡ 256 → IsSound (booted line arriving)
booted-IsSound line arriving size = record {
  valid = (fs_init-IsValid raw_fs refl refl (blank-Sized 64)).0;
  heap = fs_init-InOrder raw_fs (memory_init raw_memory) (memory_init-Represents raw_memory);
  bounded = fs_init-Bounded raw_fs;
  screen = (omega arith, omega arith);
  clock = λ e. omega arith;
  ring = ([], keyboard_init-Queued raw_keyboard);
  line = size;
  stack = refl;
}

abbrev note : File
note = record { name = b'a' ∷ replicate 31 0; data_ptr = null; size = 0; flags = 1 }

-- The same with the empty file "a".
abbrev pub with_note : List ℕ → List ℕ → System
with_note line arriving = record (booted line arriving) {
  fs = record (fs_init raw_fs) { file_table = note ∷ clear_table (replicate 63 blank_file) };
}

note_fs-IsValid : IsValid (with_note [] []).fs
unfolding has_flag strlen find_from clear_table fs_init clear_entry
note_fs-IsValid = record {
  slots = refl;
  named = (
    refl,
    inr (omega arith, omega arith),
    clear_table-WellNamed (replicate 63 blank_file) (blank-Sized 63),
  );
  distinct = (inr refl, clear_table-Distinct (replicate 63 blank_file));
  dir = refl;
}

pub with_note-IsSound :
    (line arriving : List ℕ) → length line ≡ 256 → IsSound (with_note line arriving)
with_note-IsSound line arriving size = record {
  valid = note_fs-IsValid;
  heap = (
    block heap_size false ∷ [],
    memory_init-Represents raw_memory,
    (
      inl refl,
      Apart-null null (claims (clear_table (replicate 63 blank_file)) []) refl,
      cleared-Claims _ (replicate 63 blank_file),
    ),
  );
  bounded = (omega arith, cleared-Bounded (replicate 63 blank_file));
  screen = (omega arith, omega arith);
  clock = λ e. omega arith;
  ring = ([], keyboard_init-Queued raw_keyboard);
  line = size;
  stack = refl;
}
