-- ===== src/Nano/Tests.antt =====
-- The editor of src/kernel/shell.c at concrete inputs.
use kontol_os.Base.{
  ℕ, zero, suc, ◌≡◌, ◌-◌, refl, inl, inr, true, false, update, some, List, [], ◌∷◌, arith,
  replicate, length-replicate,
}
use kontol_os.CString.{strcmp}
use kontol_os.Ramfs.{fs_open, fs_find, find_from, has_flag, same_string, clear_table, clear_entry}
use kontol_os.Screen.{codes}
use kontol_os.Shell.Sample.{with_note, with_note-IsSound}
use kontol_os.Nano.{Editor, press}
use kontol_os.Nano.Page.{Page, type_key, break_line, Wide, editor, Shows}
use kontol_os.Nano.Shown.{Follows}
use kontol_os.Nano.Storage.{save}
use kontol_os.Nano.Saved.{Saves, save-Saves}
use kontol_os.Memory.{mem_block, heap_begin, heap_size}
use kontol_os.Memory.Block.{block, Blocks}
use kontol_os.Memory.Layout.{Represents}
use kontol_os.Memory.InUse.{in_use}
use kontol_os.Memory.Claims.{Claims}
use kontol_os.Shell.System.{System}
use kontol_os.Nano.Loop.{leave}
use kontol_os.Nano.Cleanup.{Leaves, leave-Leaves}
use kontol_os.Ramfs.{file_at, write_file}
use kontol_os.Nano.Storage.{store}
use kontol_os.Nano.Typing.{press-Follows}

abbrev blank_lines : ℕ → List (List ℕ)
blank_lines n = replicate n (replicate 80 0)

blank_lines-Wide : (n : ℕ) → Wide (blank_lines n)
blank_lines-Wide zero = tt
blank_lines-Wide (suc n) = (length-replicate {A = ℕ} 80 0, blank_lines-Wide n)

-- The line "abc" with the cursor in front of the c.
abbrev abc_page : Page
abc_page = record { above = []; left = b'b' ∷ b'a' ∷ []; right = b'c' ∷ []; below = [] }

abbrev abc_editor : Editor
abc_editor = editor [] (b'a' ∷ b'b' ∷ b'c' ∷ 0 ∷ replicate 76 0) [] (blank_lines 99) 2 false

abc_editor-Shows : Shows abc_editor abc_page
abc_editor-Shows = record {
  pre = [];
  here = b'a' ∷ b'b' ∷ b'c' ∷ 0 ∷ replicate 76 0;
  post = [];
  spare = blank_lines 99;
  arrays = refl;
  before = tt;
  current = record {
    filled = ((λ e. omega (arith, e)), ((λ e. omega (arith, e)), ((λ e. omega (arith, e)), tt)));
    room = omega (arith, length-replicate {A = ℕ} 76 0);
    junk = replicate 76 0;
    same = refl;
  };
  after = tt;
  rest = blank_lines-Wide 99;
  count = omega (arith, length-replicate {A = List ℕ} 99 (replicate 80 0));
}

-- Enter breaks the line.
press-Follows_example : Follows (type_key 10 abc_page) (press 10 abc_editor)
press-Follows_example = press-Follows 10 abc_editor abc_page abc_editor-Shows

-- What type_key makes of it.
type_key_enter :
    type_key 10 abc_page
    ≡ some (record { above = (b'a' ∷ b'b' ∷ []) ∷ []; left = []; right = b'c' ∷ []; below = [] })
unfolding type_key break_line
type_key_enter = refl

-- Ctrl+S into the file of the sample.
note_open : fs_open (codes "a") (with_note (replicate 256 0) []).fs ≡ some 0
unfolding fs_open fs_find find_from has_flag same_string strcmp clear_table clear_entry
note_open = refl

save-Saves_example :
    Saves 0 abc_editor abc_page
      (with_note (replicate 256 0) [])
      (save (codes "a") abc_editor (with_note (replicate 256 0) []))
save-Saves_example =
    save-Saves (codes "a") 0 abc_editor abc_page [] (with_note (replicate 256 0) [])
      abc_editor-Shows note_open (with_note-IsSound (replicate 256 0) [] refl).heap

-- The table of the editor and one line; the other line was not to be had.
abbrev edited : System
edited = record (with_note (replicate 256 0) []) {
  memory = record {
    heap_start = heap_begin;
    total_memory = heap_size;
    used_memory = 504;
    header =
        update
          (update (update (λ a. mem_block 0 false 0) 0x200000 (mem_block 412 true 0x20019c))
            0x20019c (mem_block 92 true 0x2001f8))
          0x2001f8 (mem_block (heap_size - 504) false 0);
    bytes = λ a. 0;
  };
}

abbrev edited_blocks : Blocks
edited_blocks = block 412 true ∷ block 92 true ∷ block (heap_size - 504) false ∷ []

edited-Represents : Represents edited.memory edited_blocks
edited-Represents = ground arith

edited-Claims : Claims edited_blocks ((0x2001a8, 80) ∷ (0, 80) ∷ (0x20000c, 400) ∷ [])
unfolding in_use
edited-Claims = (
  inr (92, inr (inl (refl, refl)), omega arith),
  (inr (λ e. omega arith), (inr (λ e. omega arith), tt)),
  (inl refl, (inl refl, tt), (inr (412, inl (refl, refl), omega arith), tt, tt)),
)

leave-Leaves_example :
    Leaves 0x20000c
      (0x2001a8 ∷ 0 ∷ [])
      []
      edited_blocks
      edited
      (leave 0x20000c (0x2001a8 ∷ 0 ∷ []) edited)
leave-Leaves_example =
    leave-Leaves 0x20000c (0x2001a8 ∷ 0 ∷ []) [] edited_blocks edited edited-Represents
      edited-Claims

-- The file of the sample with the two lines "hi" and "yo".
abbrev noted : System
noted = record (with_note (replicate 256 0) []) {
  fs =
      write_file 0
        (record (file_at (with_note (replicate 256 0) []).fs 0) { data_ptr = 0x20000c; size = 6 })
        (with_note (replicate 256 0) []).fs;
  memory = record {
    heap_start = heap_begin;
    total_memory = heap_size;
    used_memory = 32;
    header =
        update (update (λ a. mem_block 0 false 0) 0x200000 (mem_block 32 true 0x200020)) 0x200020
          (mem_block (heap_size - 32) false 0);
    bytes = store 0x20000c (codes "hi\nyo\n") (λ a. 0);
  };
}

abbrev noted_blocks : Blocks
noted_blocks = block 32 true ∷ block (heap_size - 32) false ∷ []
