-- ===== src/Shell/Tests.antt =====
-- The command line of src/kernel/shell.c at concrete inputs.
use kontol_os.Base.{ℕ, ◌≡◌, refl, inr, List, [], ◌∷◌, ◌++◌, take, length, replicate, arith, ◌≢◌}
use kontol_os.CString.{strcmp, strlen}
use kontol_os.Ramfs.{same_string, fs_count, count_used, has_flag, clear_table, clear_entry}
use kontol_os.Ramfs.Lines.{listing}
use kontol_os.Screen.{codes}
use kontol_os.Shell.System.{System, finish, draw}
use mathlib.Core.List.Memᴰ
use kontol_os.Keyboard.{
  buffer_put, keyboard_getchar, take_key, keyboard_has_key, keyboard_init, keyboard_handler,
  handle_code, press_key, plain_char, control_char,
}
use kontol_os.Keyboard.Line.{end_line, read_from, keyboard_readline}
use kontol_os.Keyboard.Queue.{Queued, keyboard_init-Queued}
use kontol_os.Shell.Files.{cmd_ls}
use kontol_os.Shell.Execute.{shell_round, read_line, with_line, arguments}
use kontol_os.Shell.Sound.{Runs}
use kontol_os.Shell.Sound.Listing.{cmd_ls-each_file, AreLines}
use kontol_os.Shell.Sound.Entries.{printed_list}
use kontol_os.Shell.Sound.Execute.{LineEnds, shell_round-Runs}
use kontol_os.Shell.Sample.{raw_keyboard, booted, booted-IsSound, with_note, with_note-IsSound}
use kontol_os.Shell.{parse_args, parse_from, blanks, word_length}
use kontol_os.Shell.Words.{words}
use kontol_os.Shell.Parse.{texts, parse_args-words}

-- " rm  a", with bytes behind its NUL.
abbrev rm_line : List ℕ
rm_line = b' ' ∷ b'r' ∷ b'm' ∷ b' ' ∷ 9 ∷ b'a' ∷ 0 ∷ b'z' ∷ []

parse_args-words_example :
    (texts (parse_args rm_line 16).0 (parse_args rm_line 16).1 ≡ take 16 (words rm_line))
    × (length (parse_args rm_line 16).1 ≡ 8)
parse_args-words_example = parse_args-words rm_line 16

rm_arguments : (parse_args rm_line 16).0 ≡ 1 ∷ 5 ∷ []
unfolding parse_args parse_from blanks word_length
rm_arguments = refl

-- "rm a" in the command buffer.
abbrev rm_buffer : List ℕ
rm_buffer = codes "rm a" ++ replicate 252 0

-- The keys l, s and Enter.
abbrev keys : List ℕ
keys = 0x26 ∷ 0x1f ∷ 0x1c ∷ []

abbrev waiting : System
waiting = booted (replicate 256 0) keys

ls-LineEnds : LineEnds (read_line waiting)
unfolding read_line with_line end_line read_from keyboard_readline keyboard_getchar take_key
    keyboard_has_key draw keyboard_init keyboard_handler handle_code press_key plain_char
    control_char buffer_put parse_args parse_from blanks word_length arguments same_string strcmp
ls-LineEnds = refl

waiting-Queued : Queued waiting.keyboard []
waiting-Queued = keyboard_init-Queued raw_keyboard

shell_round-Runs_example : Runs (shell_round waiting)
shell_round-Runs_example =
    shell_round-Runs waiting [] (booted-IsSound (replicate 256 0) keys refl) waiting-Queued
      (inr (Memᴰ.tail (Memᴰ.tail (Memᴰ.head refl)))) ls-LineEnds

one_file : fs_count (with_note rm_buffer []).fs ≢ 0
unfolding fs_count count_used has_flag clear_table clear_entry
one_file e = omega arith

note_line : AreLines (listing 1024 0 (with_note rm_buffer []).fs.file_table)
unfolding listing has_flag clear_table clear_entry strlen
note_line = ((λ e. omega arith, λ e. omega arith, tt), tt)

cmd_ls-each_file_example :
    cmd_ls (codes "ls" ∷ []) (with_note rm_buffer [])
    ≡ finish (printed_list (with_note rm_buffer []).fs.file_table) (with_note rm_buffer [])
cmd_ls-each_file_example =
    cmd_ls-each_file (codes "ls" ∷ []) (with_note rm_buffer [])
      (with_note-IsSound rm_buffer [] refl) one_file note_line
