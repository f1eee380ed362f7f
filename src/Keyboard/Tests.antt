-- ===== src/Keyboard/Tests.antt =====
-- The keyboard driver of src/drivers/keyboard.c at concrete inputs.
use kontol_os.Base.{
  ℕ, zero, suc, ◌+◌, ◌%◌, ◌<◌, ◌≡◌, refl, inr, true, false, List, [], ◌∷◌, arith, if◌then◌else◌,
  update, get_or,
}
use mathlib.Core.List.Memᴰ
use kontol_os.CString.{isalpha, toupper}
use kontol_os.Keyboard.{
  Keyboard, buffer_put, is_letter_key, xor, plain_char, control_char, press_key, handle_code,
  keyboard_handler, keyboard_getchar_nonblock,
}
use kontol_os.Keyboard.Queue.{
  Queued, enqueue, buffer_put-Queued, Dequeues, keyboard_getchar_nonblock-Queued,
}
use kontol_os.Vga.{Vga}
use kontol_os.Keyboard.Line.{line, keyboard_readline}
use kontol_os.Keyboard.Reads.{Reads, Returned, keyboard_readline-Reads}
use kontol_os.Keyboard.Enter.{keyboard_readline-Returned}
use kontol_os.Keyboard.Keys.{plain_char-letters, Handled, keyboard_handler-Handled}

-- Two characters, around the end of the buffer, with Caps Lock on.
abbrev wrapped : Keyboard
wrapped = record {
  keyboard_buffer = update (update (λ i. 0) 255 b'a') 0 b'b';
  buffer_start = 255;
  buffer_end = 1;
  shift_pressed = false;
  ctrl_pressed = false;
  alt_pressed = false;
  capslock_on = true;
}

abbrev two_chars : List ℕ
two_chars = b'a' ∷ b'b' ∷ []

wrapped-Queued : Queued wrapped two_chars
wrapped-Queued = record { start = omega arith; end = refl; room = omega arith; cells = cells }
  where
    cells : (i : ℕ) → i < 2 → wrapped.keyboard_buffer ((255 + i) % 256) ≡ get_or two_chars i 0
    cells zero h = refl
    cells (suc zero) h = refl
    cells (suc (suc i)) h = absurd (omega arith)

buffer_put-Queued_example : Queued (buffer_put b'c' wrapped) (enqueue b'c' two_chars)
buffer_put-Queued_example = buffer_put-Queued b'c' wrapped two_chars wrapped-Queued

keyboard_getchar_nonblock-Queued_example :
    Dequeues wrapped two_chars (keyboard_getchar_nonblock wrapped)
keyboard_getchar_nonblock-Queued_example =
    keyboard_getchar_nonblock-Queued wrapped two_chars wrapped-Queued

keyboard_handler-Handled_example : Handled two_chars (keyboard_handler 0x1e wrapped)
keyboard_handler-Handled_example = keyboard_handler-Handled 0x1e wrapped two_chars wrapped-Queued

plain_char-letters_example :
    (is_letter_key 0x1e ≡ isalpha (plain_char false false 0x1e))
    × (plain_char false true 0x1e ≡ (
        if is_letter_key 0x1e
        then if xor false true
          then toupper (plain_char false false 0x1e)
          else plain_char false false 0x1e
        else plain_char false false 0x1e))
plain_char-letters_example = plain_char-letters false true 0x1e (omega arith)

-- The key of the letter a with Caps Lock on.
typed_letter : (keyboard_handler 0x1e wrapped).keyboard_buffer 1 ≡ b'A'
unfolding keyboard_handler handle_code press_key buffer_put control_char plain_char
typed_letter = refl

abbrev home : Vga
home = record { row = 0; col = 0; color = 7; buffer = λ a. 0; outs = [] }

keyboard_readline-Reads_example :
    Reads 4
      (9 ∷ 9 ∷ 9 ∷ 9 ∷ 9 ∷ [])
      (keyboard_readline (9 ∷ 9 ∷ 9 ∷ 9 ∷ 9 ∷ []) 4 (0x1c ∷ []) wrapped home)
keyboard_readline-Reads_example =
    keyboard_readline-Reads 4 (9 ∷ 9 ∷ 9 ∷ 9 ∷ 9 ∷ []) (0x1c ∷ []) wrapped home two_chars
      (omega arith) (omega arith) (omega arith) wrapped-Queued (omega arith, omega arith)

-- The keys q and Enter.
keyboard_readline-Returned_example :
    (i : ℕ) × (b : List ℕ) × (k : Keyboard) × (v : Vga) × (rest : List ℕ) × (keyboard_readline
        (9 ∷ 9 ∷ 9 ∷ 9 ∷ 9 ∷ [])
        5
        (0x10 ∷ 0x1c ∷ [])
        wrapped
        home
      ≡ line i b k v rest)
    × Returned 5 (9 ∷ 9 ∷ 9 ∷ 9 ∷ 9 ∷ []) i b k v
keyboard_readline-Returned_example =
    keyboard_readline-Returned 5 (9 ∷ 9 ∷ 9 ∷ 9 ∷ 9 ∷ []) (0x10 ∷ 0x1c ∷ []) wrapped home two_chars
      (omega arith) (omega arith) (omega arith) wrapped-Queued (omega arith, omega arith)
      (inr (Memᴰ.tail (Memᴰ.head refl)))
