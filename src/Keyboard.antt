-- ===== src/Keyboard.antt =====
-- The keyboard driver of src/drivers/keyboard.c: the character buffer, the state of the modifier keys, and
-- the interrupt handler.
--
-- `keyboard_buffer` is a function from indices, since every index is taken modulo its size. `inb` of
-- the data port is the argument `scancode` of the handler.
pub mod Queue
pub mod Keys
pub mod Line
pub mod Reads
pub mod Enter
mod Tests
use kontol_os.Base.{
  ℕ, zero, suc, ◌+◌, ◌-◌, ◌%◌, bit_and, Bool, true, false, not, ◌&&◌, ◌||◌, Option, none, some,
  List, [], ◌∷◌, if◌then◌else◌, ◌==◌, ltb, leb, get_or, length, update,
}

abbrev pub keyboard_buffer_size : ℕ
keyboard_buffer_size = 256

pub record Keyboard : Type 0 where
  pub keyboard_buffer : ℕ → ℕ
  pub buffer_start : ℕ
  pub buffer_end : ℕ
  pub shift_pressed : Bool
  pub ctrl_pressed : Bool
  pub alt_pressed : Bool
  pub capslock_on : Bool

abbrev pub scancode_to_ascii : List ℕ
scancode_to_ascii =
    0 ∷ 27 ∷ b'1' ∷ b'2' ∷ b'3' ∷ b'4' ∷ b'5' ∷ b'6' ∷ b'7' ∷ b'8' ∷ b'9' ∷ b'0' ∷ b'-' ∷ b'=' ∷ 8
    ∷ 9 ∷ b'q' ∷ b'w' ∷ b'e' ∷ b'r' ∷ b't' ∷ b'y' ∷ b'u' ∷ b'i' ∷ b'o' ∷ b'p' ∷ b'[' ∷ b']' ∷ 10 ∷ 0
    ∷ b'a' ∷ b's' ∷ b'd' ∷ b'f' ∷ b'g' ∷ b'h' ∷ b'j' ∷ b'k' ∷ b'l' ∷ b';' ∷ 39 ∷ b'`' ∷ 0 ∷ 92
    ∷ b'z' ∷ b'x' ∷ b'c' ∷ b'v' ∷ b'b' ∷ b'n' ∷ b'm' ∷ b',' ∷ b'.' ∷ b'/' ∷ 0 ∷ b'*' ∷ 0 ∷ b' ' ∷ 0
    ∷ []

abbrev pub scancode_to_ascii_shift : List ℕ
scancode_to_ascii_shift =
    0 ∷ 27 ∷ b'!' ∷ b'@' ∷ b'#' ∷ b'$' ∷ b'%' ∷ b'^' ∷ b'&' ∷ b'*' ∷ b'(' ∷ b')' ∷ b'_' ∷ b'+' ∷ 8
    ∷ 9 ∷ b'Q' ∷ b'W' ∷ b'E' ∷ b'R' ∷ b'T' ∷ b'Y' ∷ b'U' ∷ b'I' ∷ b'O' ∷ b'P' ∷ b'{' ∷ b'}' ∷ 10 ∷ 0
    ∷ b'A' ∷ b'S' ∷ b'D' ∷ b'F' ∷ b'G' ∷ b'H' ∷ b'J' ∷ b'K' ∷ b'L' ∷ b':' ∷ 34 ∷ b'~' ∷ 0 ∷ b'|'
    ∷ b'Z' ∷ b'X' ∷ b'C' ∷ b'V' ∷ b'B' ∷ b'N' ∷ b'M' ∷ b'<' ∷ b'>' ∷ b'?' ∷ 0 ∷ b'*' ∷ 0 ∷ b' ' ∷ 0
    ∷ []

abbrev pub scancode_lctrl : ℕ
scancode_lctrl = 0x1d

abbrev pub scancode_lshift : ℕ
scancode_lshift = 0x2a

abbrev pub scancode_rshift : ℕ
scancode_rshift = 0x36

abbrev pub scancode_lalt : ℕ
scancode_lalt = 0x38

abbrev pub scancode_capslock : ℕ
scancode_capslock = 0x3a

abbrev pub key_release_flag : ℕ
key_release_flag = 0x80

unfoldable pub buffer_put : ℕ → Keyboard → Keyboard
buffer_put c k =
    let next = (k.buffer_end + 1) % keyboard_buffer_size in
    if not (next == k.buffer_start)
    then record k { keyboard_buffer = update k.keyboard_buffer k.buffer_end c; buffer_end = next }
    else k

-- The three rows of letters.
abbrev pub is_letter_key : ℕ → Bool
is_letter_key code =
    leb 0x10 code && leb code 0x19
    || leb 0x1e code && leb code 0x26
    || leb 0x2c code && leb code 0x32

-- `shift_pressed ^ capslock_on`
abbrev pub xor : Bool → Bool → Bool
xor true b = not b
xor false b = b

-- The character of a key, before Ctrl.
unfoldable pub plain_char : Bool → Bool → ℕ → ℕ
plain_char shift caps code =
    let use_shift = if is_letter_key code then xor shift caps else shift in
    if use_shift then get_or scancode_to_ascii_shift code 0 else get_or scancode_to_ascii code 0

-- What Ctrl makes of it.
unfoldable pub control_char : Bool → ℕ → ℕ
control_char ctrl c =
    if ctrl && leb b'a' c && leb c b'z'
    then c - b'a' + 1
    else if ctrl && leb b'A' c && leb c b'Z'
    then c - b'A' + 1
    else c

-- The handler from the conversion to ASCII on.
unfoldable pub press_key : ℕ → Keyboard → Keyboard
press_key code k =
    let c = control_char k.ctrl_pressed (plain_char k.shift_pressed k.capslock_on code) in
    if ltb code (length scancode_to_ascii) then if not (c == 0) then buffer_put c k else k else k

-- The handler on a scancode without the release flag, and whether the flag was set.
unfoldable pub handle_code : ℕ → Bool → Keyboard → Keyboard
handle_code code released k =
    if code == scancode_lshift || code == scancode_rshift
    then record k { shift_pressed = not released }
    else if code == scancode_lctrl
    then record k { ctrl_pressed = not released }
    else if code == scancode_lalt
    then record k { alt_pressed = not released }
    else if code == scancode_capslock
    then if not released then record k { capslock_on = not k.capslock_on } else k
    else if released
    then k
    else press_key code k

-- `scancode &= ~KEY_RELEASE_FLAG` keeps the low seven bits of a byte.
unfoldable pub keyboard_handler : ℕ → Keyboard → Keyboard
keyboard_handler scancode k =
    handle_code (bit_and scancode 0x7f) (not (bit_and scancode key_release_flag == 0)) k

-- Without the registration of the handler, which src/drivers/keyboard.c makes last.
unfoldable pub keyboard_init : Keyboard → Keyboard
keyboard_init k = record k { buffer_start = 0; buffer_end = 0 }

unfoldable pub keyboard_has_key : Keyboard → Bool
keyboard_has_key k = not (k.buffer_start == k.buffer_end)

-- The last lines of both functions that read a character.
unfoldable pub take_key : Keyboard → ℕ × Keyboard
take_key k = (
  k.keyboard_buffer k.buffer_start,
  record k { buffer_start = (k.buffer_start + 1) % keyboard_buffer_size },
)

-- The bytes that the controller delivers while the loop halts; `none` when it is still waiting.
unfoldable pub keyboard_getchar : List ℕ → Keyboard → Option (ℕ × Keyboard × List ℕ)
keyboard_getchar [] k =
    let (c, k') = take_key k in if not (keyboard_has_key k) then none else some (c, k', [])
keyboard_getchar (scancode ∷ arriving) k =
    let (c, k') = take_key k in
    let waited = keyboard_getchar arriving (keyboard_handler scancode k) in
    if not (keyboard_has_key k) then waited else some (c, k', scancode ∷ arriving)

unfoldable pub keyboard_getchar_nonblock : Keyboard → ℕ × Keyboard
keyboard_getchar_nonblock k = if not (keyboard_has_key k) then (0, k) else take_key k

unfoldable pub keyboard_shift_pressed : Keyboard → Bool
keyboard_shift_pressed k = k.shift_pressed

unfoldable pub keyboard_ctrl_pressed : Keyboard → Bool
keyboard_ctrl_pressed k = k.ctrl_pressed

unfoldable pub keyboard_alt_pressed : Keyboard → Bool
keyboard_alt_pressed k = k.alt_pressed
