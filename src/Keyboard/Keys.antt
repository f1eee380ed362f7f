-- ===== src/Keyboard/Keys.antt =====
-- The interrupt handler of src/drivers/keyboard.c: the modifier keys, the tables, and what is queued.
use kontol_os.Base.{
  ℕ, ◌<◌, ◌≡◌, refl, ◌⊎◌, inl, inr, Bool, true, false, not, ◌&&◌, ◌||◌, List, arith, if◌then◌else◌,
  ◌==◌, ==_iff, ltb, ltb→lt, length, Bool-cases, bit_and, all_below, all_below_lem, same_bool,
  same_bool_lem,
}
use kontol_os.CString.{isalpha, toupper}
use kontol_os.Keyboard.{
  Keyboard, scancode_to_ascii, scancode_lctrl, scancode_lshift, scancode_rshift, scancode_lalt,
  scancode_capslock, key_release_flag, buffer_put, is_letter_key, xor, plain_char, control_char,
  press_key, handle_code, keyboard_handler,
}
use kontol_os.Keyboard.Queue.{Queued, enqueue, buffer_put-Queued}

abbrev key_count : ℕ
key_count = 59

letter_check : ℕ → Bool
letter_check code = same_bool (is_letter_key code) (isalpha (plain_char false false code))

case_check : Bool → Bool → ℕ → Bool
case_check shift caps code =
    if is_letter_key code
    then plain_char shift caps code == (
        if xor shift caps
        then toupper (plain_char false false code)
        else plain_char false false code)
    else plain_char shift caps code == plain_char shift false code

letters_checked : all_below key_count letter_check ≡ true
unfolding letter_check plain_char isalpha
letters_checked = refl

cases_checked : (shift caps : Bool) → all_below key_count (case_check shift caps) ≡ true
unfolding case_check plain_char toupper
cases_checked true true = refl
cases_checked true false = refl
cases_checked false true = refl
cases_checked false false = refl

-- For every key in the tables: the keys whose shift state Caps Lock turns round are exactly those of the
-- letters, they give the upper-case letter if exactly one of Shift and Caps Lock is on, and the other keys
-- do not depend on Caps Lock.
pub plain_char-letters :
    (shift caps : Bool) (code : ℕ)
    → code < length scancode_to_ascii
    → (is_letter_key code ≡ isalpha (plain_char false false code))
      × (plain_char shift caps code ≡ (
          if is_letter_key code
          then if xor shift caps
            then toupper (plain_char false false code)
            else plain_char false false code
          else plain_char shift false code))
unfolding letter_check case_check
plain_char-letters shift caps code below =
    let letters = all_below_lem 59 letter_check letters_checked code below in
    let cases = all_below_lem 59 (case_check shift caps) (cases_checked shift caps) code below in
    (
      same_bool_lem (is_letter_key code) (isalpha (plain_char false false code)) letters,
      elim (Bool-cases (is_letter_key code)) [
        | inl letter ↦ rw letter ((==_iff _ _).0 (rw letter at cases))
        | inr other ↦ rw other ((==_iff _ _).0 (rw other at cases))
      ],
    )

ascii_check : Bool → Bool → Bool → ℕ → Bool
ascii_check shift caps ctrl code = ltb (control_char ctrl (plain_char shift caps code)) 128

ascii_checked : (shift caps ctrl : Bool) → all_below key_count (ascii_check shift caps ctrl) ≡ true
unfolding ascii_check plain_char control_char
ascii_checked true true true = refl
ascii_checked true true false = refl
ascii_checked true false true = refl
ascii_checked true false false = refl
ascii_checked false true true = refl
ascii_checked false true false = refl
ascii_checked false false true = refl
ascii_checked false false false = refl

-- The queue after the handler ran on a scancode: as before, or with one more ASCII character, not NUL.
abbrev pub Handled : List ℕ → Keyboard → Type 0
Handled q k' = Queued k' q ⊎ ((c : ℕ) × (0 < c) × (c < 128) × Queued k' (enqueue c q))

press_key-Handled :
    (code : ℕ) (k : Keyboard) (q : List ℕ) → Queued k q → Handled q (press_key code k)
unfolding press_key ascii_check
press_key-Handled code k q h =
    let c = control_char k.ctrl_pressed (plain_char k.shift_pressed k.capslock_on code) in
    elim (Bool-cases (ltb code 59)) [
      | inr outside ↦ rw outside (inl h)
      | inl inside ↦ elim (Bool-cases (c == 0)) [
        | inl nul ↦ rw (inside, nul) (inl h)
        | inr more ↦
            let low : c < 128 = ltb→lt c 128 (
              all_below_lem 59 (ascii_check k.shift_pressed k.capslock_on k.ctrl_pressed)
                (ascii_checked k.shift_pressed k.capslock_on k.ctrl_pressed) code
                (ltb→lt code 59 inside)) in
            rw (inside, more) (inr (c, ground arith, low, buffer_put-Queued c k q h))
      ]
    ]

-- The queue does not depend on the modifiers.
Queued-modifiers :
    (k : Keyboard) (q : List ℕ) (shift ctrl alt caps : Bool)
    → Queued k q
    → Queued
        (record k {
          shift_pressed = shift;
          ctrl_pressed = ctrl;
          alt_pressed = alt;
          capslock_on = caps;
        })
        q
Queued-modifiers k q shift ctrl alt caps h = record {
  start = h.start;
  end = h.end;
  room = h.room;
  cells = h.cells;
}

handle_code-Handled :
    (code : ℕ) (released : Bool) (k : Keyboard) (q : List ℕ)
    → Queued k q
    → Handled q (handle_code code released k)
unfolding handle_code
handle_code-Handled code released k q h =
    elim (Bool-cases (code == scancode_lshift || code == scancode_rshift)) [
      | inl shift ↦
          rw shift
            (inl (Queued-modifiers k q (not released) k.ctrl_pressed k.alt_pressed k.capslock_on h))
      | inr a ↦ elim (Bool-cases (code == scancode_lctrl)) [
        | inl ctrl ↦
            rw (a, ctrl)
              (inl
                (Queued-modifiers k q k.shift_pressed (not released) k.alt_pressed k.capslock_on h))
        | inr b ↦ elim (Bool-cases (code == scancode_lalt)) [
          | inl alt ↦
              rw (a, b, alt)
                (inl (
                  Queued-modifiers k q k.shift_pressed k.ctrl_pressed (not released) k.capslock_on
                    h))
          | inr c ↦ elim (Bool-cases (code == scancode_capslock)) [
            | inl caps ↦ rw (a, b, c, caps) (caps_lock released)
            | inr d ↦ rw (a, b, c, d) (plain released)
          ]
        ]
      ]
    ]
  where
    caps_lock :
        (r : Bool) → Handled q (if not r then record k { capslock_on = not k.capslock_on } else k)
    caps_lock true = inl h
    caps_lock false =
        inl
          (Queued-modifiers k q k.shift_pressed k.ctrl_pressed k.alt_pressed (not k.capslock_on) h)

    plain : (r : Bool) → Handled q (if r then k else press_key code k)
    plain true = inl h
    plain false = press_key-Handled code k q h

-- Whatever byte the controller delivers, the handler keeps the ring in order: the queue is as before, or
-- one ASCII character that is not NUL was put to it, which a full queue drops.
pub keyboard_handler-Handled :
    (scancode : ℕ) (k : Keyboard) (q : List ℕ)
    → Queued k q
    → Handled q (keyboard_handler scancode k)
unfolding keyboard_handler
keyboard_handler-Handled scancode k q h =
    handle_code-Handled (bit_and scancode 0x7f) (not (bit_and scancode key_release_flag == 0)) k q h

-- The modifiers after the handler ran on a code.
pub record Modifiers (code : ℕ) (released : Bool) (k k' : Keyboard) : Type 0 where
  pub shift : k'.shift_pressed ≡ (
      if code == scancode_lshift || code == scancode_rshift then not released else k.shift_pressed)
  pub ctrl : k'.ctrl_pressed ≡ (if code == scancode_lctrl then not released else k.ctrl_pressed)
  pub alt : k'.alt_pressed ≡ (if code == scancode_lalt then not released else k.alt_pressed)
  pub caps :
      k'.capslock_on
      ≡ (if code == scancode_capslock && not released then not k.capslock_on else k.capslock_on)

press_key-Modifiers :
    (code : ℕ) (k : Keyboard)
    → ((press_key code k).shift_pressed ≡ k.shift_pressed)
      × ((press_key code k).ctrl_pressed ≡ k.ctrl_pressed)
      × ((press_key code k).alt_pressed ≡ k.alt_pressed)
      × ((press_key code k).capslock_on ≡ k.capslock_on)
unfolding press_key buffer_put
press_key-Modifiers code k = ground arith

-- Each modifier follows its own keys only: Shift, Ctrl and Alt are on from the press to the release, and
-- every press of Caps Lock turns it round.
pub handle_code-Modifiers :
    (code : ℕ) (released : Bool) (k : Keyboard)
    → Modifiers code released k (handle_code code released k)
unfolding handle_code
handle_code-Modifiers code released k = ground (arith, press_key-Modifiers code k)
