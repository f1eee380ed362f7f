-- ===== src/Keyboard/Enter.antt =====
-- The Enter key ends keyboard_readline of src/drivers/keyboard.c.
use kontol_os.Base.{
  ℕ, zero, suc, ◌+◌, ◌^◌, ◌≤◌, ◌<◌, ◌≡◌, refl, sym, ap, subst, ◌∙◌, ◌⊎◌, inl, inr, Option, some,
  List, [], ◌∷◌, arith, ◌==◌, ltb, sub32, length, Bool-cases,
}
use mathlib.Core.List.{Memᴰ}
use mathlib.Core.List.Memᴰ
use kontol_os.Keyboard.{
  Keyboard, buffer_put, keyboard_getchar, take_key, keyboard_handler, handle_code, press_key,
  plain_char, control_char,
}
use kontol_os.Keyboard.Queue.{Queued, enqueue, has_key-empty, take_key-Queued, buffer_put-Queued}
use kontol_os.Keyboard.Keys.{keyboard_handler-Handled}
use kontol_os.Keyboard.Line.{
  Line, waiting, line, fault, exhausted, end_line, read_from, keyboard_readline,
}
use kontol_os.Keyboard.Reads.{Returned, getchar-filled, keyboard_readline-Reads}
use kontol_os.Vga.{Vga, vga_putchar}
use kontol_os.Vga.Cursor.{IsOnScreen}

-- A newline is in the ring, or the Enter key is among the scancodes to come.
abbrev pub Due : List ℕ → List ℕ → Type 0
Due q arriving = Memᴰ 10 q ⊎ Memᴰ 0x1c arriving

-- Enter, whatever keys are held.
enter_key : (k : Keyboard) → keyboard_handler 0x1c k ≡ buffer_put 10 k
unfolding keyboard_handler handle_code press_key plain_char control_char
enter_key k = elim (Bool-cases k.shift_pressed) [
  | inl s ↦ elim (Bool-cases k.ctrl_pressed) [ inl c ↦ rw (s, c) refl | inr c ↦ rw (s, c) refl ]
  | inr s ↦ elim (Bool-cases k.ctrl_pressed) [ inl c ↦ rw (s, c) refl | inr c ↦ rw (s, c) refl ]
]

-- keyboard_getchar answers the newline, or the line end is still to come.
abbrev GetsDue : Option (ℕ × Keyboard × List ℕ) → Type 0
GetsDue r =
    (c : ℕ) × (k' : Keyboard) × (rest : List ℕ) × (q' : List ℕ) × (r ≡ some (c, k', rest))
    × Queued k' q'
    × ((c ≡ 10) ⊎ Due q' rest)

handled_ring :
    (scancode : ℕ) (k : Keyboard)
    → Queued k []
    → (q : List ℕ) × Queued (keyboard_handler scancode k) q
handled_ring scancode k h = elim (keyboard_handler-Handled scancode k [] h) [
  | inl same ↦ ([], same)
  | inr (c, low, high, more) ↦ (enqueue c [], more)
]

after_first : (c : ℕ) (q arriving : List ℕ) → Due (c ∷ q) arriving → (c ≡ 10) ⊎ Due q arriving
after_first c q arriving (inl m) = elim (Memᴰ.cases_cons m) [
  | inl e ↦ inl (sym e)
  | inr rest ↦ inr (inl rest)
]
after_first c q arriving (inr m) = inr (inr m)

keyboard_getchar-GetsDue :
    (arriving : List ℕ) (k : Keyboard) (q : List ℕ)
    → Queued k q
    → Due q arriving
    → GetsDue (keyboard_getchar arriving k)
unfolding keyboard_getchar
keyboard_getchar-GetsDue arriving k (c ∷ q) h due =
    let (same, h') = take_key-Queued k c q h in
    (
      c,
      (take_key k).1,
      arriving,
      q,
      getchar-filled arriving k c q h ∙ ap (λ x. some (x, (take_key k).1, arriving)) same,
      h',
      after_first c q arriving due,
    )
keyboard_getchar-GetsDue [] k [] h (inl m) = absurd (Memᴰ.not-nil m)
keyboard_getchar-GetsDue [] k [] h (inr m) = absurd (Memᴰ.not-nil m)
keyboard_getchar-GetsDue (scancode ∷ arriving) k [] h (inl m) = absurd (Memᴰ.not-nil m)
keyboard_getchar-GetsDue (scancode ∷ arriving) k [] h (inr m) =
    rw (has_key-empty k h) (elim (Memᴰ.cases_cons m) [
      | inl e ↦
          keyboard_getchar-GetsDue arriving (keyboard_handler scancode k) (10 ∷ [])
            (subst (λ k'. Queued k' (10 ∷ []))
              (sym (ap (λ s. keyboard_handler s k) (sym e) ∙ enter_key k))
              (buffer_put-Queued 10 k [] h))
            (inl (Memᴰ.head refl))
      | inr later ↦
          let (q, h') = handled_ring scancode k h in
          keyboard_getchar-GetsDue arriving (keyboard_handler scancode k) q h' (inr later)
    ])

-- The call does not wait.
abbrev GoesOn : Line → Type 0
GoesOn waiting = ⊥
GoesOn (line i b k v rest) = Unit
GoesOn fault = Unit
GoesOn exhausted = Unit

end_line-GoesOn :
    (i : ℕ) (buffer : List ℕ) (k : Keyboard) (v : Vga) (rest : List ℕ)
    → GoesOn (end_line i buffer k v rest)
unfolding end_line
end_line-GoesOn i buffer k v rest = elim (Bool-cases (ltb i (length buffer))) [
  | inl inside ↦ rw inside tt
  | inr outside ↦ rw outside tt
]

read_from-GoesOn :
    (fuel max_length i : ℕ) (buffer arriving : List ℕ) (k : Keyboard) (v : Vga) (q : List ℕ)
    → Queued k q
    → Due q arriving
    → GoesOn (read_from fuel max_length i buffer arriving k v)
unfolding read_from
read_from-GoesOn zero max_length i buffer arriving k v q h due = tt
read_from-GoesOn (suc fuel) max_length i buffer arriving k v q h due =
    let (c, k', rest, q', run, h', stop) = keyboard_getchar-GetsDue arriving k q h due in
    elim (Bool-cases (ltb i (sub32 max_length 1))) [
      | inr limit ↦ rw limit (end_line-GoesOn i buffer k v arriving)
      | inl more ↦ elim (Bool-cases (c == 10)) [
        | inl newline ↦
            rw (more, run, newline) (end_line-GoesOn i buffer k' (vga_putchar 10 v) rest)
        | inr other ↦
            let due' : Due q' rest = elim stop [
              | inl e ↦ absurd (ground (arith, e, other))
              | inr later ↦ later
            ] in
            let go : (j : ℕ) (b : List ℕ) (w : Vga)
                → GoesOn (read_from fuel max_length j b rest k' w) =
              λ j b w. read_from-GoesOn fuel max_length j b rest k' w q' h' due' in
            elim (Bool-cases (c == 8)) [
              | inl back ↦ elim (Bool-cases (ltb 0 i)) [
                | inl left ↦ rw (more, run, other, back, left) (go _ _ _)
                | inr start ↦ rw (more, run, other, back, start) (go _ _ _)
              ]
              | inr char ↦ elim (Bool-cases (ltb i (length buffer))) [
                | inl inside ↦ rw (more, run, other, char, inside) (go _ _ _)
                | inr outside ↦ rw (more, run, other, char, outside) tt
              ]
            ]
      ]
    ]

-- If a newline stands in the ring or the Enter key is among the interrupts to come, keyboard_readline into a
-- buffer of at least `max_length` bytes returns, whatever the other keys are.
pub keyboard_readline-Returned :
    (max_length : ℕ) (buffer arriving : List ℕ) (k : Keyboard) (v : Vga) (q : List ℕ)
    → 0 < max_length
    → max_length ≤ length buffer
    → max_length < 2 ^ 32
    → Queued k q
    → IsOnScreen v
    → Due q arriving
    → (i : ℕ) × (b : List ℕ) × (k' : Keyboard) × (v' : Vga) × (rest : List ℕ) × (keyboard_readline
          buffer max_length arriving k v
        ≡ line i b k' v' rest)
      × Returned max_length buffer i b k' v'
unfolding keyboard_readline
keyboard_readline-Returned max_length buffer arriving k v q more room small h on due =
    elim (keyboard_readline-Reads max_length buffer arriving k v q more room small h on) [
      | inl waits ↦ absurd (
          subst GoesOn waits
            (read_from-GoesOn (256 + length arriving) max_length 0 buffer arriving k v q h due))
      | inr done ↦ done
    ]
