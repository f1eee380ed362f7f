-- ===== src/Keyboard/Reads.antt =====
-- keyboard_getchar and keyboard_readline of src/drivers/keyboard.c on a ring in order.
use kontol_os.Base.{
  ℕ, zero, suc, ◌+◌, ◌-◌, ◌^◌, ◌≤◌, ◌<◌, ◌≡◌, refl, ◌∙◌, ◌⊎◌, inl, inr, true, Option, none, some,
  List, [], ◌∷◌, arith, ◌==◌, ltb, sub32, length, length-append, length-set, set, get_or,
  get_or-set_self, get_or-set_ne, Bool-cases,
}
use kontol_os.Keyboard.{Keyboard, keyboard_getchar, take_key, keyboard_handler}
use kontol_os.Keyboard.Queue.{Queued, enqueue, has_key-empty, has_key-filled, take_key-Queued}
use kontol_os.Keyboard.Keys.{Handled, keyboard_handler-Handled}
use kontol_os.Keyboard.Line.{Line, waiting, line, end_line, read_from, keyboard_readline}
use kontol_os.Vga.{Vga, vga_putchar}
use kontol_os.Vga.Cursor.{IsOnScreen, vga_putchar-Shown}

-- keyboard_getchar waits on, or answers the oldest character and leaves a ring in order, with fewer
-- characters to come.
abbrev pub Gets : List ℕ → List ℕ → Option (ℕ × Keyboard × List ℕ) → Type 0
Gets q arriving r =
    (r ≡ none)
    ⊎ ((c : ℕ) × (k' : Keyboard) × (rest : List ℕ) × (q' : List ℕ) × (r ≡ some (c, k', rest))
        × Queued k' q'
        × (length q' + length rest < length q + length arriving))

length-enqueue : (c : ℕ) (q : List ℕ) → length (enqueue c q) ≤ length q + 1
length-enqueue c q = ground (arith, length-append q (c ∷ []))

pub getchar-filled :
    (arriving : List ℕ) (k : Keyboard) (c : ℕ) (q : List ℕ)
    → Queued k (c ∷ q)
    → keyboard_getchar arriving k ≡ some ((take_key k).0, (take_key k).1, arriving)
unfolding keyboard_getchar
getchar-filled [] k c q h = rw (has_key-filled k c q h) refl
getchar-filled (scancode ∷ arriving) k c q h = rw (has_key-filled k c q h) refl

pub keyboard_getchar-Gets :
    (arriving : List ℕ) (k : Keyboard) (q : List ℕ)
    → Queued k q
    → Gets q arriving (keyboard_getchar arriving k)
unfolding keyboard_getchar
keyboard_getchar-Gets arriving k (c ∷ q) h = inr (
  (take_key k).0,
  (take_key k).1,
  arriving,
  q,
  getchar-filled arriving k c q h,
  (take_key-Queued k c q h).1,
  omega arith,
)
keyboard_getchar-Gets [] k [] h = inl (rw (has_key-empty k h) refl)
keyboard_getchar-Gets (scancode ∷ arriving) k [] h =
    let (q1, h1, less) =
      handled (keyboard_handler scancode k) (keyboard_handler-Handled scancode k [] h) in
    rw (has_key-empty k h)
      (elim (keyboard_getchar-Gets arriving (keyboard_handler scancode k) q1 h1) [
        | inl nothing ↦ inl nothing
        | inr (c, k', rest, q', run, h', fewer) ↦ inr (c, k', rest, q', run, h', omega arith)
      ])
  where
    handled : (k1 : Keyboard) → Handled [] k1 → (q1 : List ℕ) × Queued k1 q1 × (length q1 ≤ 1)
    handled k1 (inl same) = ([], same, omega arith)
    handled k1 (inr (c, low, high, more)) = (enqueue c [], more, length-enqueue c [])

-- A call that returned: the count is below the limit, a NUL stands there, the bytes from the limit on are as
-- before, the ring is in order and the cursor on the screen.
pub record Returned (max_length : ℕ) (buffer : List ℕ) (i : ℕ) (b : List ℕ) (k : Keyboard) (v : Vga)
    : Type 0 where
  pub count : i < max_length
  pub size : length b ≡ length buffer
  pub ends : get_or b i 1 ≡ 0
  pub kept : (j : ℕ) → max_length ≤ j → get_or b j 0 ≡ get_or buffer j 0
  pub ring : (q : List ℕ) × Queued k q
  pub screen : IsOnScreen v

abbrev pub Reads : ℕ → List ℕ → Line → Type 0
Reads max_length buffer r =
    (r ≡ waiting)
    ⊎ ((i : ℕ) × (b : List ℕ) × (k : Keyboard) × (v : Vga) × (rest : List ℕ) × (r
          ≡ line i b k v rest)
        × Returned max_length buffer i b k v)

end_line-Reads :
    (max_length i : ℕ) (buffer : List ℕ) (k : Keyboard) (v : Vga) (rest : List ℕ) (q : List ℕ)
    → max_length ≤ length buffer
    → i < max_length
    → Queued k q
    → IsOnScreen v
    → Reads max_length buffer (end_line i buffer k v rest)
unfolding end_line
end_line-Reads max_length i buffer k v rest q room below h on =
    let inside : ltb i (length buffer) ≡ true = ground arith in
    rw inside (
      inr (
        i,
        set buffer i 0,
        k,
        v,
        rest,
        refl,
        record {
          count = below;
          size = length-set buffer i 0;
          ends = get_or-set_self buffer i 0 1 (omega arith);
          kept = λ j above. get_or-set_ne buffer 0 0 (omega arith);
          ring = (q, h);
          screen = on;
        },
      ))

-- A character stored below the limit does not change what is kept.
Reads-set :
    (max_length i c : ℕ) (buffer : List ℕ) (r : Line)
    → i < max_length
    → Reads max_length (set buffer i c) r
    → Reads max_length buffer r
Reads-set max_length i c buffer r below (inl nothing) = inl nothing
Reads-set max_length i c buffer r below (inr (n, b, k, v, rest, run, d)) = inr (
  n,
  b,
  k,
  v,
  rest,
  run,
  record {
    count = d.count;
    size = d.size ∙ length-set buffer i c;
    ends = d.ends;
    kept = λ j above. d.kept j above ∙ get_or-set_ne buffer c 0 (omega arith);
    ring = d.ring;
    screen = d.screen;
  },
)

read_from-Reads :
    (fuel max_length i : ℕ) (buffer arriving : List ℕ) (k : Keyboard) (v : Vga) (q : List ℕ)
    → max_length ≤ length buffer
    → i < max_length
    → max_length < 2 ^ 32
    → length q + length arriving < fuel
    → Queued k q
    → IsOnScreen v
    → Reads max_length buffer (read_from fuel max_length i buffer arriving k v)
unfolding read_from
read_from-Reads zero max_length i buffer arriving k v q room below small enough h on =
    absurd (omega arith)
read_from-Reads (suc fuel) max_length i buffer arriving k v q room below small enough h on =
    let limit : sub32 max_length 1 ≡ max_length - 1 = omega arith in
    let inside : ltb i (length buffer) ≡ true = ground arith in
    elim (Bool-cases (ltb i (max_length - 1))) [
      | inr full ↦
          rw (limit, full) (end_line-Reads max_length i buffer k v arriving q room below h on)
      | inl more ↦ elim (keyboard_getchar-Gets arriving k q h) [
        | inl nothing ↦ rw (limit, more, nothing) (inl refl)
        | inr (c, k', rest, q', run, h', fewer) ↦ elim (Bool-cases (c == 10)) [
          | inl newline ↦
              rw (limit, more, run, newline)
                (end_line-Reads max_length i buffer k' (vga_putchar 10 v) rest q' room below h'
                  (vga_putchar-Shown 10 v on).0)
          | inr a ↦ elim (Bool-cases (c == 8)) [
            | inr b ↦
                rw (limit, more, run, a, b, inside)
                  (Reads-set max_length i c buffer _ below (
                    read_from-Reads fuel max_length (i + 1) (set buffer i c) rest k'
                      (vga_putchar c v) q' (omega (arith, length-set buffer i c)) (ground arith)
                      small (omega arith) h' (vga_putchar-Shown c v on).0))
            | inl back ↦ elim (Bool-cases (ltb 0 i)) [
              | inl some_left ↦
                  rw (limit, more, run, a, back, some_left)
                    (read_from-Reads fuel max_length (i - 1) buffer rest k' (vga_putchar 8 v) q'
                      room (omega arith) small (omega arith) h' (vga_putchar-Shown 8 v on).0)
              | inr start ↦
                  rw (limit, more, run, a, back, start)
                    (read_from-Reads fuel max_length i buffer rest k' v q' room below small
                      (omega arith) h' on)
            ]
          ]
        ]
      ]
    ]

-- With the ring in order and the cursor on the screen, keyboard_readline into a buffer of at least
-- `max_length` bytes, at least one, never writes outside it and never runs out of fuel. Either it still waits
-- when the interrupts are used up, or it returned a count below the limit, with a NUL there, the bytes from
-- the limit on as before, the ring in order and the cursor on the screen.
pub keyboard_readline-Reads :
    (max_length : ℕ) (buffer arriving : List ℕ) (k : Keyboard) (v : Vga) (q : List ℕ)
    → 0 < max_length
    → max_length ≤ length buffer
    → max_length < 2 ^ 32
    → Queued k q
    → IsOnScreen v
    → Reads max_length buffer (keyboard_readline buffer max_length arriving k v)
unfolding keyboard_readline
keyboard_readline-Reads max_length buffer arriving k v q more room small h on =
    read_from-Reads (256 + length arriving) max_length 0 buffer arriving k v q room more small
      (omega (arith, h.room)) h on
