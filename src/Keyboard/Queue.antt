-- ===== src/Keyboard/Queue.antt =====
-- The character buffer of src/drivers/keyboard.c as a queue of at most 255 characters.
use kontol_os.Base.{
  ℕ, zero, suc, ◌+◌, ◌-◌, ◌%◌, ◌<◌, ◌≡◌, ◌≢◌, refl, sym, ap, ◌∙◌, inl, inr, true, false, List, [],
  ◌∷◌, ◌++◌, arith, if◌then◌else◌, ◌==◌, ==_of_ne, ==_iff, ltb, get_or, length, length-append,
  update, Bool-cases,
}
use native.Mathlib.Decide.{dec_lt}
use kontol_os.Keyboard.{
  Keyboard, keyboard_buffer_size, buffer_put, keyboard_init, keyboard_has_key, take_key,
  keyboard_getchar_nonblock,
}

-- The buffer holds the characters `q`, the oldest first.
pub record Queued (k : Keyboard) (q : List ℕ) : Type 0 where
  pub start : k.buffer_start < keyboard_buffer_size
  pub end : k.buffer_end ≡ (k.buffer_start + length q) % keyboard_buffer_size
  pub room : length q < keyboard_buffer_size
  pub cells :
      (i : ℕ)
      → i < length q
      → k.keyboard_buffer ((k.buffer_start + i) % keyboard_buffer_size) ≡ get_or q i 0

-- The queue after a character comes: a full one drops it.
abbrev pub enqueue : ℕ → List ℕ → List ℕ
enqueue c q = if ltb (length q) (keyboard_buffer_size - 1) then q ++ (c ∷ []) else q

-- What a read without waiting does.
abbrev pub Dequeues : Keyboard → List ℕ → ℕ × Keyboard → Type 0
Dequeues k [] r = r ≡ (0, k)
Dequeues k (c ∷ q) r = (r.0 ≡ c) × Queued r.1 q

get_or-append_left : (q r : List ℕ) (i : ℕ) → i < length q → get_or (q ++ r) i 0 ≡ get_or q i 0
get_or-append_left [] r i h = absurd (omega arith)
get_or-append_left (x ∷ q) r zero h = refl
get_or-append_left (x ∷ q) r (suc i) h = get_or-append_left q r i (omega arith)

get_or-append_last : (q : List ℕ) (c : ℕ) → get_or (q ++ (c ∷ [])) (length q) 0 ≡ c
get_or-append_last [] c = refl
get_or-append_last (x ∷ q) c = get_or-append_last q c

-- Two places of the ring that are less than its size apart are different.
ring_apart : (s i n : ℕ) → s < 256 → i < n → n < 256 → ((s + i) % 256) ≢ ((s + n) % 256)
ring_apart s i n a b c e = omega arith

ring_turn : (s n : ℕ) → s < 256 → n < 255 → ((s + n) % 256 + 1) % 256 ≢ s
ring_turn s n a b e = omega arith

ring_moved : (s n : ℕ) → s < 256 → 0 < n → n < 256 → s ≢ ((s + n) % 256)
ring_moved s n a b c e = omega arith

ring_here : (s : ℕ) → s < 256 → s ≡ (s + 0) % 256
ring_here s h = omega arith

ring_next : (s i : ℕ) → ((s + 1) % 256 + i) % 256 ≡ (s + (i + 1)) % 256
ring_next s i = omega arith

buffer_put-full :
    (c : ℕ) (k : Keyboard) → (k.buffer_end + 1) % 256 ≡ k.buffer_start → buffer_put c k ≡ k
unfolding buffer_put
buffer_put-full c k h =
    let same : ((k.buffer_end + 1) % 256 == k.buffer_start) ≡ true = ground arith in rw same

buffer_put-room :
    (c : ℕ) (k : Keyboard)
    → (k.buffer_end + 1) % 256 ≢ k.buffer_start
    → buffer_put c k ≡ record k {
      keyboard_buffer = update k.keyboard_buffer k.buffer_end c;
      buffer_end = (k.buffer_end + 1) % 256;
    }
unfolding buffer_put
buffer_put-room c k h =
    let other : ((k.buffer_end + 1) % 256 == k.buffer_start) ≡ false = ==_of_ne _ _ h in rw other

put-cells :
    (c : ℕ) (k : Keyboard) (q : List ℕ)
    → length q < 255
    → Queued k q
    → (i : ℕ) → i < length q + 1
    → update k.keyboard_buffer k.buffer_end c ((k.buffer_start + i) % 256)
      ≡ get_or (q ++ (c ∷ [])) i 0
put-cells c k q room h i below = elim (dec_lt i (length q)) [
  | yes less ↦
      let other : ((k.buffer_start + i) % 256 == k.buffer_end) ≡ false =
        ==_of_ne _ _
          (λ e. ring_apart k.buffer_start i (length q) h.start less (omega arith) (e ∙ h.end)) in
      rw (other, get_or-append_left q (c ∷ []) i less) (h.cells i less)
  | no last ↦
      let at : i ≡ length q = omega arith in
      let same : ((k.buffer_start + i) % 256 == k.buffer_end) ≡ true =
        (==_iff _ _).1 (ap (λ j. (k.buffer_start + j) % 256) at ∙ sym h.end) in
      rw same (sym (get_or-append_last q c) ∙ ap (λ j. get_or (q ++ (c ∷ [])) j 0) (sym at))
]

put-Queued :
    (c : ℕ) (k : Keyboard) (q : List ℕ)
    → length q < 255
    → Queued k q
    → Queued
        (record k {
          keyboard_buffer = update k.keyboard_buffer k.buffer_end c;
          buffer_end = (k.buffer_end + 1) % 256;
        })
        (q ++ (c ∷ []))
put-Queued c k q room h = record {
  start = h.start;
  end = omega (arith, h.end, length-append q (c ∷ []));
  room = omega (arith, length-append q (c ∷ []));
  cells = λ i below. put-cells c k q room h i (omega (arith, length-append q (c ∷ [])));
}

-- buffer_put refines the queue: the character is appended to fewer than 255, and dropped otherwise.
pub buffer_put-Queued :
    (c : ℕ) (k : Keyboard) (q : List ℕ) → Queued k q → Queued (buffer_put c k) (enqueue c q)
buffer_put-Queued c k q h = elim (Bool-cases (ltb (length q) 255)) [
  | inl room ↦
      let less : length q < 255 = ground arith in
      let free : (k.buffer_end + 1) % 256 ≢ k.buffer_start = λ e.
        ring_turn k.buffer_start (length q) h.start less
          (ap (λ b. (b + 1) % 256) (sym h.end) ∙ e) in
      rw (room, buffer_put-room c k free) (put-Queued c k q less h)
  | inr full ↦
      let all : length q ≡ 255 = ground (arith, h.room) in
      let met : (k.buffer_end + 1) % 256 ≡ k.buffer_start = omega (arith, h.end, h.start) in
      rw (full, buffer_put-full c k met) h
]

-- The driver starts with an empty queue.
pub keyboard_init-Queued : (k : Keyboard) → Queued (keyboard_init k) []
unfolding keyboard_init
keyboard_init-Queued k = record {
  start = omega arith;
  end = refl;
  room = omega arith;
  cells = λ i below. absurd (omega arith);
}

pub has_key-empty : (k : Keyboard) → Queued k [] → keyboard_has_key k ≡ false
unfolding keyboard_has_key
has_key-empty k h =
    let same : (k.buffer_start == k.buffer_end) ≡ true =
      (==_iff _ _).1 (omega (arith, h.end, h.start)) in
    rw same refl

pub has_key-filled :
    (k : Keyboard) (c : ℕ) (q : List ℕ) → Queued k (c ∷ q) → keyboard_has_key k ≡ true
unfolding keyboard_has_key
has_key-filled k c q h =
    let other : (k.buffer_start == k.buffer_end) ≡ false =
      ==_of_ne _ _ (λ e.
        ring_moved k.buffer_start (length (c ∷ q)) h.start (omega arith) h.room (e ∙ h.end)) in
    rw other refl

pub take_key-Queued :
    (k : Keyboard) (c : ℕ) (q : List ℕ)
    → Queued k (c ∷ q)
    → ((take_key k).0 ≡ c) × Queued (take_key k).1 q
unfolding take_key
take_key-Queued k c q h = (
  ap k.keyboard_buffer (ring_here k.buffer_start h.start) ∙ h.cells 0 (omega arith),
  record {
    start = omega arith;
    end = omega (arith, h.end);
    room = omega (arith, h.room);
    cells = λ i below.
        ap k.keyboard_buffer (ring_next k.buffer_start i)
        ∙ h.cells (i + 1) (omega arith)
        ∙ ap (λ j. get_or (c ∷ q) j 0) {x = i + 1} {y = suc i} (omega arith);
  },
)

-- keyboard_getchar_nonblock refines the removal from the queue: of an empty one it answers 0 and changes
-- nothing, otherwise it answers the oldest character and takes it out.
pub keyboard_getchar_nonblock-Queued :
    (k : Keyboard) (q : List ℕ) → Queued k q → Dequeues k q (keyboard_getchar_nonblock k)
unfolding keyboard_getchar_nonblock
keyboard_getchar_nonblock-Queued k [] h = rw (has_key-empty k h) refl
keyboard_getchar_nonblock-Queued k (c ∷ q) h = rw (has_key-filled k c q h) (take_key-Queued k c q h)
