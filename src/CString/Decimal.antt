-- ===== src/CString/Decimal.antt =====
-- itoa of src/lib/string.c in base 10, and atoi of what it writes.
use kontol_os.Base.{
  ℕ, zero, suc, ◌+◌, ◌-◌, ◌*◌, ◌/◌, ◌%◌, ◌^◌, ◌≤◌, ◌<◌, ◌≡◌, refl, sym, ap, ap₂, ◌∙◌, inl, inr,
  true, false, some, List, [], ◌∷◌, ◌++◌, append_assoc, arith, if◌then◌else◌, ◌==◌, ltb, leb,
  lt→ltb, Bool-cases, get_or, set, length, length-append, add32, mul32, rev_onto, length-rev_onto,
  get_or-rev_onto, set-rev_onto,
}
use mathlib.Core.Option
use kontol_os.CString.Number.{write_at, digit_char, write_digits, swap_ends, read_digits}

-- 10 ^ (k + 1)
abbrev pub bound : ℕ → ℕ
bound zero = 10
bound (suc k) = 10 * bound k

shorter :
    (k u : ℕ) → u < bound k → (u / 10 == 0) ≡ false → (k' : ℕ) × (k' < k) × (u / 10 < bound k')
shorter zero u small go = absurd (ground (arith, small, go))
shorter (suc k) u small go = (k, omega arith, omega (arith, small))

-- The digits of `u`, the first one in front, and then `l`.
unfoldable pub push : ℕ → ℕ → List ℕ → List ℕ
push zero u l = l
push (suc fuel) u l =
    let rest = push fuel (u / 10) ((48 + u % 10) ∷ l) in
    if u / 10 == 0 then (48 + u % 10) ∷ l else rest

decimal_char : (u : ℕ) → digit_char (u % 10) ≡ 48 + u % 10
unfolding digit_char
decimal_char u = rw (lt→ltb (u % 10) 10 (omega arith)) refl

pub write_at-rev_onto :
    (c x : ℕ) (l rest : List ℕ)
    → write_at (length l) c (rev_onto l (x ∷ rest)) ≡ some (rev_onto (c ∷ l) rest)
unfolding write_at
write_at-rev_onto c x l rest =
    let at : length l ≡ length l + 0 = omega arith in
    rw
      (lt→ltb (length l) (length (rev_onto l (x ∷ rest)))
        (omega (arith, length-rev_onto l (x ∷ rest))))
      (ap (λ k. some (set (rev_onto l (x ∷ rest)) k c)) at
        ∙ ap some (set-rev_onto l (x ∷ rest) 0 c))

-- The digits stand behind `l`, the last one first.
pub write_digits-push :
    (fuel k u : ℕ) (l rest : List ℕ)
    → u < bound k
    → k < fuel
    → suc k < length rest
    → (more : List ℕ) × (0 < length more)
      × (write_digits fuel u 10 (length l) (rev_onto l rest)
          ≡ some (length (push fuel u l), rev_onto (push fuel u l) more))
unfolding write_digits push Option.bind
write_digits-push zero k u l rest small enough room = absurd (omega (arith, enough))
write_digits-push (suc fuel) k u l [] small enough room = absurd (omega (arith, room))
write_digits-push (suc fuel) k u l (x ∷ rest) small enough room =
    let c = 48 + u % 10 in
    let wrote : write_at (length l) (digit_char (u % 10)) (rev_onto l (x ∷ rest))
        ≡ some (rev_onto (c ∷ l) rest) =
      ap (λ z. write_at (length l) z (rev_onto l (x ∷ rest))) (decimal_char u)
      ∙ write_at-rev_onto c x l rest in
    let next : length l + 1 ≡ length (c ∷ l) = omega arith in
    elim (Bool-cases (u / 10 == 0)) [
      | inl last ↦ (rest, omega (arith, room), rw (wrote, last, next) refl)
      | inr go ↦
          let (k', less, small') = shorter k u small go in
          let (more, some_more, run) =
            write_digits-push fuel k' (u / 10) (c ∷ l) rest small' (omega (arith, enough, less))
              (omega (arith, room, less)) in
          (more, some_more, rw (wrote, go, next) run)
    ]

pub push-read :
    (fuel k u : ℕ) (l : List ℕ)
    → u < bound k
    → k < fuel
    → u < 2 ^ 32
    → read_digits 0 (push fuel u l) ≡ read_digits u l
unfolding push read_digits
push-read zero k u l small enough int = absurd (omega (arith, enough))
push-read (suc fuel) k u l small enough int =
    let c = 48 + u % 10 in
    let low : leb b'0' c ≡ true = ground arith in
    let high : leb c b'9' ≡ true = ground arith in
    elim (Bool-cases (u / 10 == 0)) [
      | inl last ↦
          let value : add32 (mul32 0 10) (c - 48) ≡ u = ground (arith, last) in
          rw (last, low, high) (ap (λ r. read_digits r l) value)
      | inr go ↦
          let (k', less, small') = shorter k u small go in
          let value : add32 (mul32 (u / 10) 10) (c - 48) ≡ u = omega arith in
          let step : read_digits (u / 10) (c ∷ l) ≡ read_digits u l =
            rw (low, high) (ap (λ r. read_digits r l) value) in
          rw go (
            push-read fuel k' (u / 10) (c ∷ l) small' (omega (arith, enough, less)) (omega arith)
            ∙ step)
    ]

pub swap_ends-rev_onto :
    (n i j : ℕ) (l x : List ℕ)
    → swap_ends n (length l + i) (length l + j) (rev_onto l x) ≡ rev_onto l (swap_ends n i j x)
unfolding swap_ends
swap_ends-rev_onto zero i j l x = refl
swap_ends-rev_onto (suc n) i j l x = elim (Bool-cases (ltb i j)) [
  | inl less ↦
      let less' : ltb (length l + i) (length l + j) ≡ true = ground (arith, less) in
      let up : (length l + i) + 1 ≡ length l + (i + 1) = omega arith in
      let down : (length l + j) - 1 ≡ length l + (j - 1) = ground (arith, less) in
      rw
        (
          less,
          less',
          up,
          down,
          get_or-rev_onto l x i 0,
          get_or-rev_onto l x j 0,
          set-rev_onto l x i (get_or x j 0),
          set-rev_onto l (set x i (get_or x j 0)) j (get_or x i 0),
        )
        (swap_ends-rev_onto n (i + 1) (j - 1) l (set (set x i (get_or x j 0)) j (get_or x i 0)))
  | inr done ↦
      let done' : ltb (length l + i) (length l + j) ≡ false = ground (arith, done) in
      rw (done, done') refl
]

snoc : (z : ℕ) (q : List ℕ) → (q' : List ℕ) × (x : ℕ) × (z ∷ q ≡ q' ++ (x ∷ []))
snoc z [] = ([], z, refl)
snoc z (y ∷ q) = let (q', x, e) = snoc y q in (z ∷ q', x, ap (z ∷◌) e)

rev_onto-snoc : (q : List ℕ) (x : ℕ) (r : List ℕ) → rev_onto (q ++ (x ∷ [])) r ≡ x ∷ rev_onto q r
rev_onto-snoc [] x r = refl
rev_onto-snoc (y ∷ q) x r = rev_onto-snoc q x (y ∷ r)

-- The first and the last of what stands around `q` change places.
swap_outer :
    (n x y : ℕ) (q tail : List ℕ)
    → swap_ends (suc n) 0 (suc (length q)) (x ∷ rev_onto q (y ∷ tail))
      ≡ swap_ends n 1 (length q) (y ∷ rev_onto q (x ∷ tail))
unfolding swap_ends
swap_outer n x y q tail =
    let d = rev_onto q (y ∷ tail) in
    let at : length q ≡ length q + 0 = omega arith in
    let less : ltb 0 (suc (length q)) ≡ true = ground arith in
    let last : get_or d (length q) 0 ≡ y =
      ap (λ k. get_or d k 0) at ∙ get_or-rev_onto q (y ∷ tail) 0 0 in
    let put : set d (length q) x ≡ rev_onto q (x ∷ tail) =
      ap (λ k. set d k x) at ∙ set-rev_onto q (y ∷ tail) 0 x in
    let down : suc (length q) - 1 ≡ length q = omega arith in rw (less, last, put, down) refl

swap_zero : (d : List ℕ) → swap_ends 0 0 (0 - 1) d ≡ d
unfolding swap_ends
swap_zero d = refl

swap_one : (n : ℕ) (d : List ℕ) → swap_ends (suc n) 0 0 d ≡ d
unfolding swap_ends
swap_one n d = refl

swap_inner :
    (n y : ℕ) (q tail : List ℕ)
    → swap_ends n 0 (length q - 1) (rev_onto q tail) ≡ q ++ tail
    → swap_ends n 1 (length q) (y ∷ rev_onto q tail) ≡ y ∷ (q ++ tail)
unfolding swap_ends
swap_inner zero y [] tail h = refl
swap_inner (suc n) y [] tail h = refl
swap_inner n y (z ∷ q) tail h =
    let at : suc (length q) ≡ 1 + (suc (length q) - 1) = omega arith in
    ap (λ j. swap_ends n 1 j (y ∷ rev_onto (z ∷ q) tail)) at
    ∙ swap_ends-rev_onto n 0 (suc (length q) - 1) (y ∷ []) (rev_onto (z ∷ q) tail)
    ∙ ap (y ∷◌) h

-- The loop puts the sequence in its order.
pub swap_ends-reverse :
    (n : ℕ) (q tail : List ℕ)
    → length q ≤ n
    → swap_ends n 0 (length q - 1) (rev_onto q tail) ≡ q ++ tail
swap_ends-reverse zero [] tail h = swap_zero tail
swap_ends-reverse zero (y ∷ q) tail h = absurd (omega (arith, h))
swap_ends-reverse (suc n) [] tail h = swap_one n tail
swap_ends-reverse (suc n) (y ∷ []) tail h = swap_one n (y ∷ tail)
swap_ends-reverse (suc n) (y ∷ z ∷ q) tail h =
    let (q', x, e) = snoc z q in
    let size : length (z ∷ q) ≡ suc (length q') =
      omega (arith, ap length e, length-append q' (x ∷ [])) in
    let last : suc (length (z ∷ q)) - 1 ≡ suc (length q') = omega (arith, size) in
    let inner : swap_ends n 1 (length q') (y ∷ rev_onto q' (x ∷ tail)) ≡ y ∷ (q' ++ (x ∷ tail)) =
      swap_inner n y q' (x ∷ tail) (swap_ends-reverse n q' (x ∷ tail) (omega (arith, h, size))) in
    ap₂ (swap_ends (suc n) 0) last
      (ap (λ w. rev_onto w (y ∷ tail)) e ∙ rev_onto-snoc q' x (y ∷ tail))
    ∙ swap_outer n x y q' tail
    ∙ inner
    ∙ ap (y ∷◌) (sym (append_assoc q' (x ∷ []) tail))
    ∙ ap (λ w. y ∷ (w ++ tail)) (sym e)
