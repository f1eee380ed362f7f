-- ===== src/CString/Round.antt =====
-- atoi of src/lib/string.c reads back what itoa writes in base 10.
use kontol_os.Base.{
  ℕ, zero, suc, ◌+◌, ◌-◌, ◌/◌, ◌%◌, ◌^◌, ◌≤◌, ◌<◌, ◌≡◌, refl, sym, ap, ap₂, ◌∙◌, inl, inr, Bool,
  true, false, some, List, [], ◌∷◌, ◌++◌, arith, if◌then◌else◌, ◌==◌, ==_of_ne, ltb, lt→ltb,
  Bool-cases, length, length-append, ℤ, pos, negsuc, sub32, rev_onto,
}
use mathlib.Core.Option
use kontol_os.CString.Number.{
  write_at, swap_ends, put_number, itoa, skip_blanks, read_digits, signed, read_sign, atoi,
}
use kontol_os.CString.Decimal.{
  bound, push, write_at-rev_onto, write_digits-push, push-read, swap_ends-rev_onto,
  swap_ends-reverse,
}

push-append : (fuel u : ℕ) (l r : List ℕ) → push fuel u (l ++ r) ≡ push fuel u l ++ r
unfolding push
push-append zero u l r = refl
push-append (suc fuel) u l r = elim (Bool-cases (u / 10 == 0)) [
  | inl last ↦ rw last refl
  | inr go ↦ rw go (push-append fuel (u / 10) ((48 + u % 10) ∷ l) r)
]

same_branch : (b : Bool) (d : List ℕ) → (if b then d else d) ≡ d
same_branch true d = refl
same_branch false d = refl

first : (d : List ℕ) → 0 < length d → (x : ℕ) × (r : List ℕ) × (d ≡ x ∷ r)
first [] h = absurd (omega (arith, h))
first (x ∷ r) h = (x, r, refl)

-- A digit stands in front.
push-first :
    (fuel u : ℕ) (l : List ℕ)
    → (c : ℕ) × (s : List ℕ) × (push (suc fuel) u l ≡ c ∷ s) × (48 ≤ c) × (c ≤ 57)
unfolding push
push-first zero u l =
    (48 + u % 10, l, same_branch (u / 10 == 0) ((48 + u % 10) ∷ l), omega arith, omega arith)
push-first (suc fuel) u l = elim (Bool-cases (u / 10 == 0)) [
  | inl last ↦ (48 + u % 10, l, rw last refl, omega arith, omega arith)
  | inr go ↦
      let (c, s, e, low, high) = push-first fuel (u / 10) ((48 + u % 10) ∷ l) in
      (c, s, rw go e, low, high)
]

rev_onto-behind : (a l r : List ℕ) → rev_onto (a ++ l) r ≡ rev_onto l (rev_onto a r)
rev_onto-behind [] l r = refl
rev_onto-behind (x ∷ a) l r = rev_onto-behind a l (x ∷ r)

-- The digits with a NUL behind them take the place of what follows `l`.
put_number-push :
    (u : ℕ) (l rest : List ℕ)
    → u < 2 ^ 32
    → 11 ≤ length rest
    → (more : List ℕ) × (put_number u 10 (length l) (rev_onto l rest)
        ≡ some (rev_onto l (push 33 u (0 ∷ more))))
unfolding put_number Option.bind
put_number-push u l rest int room =
    let big : bound 9 ≡ 10000000000 = refl in
    let (more, some_more, run) =
      write_digits-push 33 9 u l rest (omega (arith, int, big)) (omega arith)
        (omega (arith, room)) in
    let (x, more', e) = first more some_more in
    let ms = push 33 u [] in
    let (c, s, shape, low, high) = push-first 32 u [] in
    let all : push 33 u l ≡ ms ++ l = push-append 33 u [] l in
    let p = length (push 33 u l) in
    let n : p ≡ length ms + length l = ap length all ∙ length-append ms l in
    let some_digit : length ms ≡ suc (length s) = ap length shape in
    let ended : write_at p 0 (rev_onto (push 33 u l) more)
        ≡ some (rev_onto (push 33 u l) (0 ∷ more')) =
      ap (λ r. write_at p 0 (rev_onto (push 33 u l) r)) e
      ∙ write_at-rev_onto 0 x (push 33 u l) more' in
    let apart : rev_onto (push 33 u l) (0 ∷ more') ≡ rev_onto l (rev_onto ms (0 ∷ more')) =
      ap (λ w. rev_onto w (0 ∷ more')) all ∙ rev_onto-behind ms l (0 ∷ more') in
    let from : length l ≡ length l + 0 = omega arith in
    let to : p - 1 ≡ length l + (length ms - 1) = omega (arith, n, some_digit) in
    let turned : swap_ends p (length l) (p - 1) (rev_onto (push 33 u l) (0 ∷ more'))
        ≡ rev_onto l (push 33 u (0 ∷ more')) =
      ap₂ (λ i d. swap_ends p i (p - 1) d) from apart
      ∙ ap (λ j. swap_ends p (length l + 0) j (rev_onto l (rev_onto ms (0 ∷ more')))) to
      ∙ swap_ends-rev_onto p 0 (length ms - 1) l (rev_onto ms (0 ∷ more'))
      ∙ ap (rev_onto l) (
          swap_ends-reverse p ms (0 ∷ more') (omega (arith, n))
          ∙ sym (push-append 33 u [] (0 ∷ more'))) in
    (more', rw (run, ended) (ap some turned))

-- The digits read as the number.
read_digits-push : (u : ℕ) (more : List ℕ) → u < 2 ^ 32 → read_digits 0 (push 33 u (0 ∷ more)) ≡ u
unfolding read_digits
read_digits-push u more int =
    let big : bound 9 ≡ 10000000000 = refl in
    push-read 33 9 u (0 ∷ more) (omega (arith, int, big)) (omega arith) int

-- An int of 32 bits.
abbrev pub IsInt : ℤ → Type 0
IsInt (pos n) = n < 2 ^ 31
IsInt (negsuc n) = n < 2 ^ 31

atoi-positive : (n : ℕ) (more : List ℕ) → n < 2 ^ 31 → atoi (push 33 n (0 ∷ more)) ≡ pos n
unfolding atoi skip_blanks read_sign signed
atoi-positive n more int =
    let (c, s, e, low, high) = push-first 32 n (0 ∷ more) in
    let value : read_digits 0 (c ∷ s) ≡ n =
      ap (read_digits 0) (sym e) ∙ read_digits-push n more (omega arith) in
    let a : (c == 32) ≡ false = ==_of_ne c 32 (omega arith) in
    let b : (c == 9) ≡ false = ==_of_ne c 9 (omega arith) in
    let minus : (c == 45) ≡ false = ==_of_ne c 45 (omega arith) in
    let plus : (c == 43) ≡ false = ==_of_ne c 43 (omega arith) in
    let small : ltb n 2147483648 ≡ true = lt→ltb n 2147483648 (omega arith) in
    rw (e, a, b, minus, plus, value, small) refl

atoi-negative :
    (n : ℕ) (more : List ℕ) → n < 2 ^ 31 → atoi (b'-' ∷ push 33 (n + 1) (0 ∷ more)) ≡ negsuc n
unfolding atoi skip_blanks read_sign signed
atoi-negative n more int =
    let value = read_digits-push (n + 1) more (omega arith) in
    let bits : sub32 0 (n + 1) ≡ 4294967295 - n = omega arith in
    let large : ltb (4294967295 - n) 2147483648 ≡ false = ground arith in
    let back : 4294967295 - (4294967295 - n) ≡ n = omega arith in rw (value, bits, large, back) refl

-- For an int of 32 bits and an array of 12 bytes at least, itoa in base 10 writes inside the array, and atoi
-- of what it wrote is the int.
pub atoi-itoa :
    (v : ℤ) (d : List ℕ)
    → IsInt v
    → 12 ≤ length d
    → (s : List ℕ) × (itoa v d 10 ≡ some s) × (atoi s ≡ v)
unfolding itoa write_at Option.bind
atoi-itoa (pos n) d int room =
    let (more, run) = put_number-push n [] d (omega arith) (omega arith) in
    (push 33 n (0 ∷ more), run, atoi-positive n more int)
atoi-itoa (negsuc n) [] int room = absurd (omega (arith, room))
atoi-itoa (negsuc n) (x ∷ d) int room =
    let (more, run) = put_number-push (n + 1) (b'-' ∷ []) d (omega arith) (omega arith) in
    let inside : ltb 0 (suc (length d)) ≡ true = ground arith in
    (b'-' ∷ push 33 (n + 1) (0 ∷ more), rw (inside, put_number) run, atoi-negative n more int)
