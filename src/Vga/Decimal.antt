-- ===== src/Vga/Decimal.antt =====
-- vga_print_dec of src/drivers/vga.c prints decimal numerals.
use kontol_os.Base.{
  ℕ, zero, suc, ◌+◌, ◌-◌, ◌*◌, ◌/◌, ◌%◌, ◌^◌, ◌≤◌, ◌<◌, ◌≡◌, refl, sym, ap, ◌∙◌, inl, inr, true,
  false, arith, if◌then◌else◌, ◌==◌, ==_of_ne, List, [], ◌∷◌, ◌++◌, length, length-append,
  Bool-cases, pos, negsuc,
}
use kontol_os.Vga.{
  Vga, vga_putchar, vga_print, dec_digits, print_reversed, print_digits, vga_print_dec,
}

abbrev pub IsDigitChar : ℕ → Type 0
IsDigitChar c = (b'0' ≤ c) × (c ≤ b'9')

abbrev pub AllDigits : List ℕ → Type 0
AllDigits [] = Unit
AllDigits (c ∷ s) = IsDigitChar c × AllDigits s

-- The number that a numeral denotes, after the digits that give `acc`.
abbrev pub read_dec : ℕ → List ℕ → ℕ
read_dec acc [] = acc
read_dec acc (c ∷ s) = read_dec (10 * acc + (c - b'0')) s

abbrev rev : List ℕ → List ℕ
rev [] = []
rev (c ∷ s) = rev s ++ (c ∷ [])

read_dec-append :
    (acc : ℕ) (s : List ℕ) (c : ℕ) → read_dec acc (s ++ (c ∷ [])) ≡ 10 * read_dec acc s + (c - b'0')
read_dec-append acc [] c = refl
read_dec-append acc (d ∷ s) c = read_dec-append (10 * acc + (d - b'0')) s c

AllDigits-append : (s : List ℕ) (c : ℕ) → AllDigits s → IsDigitChar c → AllDigits (s ++ (c ∷ []))
AllDigits-append [] c h d = (d, tt)
AllDigits-append (x ∷ s) c (h, hs) d = (h, AllDigits-append s c hs d)

vga_print-append :
    (s : List ℕ) (c : ℕ) (v : Vga)
    → AllDigits s
    → IsDigitChar c
    → vga_print (s ++ (c ∷ [])) v ≡ vga_putchar c (vga_print s v)
unfolding vga_print
vga_print-append [] c v h d = let n : (c == 0) ≡ false = ==_of_ne c 0 (omega arith) in rw n refl
vga_print-append (x ∷ s) c v (h, hs) d =
    let n : (x == 0) ≡ false = ==_of_ne x 0 (omega arith) in
    rw n (vga_print-append s c (vga_putchar x v) hs d)

AllDigits-rev : (s : List ℕ) → AllDigits s → AllDigits (rev s)
AllDigits-rev [] h = tt
AllDigits-rev (c ∷ s) (h, hs) = AllDigits-append (rev s) c (AllDigits-rev s hs) h

print_reversed_lem : (s : List ℕ) (v : Vga) → AllDigits s → print_reversed s v ≡ vga_print (rev s) v
unfolding print_reversed vga_print
print_reversed_lem [] v h = refl
print_reversed_lem (c ∷ s) v (h, hs) =
    ap (vga_putchar c) (print_reversed_lem s v hs)
    ∙ sym (vga_print-append (rev s) c v (AllDigits-rev s hs) h)

length-rev : (s : List ℕ) → length (rev s) ≡ length s
length-rev [] = refl
length-rev (c ∷ s) = omega (arith, length-append (rev s) (c ∷ []), length-rev s)

ten_more : (n k : ℕ) → n < 10 ^ suc k → n / 10 < 10 ^ k
ten_more n k h = omega arith

-- Ten digits are enough for a positive `int32_t`.
dec_digits_lem :
    (fuel n : ℕ)
    → n < 10 ^ fuel
    → AllDigits (dec_digits fuel n) × (read_dec 0 (rev (dec_digits fuel n)) ≡ n)
unfolding dec_digits
dec_digits_lem zero n h = (tt, omega arith)
dec_digits_lem (suc fuel) n h = elim (Bool-cases (n == 0)) [
  | inl nothing ↦ rw nothing (tt, ground arith)
  | inr more ↦
      let (all, value) = dec_digits_lem fuel (n / 10) (ten_more n fuel h) in
      rw more (
        ((omega arith, omega arith), all),
        read_dec-append 0 (rev (dec_digits fuel (n / 10))) (b'0' + n % 10) ∙ omega (arith, value),
      )
]

length-dec_digits : (fuel k n : ℕ) → n < 10 ^ k → length (dec_digits fuel n) ≤ k
unfolding dec_digits
length-dec_digits zero k n h = omega arith
length-dec_digits (suc fuel) zero n h =
    let nothing : (n == 0) ≡ true = ground arith in rw nothing (omega arith)
length-dec_digits (suc fuel) (suc k) n h =
    ground (arith, length-dec_digits fuel k (n / 10) (ten_more n k h))

-- A numeral of `n` in at most ten digits, which fit the buffer of twelve.
abbrev pub IsNumeral : ℕ → List ℕ → Type 0
IsNumeral n s = AllDigits s × (read_dec 0 s ≡ n) × (length s ≤ 10)

numeral :
    (n : ℕ)
    → n < 2 ^ 31
    → (v : Vga)
    → (s : List ℕ) × IsNumeral n s × (print_reversed (dec_digits 11 n) v ≡ vga_print s v)
numeral n h v =
    let (all, value) = dec_digits_lem 11 n (omega arith) in
    (
      rev (dec_digits 11 n),
      (
        AllDigits-rev (dec_digits 11 n) all,
        value,
        omega (arith, length-rev (dec_digits 11 n), length-dec_digits 11 10 n (omega arith)),
      ),
      print_reversed_lem (dec_digits 11 n) v all,
    )

-- vga_print_dec of a number from 0 to 2 ^ 31 - 1 prints a decimal numeral of it.
pub vga_print_dec-pos :
    (n : ℕ) (v : Vga)
    → n < 2 ^ 31
    → (s : List ℕ) × IsNumeral n s × (vga_print_dec (pos n) v ≡ vga_print s v)
unfolding vga_print_dec print_digits vga_print
vga_print_dec-pos zero v h =
    (b'0' ∷ [], (((omega arith, omega arith), tt), refl, omega arith), refl)
vga_print_dec-pos (suc n) v h = numeral (suc n) h v

-- vga_print_dec of a negative `int32_t` prints a minus sign, then a numeral of the absolute value if that
-- is below 2 ^ 31, and nothing more for the least number.
pub vga_print_dec-negsuc :
    (n : ℕ) (v : Vga)
    → n < 2 ^ 31
    → (s : List ℕ) × (vga_print_dec (negsuc n) v ≡ vga_print (b'-' ∷ s) v)
      × (if n + 1 == 2 ^ 31 then s ≡ [] else IsNumeral (n + 1) s)
unfolding vga_print_dec print_digits vga_print
vga_print_dec-negsuc n v h = elim (Bool-cases (n + 1 == 2 ^ 31)) [
  | inl least ↦ ([], rw least refl, rw least refl)
  | inr more ↦
      let (s, num, run) = numeral (n + 1) (ground arith) (vga_putchar b'-' v) in
      (s, rw more run, rw more num)
]
