-- ===== src/Vga/Hex.antt =====
-- vga_print_hex of src/drivers/vga.c prints hexadecimal numerals.
use kontol_os.Base.{
  ℕ, zero, suc, ◌+◌, ◌-◌, ◌*◌, ◌/◌, ◌%◌, ◌^◌, ◌≤◌, ◌<◌, ◌≡◌, ◌≢◌, refl, sym, ap, ◌∙◌, ◌⊎◌, inl, inr,
  Bool, true, not, ◌&&◌, arith, if◌then◌else◌, ◌==◌, ==_iff, leb, List, [], ◌∷◌, length, get_or,
  Bool-cases, all_below, all_below_lem,
}
use kontol_os.CString.{deref}
use kontol_os.Vga.{Vga, vga_print, hex_chars, hex_fill, skip_zeros, vga_print_hex}

-- The value of a digit, and the number that a numeral denotes after the digits that give `acc`.
abbrev pub hex_value : ℕ → ℕ
hex_value c = if leb c b'9' then c - b'0' else c - b'A' + 10

abbrev pub read_hex : ℕ → List ℕ → ℕ
read_hex acc [] = acc
read_hex acc (c ∷ s) = read_hex (16 * acc + hex_value c) s

value_check : ℕ → Bool
value_check d = hex_value (get_or hex_chars d 0) == d

values_checked : all_below 16 value_check ≡ true
unfolding value_check
values_checked = refl

hex_value-chars : (d : ℕ) → d < 16 → hex_value (get_or hex_chars d 0) ≡ d
unfolding value_check
hex_value-chars d h = (==_iff _ _).0 (all_below_lem 16 value_check values_checked d h)

hex_fill_lem :
    (n num : ℕ) (buffer : List ℕ)
    → num < 16 ^ n
    → (read_hex 0 (hex_fill n num buffer) ≡ read_hex num buffer)
      × (length (hex_fill n num buffer) ≡ n + length buffer)
unfolding hex_fill
hex_fill_lem zero num buffer h = (ap (λ a. read_hex a buffer) (omega arith), omega arith)
hex_fill_lem (suc n) num buffer h =
    let d = get_or hex_chars (num % 16) 0 in
    let smaller : num / 16 < 16 ^ n = omega arith in
    let (value, size) = hex_fill_lem n (num / 16) (d ∷ buffer) smaller in
    (
      value ∙ ap (λ a. read_hex a buffer) (omega (arith, hex_value-chars (num % 16) (omega arith))),
      omega (arith, size),
    )

-- No zero in front of another digit.
abbrev pub IsTrimmed : List ℕ → Type 0
IsTrimmed [] = Unit
IsTrimmed (c ∷ s) = (c ≢ b'0') ⊎ (deref s ≡ 0)

skip_zeros-IsTrimmed :
    (s : List ℕ)
    → (read_hex 0 (skip_zeros s) ≡ read_hex 0 s)
      × (length (skip_zeros s) ≤ length s)
      × IsTrimmed (skip_zeros s)
unfolding skip_zeros
skip_zeros-IsTrimmed [] = (refl, omega arith, tt)
skip_zeros-IsTrimmed (c ∷ s) =
    let (value, size, trimmed) = skip_zeros-IsTrimmed s in
    elim (Bool-cases (c == b'0' && not (deref s == 0))) [
      | inl skip ↦
          let zero_digit : c ≡ b'0' = ground arith in
          rw skip (
            value ∙ ap (λ d. read_hex (16 * 0 + hex_value d) s) (sym zero_digit),
            omega (arith, size),
            trimmed,
          )
      | inr stay ↦ rw stay (refl, omega arith, ground arith)
    ]

-- vga_print_hex of a `uint32_t` prints 0x and a hexadecimal numeral of the number, in at most eight digits,
-- with no zero in front of another digit.
pub vga_print_hex-IsTrimmed :
    (num : ℕ) (v : Vga)
    → num < 2 ^ 32
    → (s : List ℕ) × (vga_print_hex num v ≡ vga_print s (vga_print (b'0' ∷ b'x' ∷ []) v))
      × (read_hex 0 s ≡ num)
      × (length s ≤ 8)
      × IsTrimmed s
unfolding vga_print_hex
vga_print_hex-IsTrimmed num v h =
    let (value, size) = hex_fill_lem 8 num [] (omega arith) in
    let (value', size', trimmed) = skip_zeros-IsTrimmed (hex_fill 8 num []) in
    (skip_zeros (hex_fill 8 num []), refl, value' ∙ value, omega (arith, size, size'), trimmed)
