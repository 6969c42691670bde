-- ===== src/Cstring/Scan.antt =====
-- strtol reads back what %d prints, up to the byte behind it.
use dudlc.Shared.{
  ℕ, zero, suc, ◌+◌, ◌*◌, ◌/◌, ◌%◌, ◌^◌, ◌<◌, Bool, true, false, [], ◌∷◌, ◌++◌, ◌≡◌, ap, ◌∙◌,
  append_assoc, arith, ltb, inl, inr, Bool-cases, get_or, ℤ, pos, negsuc, Bytes,
}
use dudlc.Cstring.Decimal.{decimal_fuel, decimal, print_int}
use dudlc.Cstring.{
  got, is_digit, is_space, skip_space, scan_digits, ended, digits_from, signed_from, negate, to_int,
  long_value, strtol, ulong_value, strtoul,
}

scan_digits_step :
    (acc d : ℕ) (rest : Bytes)
    → d < 10
    → scan_digits acc ((b'0' + d) ∷ rest) ≡ scan_digits (acc * 10 + d) rest
unfolding scan_digits
scan_digits_step acc d rest h = ground arith

scan_digits_end :
    (acc d : ℕ) (rest : Bytes) → is_digit d ≡ false → scan_digits acc (d ∷ rest) ≡ (acc, d ∷ rest)
unfolding scan_digits
scan_digits_end acc d rest h = ground arith

-- Reading the digits of n from 0 on leaves n.
scan_digits-decimal_fuel :
    (f n : ℕ) (rest : Bytes) → n < f → scan_digits 0 (decimal_fuel f n ++ rest) ≡ scan_digits n rest
unfolding decimal_fuel
scan_digits-decimal_fuel zero n rest h = absurd (omega arith)
scan_digits-decimal_fuel (suc f) n rest h = elim (Bool-cases (ltb n 10)) [
  | inl small ↦
      rw small
        (scan_digits_step 0 n rest (ground arith) ∙ ap (λ k. scan_digits k rest) (omega arith))
  | inr large ↦
      rw (large, append_assoc)
        (scan_digits-decimal_fuel f (n / 10) ((b'0' + n % 10) ∷ rest) (ground arith)
          ∙ scan_digits_step (n / 10) (n % 10) rest (omega arith)
          ∙ ap (λ k. scan_digits k rest) (omega arith))
]

-- It begins with a digit.
record Starts (text : Bytes) : Type 0 where
  first : ℕ
  others : Bytes
  splits : text ≡ first ∷ others
  digit : is_digit first ≡ true

decimal_fuel-Starts : (f n : ℕ) → n < f → Starts (decimal_fuel f n)
unfolding decimal_fuel is_digit
decimal_fuel-Starts zero n h = absurd (omega arith)
decimal_fuel-Starts (suc f) n h = elim (Bool-cases (ltb n 10)) [
  | inl small ↦ record { first = b'0' + n; others = []; splits = rw small; digit = ground arith }
  | inr large ↦
      let front = decimal_fuel-Starts f (n / 10) (ground arith) in
      record {
        first = front.first;
        others = front.others ++ (b'0' + n % 10) ∷ [];
        splits = rw large (ap (λ t. t ++ (b'0' + n % 10) ∷ []) front.splits);
        digit = front.digit;
      }
]

module _ (n d : ℕ) (rest : Bytes) (h : is_digit d ≡ false) where
  digits_from-decimal :
      (value : ℕ → ℤ) → digits_from value (decimal n ++ d ∷ rest) ≡ got (value n) (d ∷ rest)
  unfolding digits_from decimal ended
  digits_from-decimal value =
      let s = decimal_fuel-Starts (n + 1) n (omega arith) in
      let all =
        scan_digits-decimal_fuel (n + 1) n (d ∷ rest) (omega arith) ∙ scan_digits_end n d rest h in
      ground (arith, s.splits, s.digit, all)

  signed_from-decimal :
      (f : Bool → ℕ → ℤ)
      → signed_from f (decimal n ++ d ∷ rest) ≡ digits_from (f false) (decimal n ++ d ∷ rest)
  unfolding signed_from is_digit decimal
  signed_from-decimal f =
      let s = decimal_fuel-Starts (n + 1) n (omega arith) in ground (arith, s.splits, s.digit)

  skip_space-decimal : skip_space (decimal n ++ d ∷ rest) ≡ decimal n ++ d ∷ rest
  unfolding skip_space is_space is_digit decimal
  skip_space-decimal =
      let s = decimal_fuel-Starts (n + 1) n (omega arith) in ground (arith, s.splits, s.digit)

-- A value that an int holds.
abbrev pub IsInt : ℤ → Type 0
IsInt (pos n) = n < 2 ^ 31
IsInt (negsuc n) = n < 2 ^ 31

to_int-pos : (n : ℕ) → n < 2 ^ 31 → to_int (long_value false n) ≡ pos n
unfolding to_int long_value
to_int-pos n h = ground arith

to_int-negsuc : (n : ℕ) → n < 2 ^ 31 → to_int (long_value true (suc n)) ≡ negsuc n
unfolding to_int long_value negate
to_int-negsuc n h = ground arith

-- strtol on what %d prints for an int gives that int, and stops at the byte behind it.
pub strtol-print_int :
    (i : ℤ) (d : ℕ) (rest : Bytes)
    → IsInt i
    → is_digit d ≡ false
    → strtol (print_int i ++ d ∷ rest) ≡ got i (d ∷ rest)
unfolding strtol print_int
strtol-print_int (pos n) d rest fits h =
    let value : Bool → ℕ → ℤ = λ minus k. to_int (long_value minus k) in
    ap (signed_from value) (skip_space-decimal n d rest h)
    ∙ signed_from-decimal n d rest h value
    ∙ digits_from-decimal n d rest h (value false)
    ∙ ap (λ v. got v (d ∷ rest)) (to_int-pos n fits)
strtol-print_int (negsuc n) d rest fits h =
    digits_from-decimal (suc n) d rest h (λ k. to_int (long_value true k))
    ∙ ap (λ v. got v (d ∷ rest)) (to_int-negsuc n fits)

to_int-ulong : (n : ℕ) → n < 2 ^ 31 → to_int (ulong_value false n) ≡ pos n
unfolding to_int ulong_value
to_int-ulong n h = ground arith

-- strtoul does so too, where the int is not negative.
pub strtoul-print_int :
    (n d : ℕ) (rest : Bytes)
    → n < 2 ^ 31
    → is_digit d ≡ false
    → strtoul (print_int (pos n) ++ d ∷ rest) ≡ got (pos n) (d ∷ rest)
unfolding strtoul print_int
strtoul-print_int n d rest fits h =
    let value : Bool → ℕ → ℤ = λ minus k. to_int (ulong_value minus k) in
    ap (signed_from value) (skip_space-decimal n d rest h)
    ∙ signed_from-decimal n d rest h value
    ∙ digits_from-decimal n d rest h (value false)
    ∙ ap (λ v. got v (d ∷ rest)) (to_int-ulong n fits)

-- What %d prints for it begins with a digit.
pub print_int-digit : (n : ℕ) (s : Bytes) → is_digit (get_or (print_int (pos n) ++ s) 0 0) ≡ true
unfolding print_int decimal
print_int-digit n s =
    let b = decimal_fuel-Starts (n + 1) n (omega arith) in ground (arith, b.splits, b.digit)
