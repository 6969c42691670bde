-- ===== src/Cstring/Shorter.antt =====
-- How far strtoul reads.
use dudlc.Shared.{
  ℕ, ◌+◌, ◌*◌, ◌-◌, ◌<◌, ◌≤◌, Bool, true, false, Bool-cases, inl, inr, [], ◌∷◌, arith, ◌==◌,
  if◌then◌else◌, ℤ, Bytes, length,
}
use dudlc.Cstring.{
  Parsed, got, refused, stray, is_digit, skip_space, scan_digits, ended, digits_from, signed_from,
  to_int, ulong_value, strtoul,
}

-- `*end` lies behind the start.
abbrev pub Shorter : {A : Type 0} → Bytes → Parsed A → Type 0
Shorter s (got a end) = length end < length s
Shorter s refused = Unit {0}
Shorter s stray = Unit {0}

skip_space-length : (s : Bytes) → length (skip_space s) ≤ length s
unfolding skip_space
skip_space-length [] = omega arith
skip_space-length (c ∷ s) = let h = skip_space-length s in ground (arith, h)

scan_digits-length : (acc : ℕ) (s : Bytes) → length (scan_digits acc s).1 ≤ length s
unfolding scan_digits
scan_digits-length acc [] = omega arith
scan_digits-length acc (c ∷ s) =
    let h = scan_digits-length (acc * 10 + (c - b'0')) s in ground (arith, h)

ended-Shorter :
    (value : ℕ → ℤ) (r : ℕ × Bytes) (s : Bytes) → length r.1 < length s → Shorter s (ended value r)
unfolding ended
ended-Shorter value (n, []) s h = tt
ended-Shorter value (n, d ∷ rest) s h = h

digits_from-Shorter : (value : ℕ → ℤ) (s : Bytes) → Shorter s (digits_from value s)
unfolding digits_from
digits_from-Shorter value [] = tt
digits_from-Shorter value (c ∷ s) = elim (Bool-cases (is_digit c)) [
  | inl e ↦
      let h = scan_digits-length (0 + (c - b'0')) s in
      rw e (ended-Shorter value (scan_digits (0 + (c - b'0')) s) (c ∷ s) (omega (arith, h)))
  | inr e ↦ rw e tt
]

if-Shorter :
    {A : Type 0} (b : Bool) (s : Bytes) (r t : Parsed A)
    → Shorter s r
    → Shorter s t
    → Shorter s (if b then r else t)
if-Shorter true s r t h k = h
if-Shorter false s r t h k = k

Shorter-le :
    {A : Type 0} (s t : Bytes) (r : Parsed A) → length s ≤ length t → Shorter s r → Shorter t r
Shorter-le s t (got a end) h k = omega (arith, h, k)
Shorter-le s t refused h k = tt
Shorter-le s t stray h k = tt

signed_from-Shorter : (value : Bool → ℕ → ℤ) (s : Bytes) → Shorter s (signed_from value s)
unfolding signed_from
signed_from-Shorter value [] = tt
signed_from-Shorter value (c ∷ s) =
    let minus = digits_from (value true) s in
    let plus = digits_from (value false) s in
    let none_at = digits_from (value false) (c ∷ s) in
    if-Shorter (c == b'-') (c ∷ s) minus (if c == b'+' then plus else none_at)
      (Shorter-le s (c ∷ s) minus (omega arith) (digits_from-Shorter (value true) s))
      (if-Shorter (c == b'+') (c ∷ s) plus none_at
        (Shorter-le s (c ∷ s) plus (omega arith) (digits_from-Shorter (value false) s))
        (digits_from-Shorter (value false) (c ∷ s)))

pub strtoul-Shorter : (s : Bytes) → Shorter s (strtoul s)
unfolding strtoul
strtoul-Shorter s =
    let value : Bool → ℕ → ℤ = λ minus n. to_int (ulong_value minus n) in
    Shorter-le (skip_space s) s (signed_from value (skip_space s)) (skip_space-length s)
      (signed_from-Shorter value (skip_space s))
