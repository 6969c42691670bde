-- ===== src/Cstring.antt =====
-- What the code uses of the C library on strings: isspace, isdigit, isalpha, isalnum, strtol,
-- strtoul, atoi and printf's %d, and the conversion of a long to an int (32-bit int, 64-bit long).
--
-- A `char *` is the list of the bytes from it to the end of what the program has stored there, the
-- terminating 0 and whatever follows it included. A read behind the last byte gives `stray`.
pub mod Decimal
pub mod Scan
pub mod Shorter
use dudlc.Shared.{
  ℕ, zero, suc, ◌+◌, ◌-◌, ◌*◌, ◌/◌, ◌%◌, ◌^◌, Bool, true, false, ◌&&◌, ◌||◌, List, [], ◌∷◌, ◌++◌,
  leb, ltb, ◌==◌, if◌then◌else◌, ℤ, pos, negsuc, Bytes,
}

-- What a parser with an `end` pointer gives: a value and `*end`, a refusal (NULL or the input itself
-- as `*end`), or a read behind the stored bytes.
pub data Parsed {ℓ} (A : Type ℓ) : Type ℓ where
  got : A → Bytes → Parsed A
  refused : Parsed A
  stray : Parsed A

-- A parser runs from where the one before it stopped.
abbrev pub Parser : Type 0 → Type 0
Parser A = Bytes → Parsed A

infixl 5 ◌>>=◌ ◌>>◌
abbrev pub ◌>>=◌ : {A B : Type 0} → Parser A → (A → Parser B) → Parser B
◌>>=◌ p f s = elim (p s) [ got a end ↦ f a end | refused ↦ refused | stray ↦ stray ]

abbrev pub ◌>>◌ : {B : Type 0} → Parser (Unit {0}) → Parser B → Parser B
p >> q = p >>= λ _. q

abbrev pub pure : {A : Type 0} → A → Parser A
pure a s = got a s

-- The text that a `char *` stands for.
unfoldable pub c_string : Bytes → Bytes
c_string [] = []
c_string (c ∷ s) = let rest = c_string s in if c == 0 then [] else c ∷ rest

-- `s = e + 1`
unfoldable pub advance : Parser (Unit {0})
advance [] = stray
advance (c ∷ s) = got tt s

unfoldable pub is_space : ℕ → Bool
is_space c = c == b' ' || (leb 9 c && leb c 13)

unfoldable pub is_digit : ℕ → Bool
is_digit c = leb b'0' c && leb c b'9'

unfoldable pub is_alpha : ℕ → Bool
is_alpha c = (leb b'a' c && leb c b'z') || (leb b'A' c && leb c b'Z')

unfoldable pub is_alnum : ℕ → Bool
unfolding is_alpha is_digit
is_alnum c = is_alpha c || is_digit c

unfoldable pub skip_space : Bytes → Bytes
unfolding is_space
skip_space [] = []
skip_space (c ∷ s) = let rest = skip_space s in if is_space c then rest else c ∷ s

-- The digits from here on, as a number added to `acc`; it grows without bound.
pub scan_digits : ℕ → Bytes → ℕ × Bytes
unfolding is_digit
scan_digits acc [] = (acc, [])
scan_digits acc (c ∷ s) =
    let more = scan_digits (acc * 10 + (c - b'0')) s in if is_digit c then more else (acc, c ∷ s)

-- The number is followed by a byte that ends it.
ended : (ℕ → ℤ) → ℕ × Bytes → Parsed ℤ
ended value (n, []) = stray
ended value (n, d ∷ rest) = got (value n) (d ∷ rest)

-- Behind the sign: at least one digit.
digits_from : (ℕ → ℤ) → Bytes → Parsed ℤ
unfolding scan_digits ended
digits_from value [] = stray
digits_from value (c ∷ s) = if is_digit c then ended value (scan_digits 0 (c ∷ s)) else refused

signed_from : (Bool → ℕ → ℤ) → Bytes → Parsed ℤ
unfolding digits_from
signed_from value [] = stray
signed_from value (c ∷ s) =
    if c == b'-'
    then digits_from (value true) s
    else if c == b'+'
    then digits_from (value false) s
    else digits_from (value false) (c ∷ s)

-- -n
unfoldable pub negate : ℕ → ℤ
negate zero = pos 0
negate (suc n) = negsuc n

-- The int with the same low 32 bits as a long.
unfoldable pub to_int : ℤ → ℤ
to_int (pos n) = let w = n % 2 ^ 32 in if ltb w (2 ^ 31) then pos w else negsuc (2 ^ 32 - w - 1)
to_int (negsuc n) = let w = n % 2 ^ 32 in if ltb w (2 ^ 31) then negsuc w else pos (2 ^ 32 - w - 1)

-- strtol's result for a sign and digits: it stops at LONG_MAX and LONG_MIN.
unfoldable pub long_value : Bool → ℕ → ℤ
unfolding negate
long_value true n = if ltb (2 ^ 63) n then negate (2 ^ 63) else negate n
long_value false n = if ltb (2 ^ 63 - 1) n then pos (2 ^ 63 - 1) else pos n

-- strtoul's: it stops at ULONG_MAX, and a minus sign negates modulo 2 ^ 64.
unfoldable pub ulong_value : Bool → ℕ → ℤ
ulong_value minus n =
    if ltb (2 ^ 64 - 1) n
    then pos (2 ^ 64 - 1)
    else if minus
    then pos ((2 ^ 64 - n) % 2 ^ 64)
    else pos n

-- strtol( s, &e, 10 ) stored in an int; `refused` is `s == e`
unfoldable pub strtol : Parser ℤ
unfolding skip_space signed_from to_int long_value
strtol s = signed_from (λ minus n. to_int (long_value minus n)) (skip_space s)

-- strtoul( s, &e, 10 ) stored in an int
unfoldable pub strtoul : Parser ℤ
unfolding skip_space signed_from to_int ulong_value
strtoul s = signed_from (λ minus n. to_int (ulong_value minus n)) (skip_space s)
