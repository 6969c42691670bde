-- ===== src/Sock/OneLine.antt =====
-- Where a line stops, in the bytes that hold it and a line break behind it.
use dudlc.Shared.{◌≤◌, ◌<◌, true, false, ◌||◌, [], ◌∷◌, ◌++◌, ◌≡◌, refl, arith, ◌==◌, Bytes, length}
use dudlc.Sock.{is_break, line_span}
use dudlc.Sock.Split.{IsSeparator, IsOneLine}

-- What follows a line break does not go on with another one, or with a 0.
abbrev pub IsFresh : Bytes → Type 0
IsFresh [] = Unit
IsFresh (c ∷ s) = (is_break c || c == 0) ≡ false

pub line_span-line :
    (l u x rest : Bytes) → IsOneLine l → u ++ x ≡ l ++ b'\n' ∷ rest → line_span u ≤ length l
unfolding line_span is_break
line_span-line l [] x rest o e = omega arith
line_span-line [] (c ∷ u) x rest o e = let h : c ≡ b'\n' = cc in ground arith
line_span-line (d ∷ l) (c ∷ u) x rest o e =
    let h : u ++ x ≡ l ++ b'\n' ∷ rest = cc in ground (arith, line_span-line l u x rest o.1 h)

pub line_span_full :
    (l u rest : Bytes) → IsOneLine l → u ≡ l ++ b'\n' ∷ rest → line_span u < length u
unfolding line_span is_break
line_span_full [] [] rest o e = cc
line_span_full (d ∷ l) [] rest o e = cc
line_span_full [] (c ∷ u) rest o e = let h : c ≡ b'\n' = cc in ground arith
line_span_full (d ∷ l) (c ∷ u) rest o e =
    let h : u ≡ l ++ b'\n' ∷ rest = cc in ground (arith, line_span_full l u rest o.1 h)

-- The line is the text in front of the first line break, and nothing of the rest goes with it.
pub same_line :
    (a l sep z rest : Bytes)
    → IsOneLine a
    → IsOneLine l
    → IsSeparator sep
    → IsFresh rest
    → l ++ b'\n' ∷ rest ≡ a ++ (sep ++ z)
    → (a ≡ l) × (z ≡ rest)
unfolding is_break
same_line [] [] [] z rest oa ol s f e = absurd s
same_line [] [] (c ∷ []) z rest oa ol s f e = (refl, cc)
same_line [] [] (c ∷ d ∷ sep) z [] oa ol s f e = cc
same_line [] [] (c ∷ d ∷ sep) z (r ∷ rest) oa ol s f e =
    let h : r ≡ d = cc in let broken : is_break d ≡ true = s.1.0 in ground arith
same_line [] (y ∷ l) [] z rest oa ol s f e = absurd s
same_line [] (y ∷ l) (c ∷ sep) z rest oa ol s f e =
    let h : y ≡ c = cc in
    let broken : (is_break c || c == 0) ≡ true = s.0 in
    let whole : (is_break y || y == 0) ≡ false = ol.0 in ground arith
same_line (x ∷ a) [] sep z rest oa ol s f e =
    let h : x ≡ b'\n' = cc in let whole : (is_break x || x == 0) ≡ false = oa.0 in ground arith
same_line (x ∷ a) (y ∷ l) sep z rest oa ol s f e =
    let h : l ++ b'\n' ∷ rest ≡ a ++ (sep ++ z) = cc in
    let hx : y ≡ x = cc in let r = same_line a l sep z rest oa.1 ol.1 s f h in (cc, r.1)
