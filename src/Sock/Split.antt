-- ===== src/Sock/Split.antt =====
-- A line and its separator in the buffer of lib/sock.c.
use dudlc.Shared.{
  ℕ, suc, ◌<◌, true, false, ◌||◌, [], ◌∷◌, ◌++◌, ◌≡◌, refl, sym, ap, arith, ◌==◌, Bytes, length,
  set, take, drop, All, take-append-drop, Bool-cases, inl, inr,
}
use dudlc.Cstring.{c_string}
use dudlc.Sock.{is_break, line_span, break_span}

-- What separates two lines: a line break or a 0, and the line breaks right behind it.
abbrev pub IsSeparator : Bytes → Type 0
IsSeparator [] = ⊥
IsSeparator (c ∷ cs) = ((is_break c || c == 0) ≡ true) × All (λ b. is_break b ≡ true) cs

-- A text with no line break and no 0 in it.
abbrev pub IsOneLine : Bytes → Type 0
IsOneLine = All (λ b. (is_break b || b == 0) ≡ false)

-- A text that does not begin with a line break.
abbrev pub IsPastBreaks : Bytes → Type 0
IsPastBreaks [] = Unit {0}
IsPastBreaks (c ∷ cs) = is_break c ≡ false

drop_breaks : (s : Bytes) → IsPastBreaks (drop (break_span s) s)
unfolding break_span
drop_breaks [] = tt
drop_breaks (c ∷ s) = elim (Bool-cases (is_break c)) [
  | inl b ↦ rw b (drop_breaks s)
  | inr b ↦ rw b b
]

take_breaks : (s : Bytes) → All (λ b. is_break b ≡ true) (take (break_span s) s)
unfolding break_span
take_breaks [] = tt
take_breaks (c ∷ s) = elim (Bool-cases (is_break c)) [
  | inl b ↦ rw b (b, take_breaks s)
  | inr b ↦ rw b tt
]

-- A buffer with a line end in it, cut there.
pub record Split (s : Bytes) : Type 0 where
  pub text : Bytes
  pub separator : Bytes
  pub rest : Bytes
  pub whole : s ≡ text ++ (separator ++ rest)
  pub text_is : (z : Bytes) → c_string (set s (line_span s) 0 ++ z) ≡ text
  pub is_separator : IsSeparator separator
  pub one_line : IsOneLine text
  pub past_breaks : IsPastBreaks rest
  pub rest_is : drop (break_span (drop (suc (line_span s)) s)) (drop (suc (line_span s)) s) ≡ rest

at_first : (c : ℕ) (s : Bytes) → (is_break c || c == 0) ≡ true → Split (c ∷ s)
unfolding line_span
at_first c s e =
    let at : line_span (c ∷ s) ≡ 0 = rw (e, line_span) in
    record {
      text = [];
      separator = c ∷ take (break_span s) s;
      rest = drop (break_span s) s;
      whole = ap (λ t. c ∷ t) (sym (take-append-drop (break_span s) s));
      text_is = λ z. rw (e, line_span) (unfold c_string in refl);
      is_separator = (e, take_breaks s);
      one_line = tt;
      past_breaks = drop_breaks s;
      rest_is = rw (e, line_span) refl;
    }

at_later : (c : ℕ) (s : Bytes) → (is_break c || c == 0) ≡ false → Split s → Split (c ∷ s)
unfolding line_span
at_later c s e later = record {
  text = c ∷ later.text;
  separator = later.separator;
  rest = later.rest;
  whole = ap (λ t. c ∷ t) later.whole;
  text_is = λ z. rw (e, line_span) (unfold c_string in ground (arith, later.text_is z));
  is_separator = later.is_separator;
  one_line = (e, later.one_line);
  past_breaks = later.past_breaks;
  rest_is = rw (e, line_span) later.rest_is;
}

pub split : (s : Bytes) → line_span s < length s → Split s
unfolding line_span
split [] h = absurd (omega arith)
split (c ∷ s) h = elim (Bool-cases (is_break c || c == 0)) [
  | inl e ↦ at_first c s e
  | inr e ↦ at_later c s e (split s (omega (arith, rw (e, line_span) at h)))
]
