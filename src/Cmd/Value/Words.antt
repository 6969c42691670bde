-- ===== src/Cmd/Value/Words.antt =====
-- cmd/parseval.c: the words that `val_bool`, `val_right` and `val_rgtype` read.
use dudlc.Shared.{
  and_left, and_right, and_assoc, ltb-suc, ℕ, Bool, true, false, not, ◌&&◌, Bool-cases, inl, inr,
  All, [], ◌∷◌, ◌++◌, ◌≡◌, refl, sym, ap, ◌∙◌, append_assoc, arith, ◌==◌, ltb, ℤ, Bytes, length,
  drop,
}
use mathlib.Core.Path.{subst}
use mathlib.Core.List.{Memᴰ}
use dudlc.Cstring.{c_string, is_alnum}
use dudlc.Event.{char_at}
use dudlc.Cmd.Value.{
  Enum, lower, begins, is_word, val_enum, bools, rights, rgtypes, val_bool, val_right, val_rgtype,
}

-- Letters and digits only
alnums : Bytes → Bool
unfolding is_alnum
alnums [] = true
alnums (c ∷ t) = is_alnum c && alnums t

-- The two texts are the same but for the case of letters.
unfoldable pub same_word : Bytes → Bytes → Bool
unfolding lower
same_word [] [] = true
same_word (c ∷ t) (d ∷ u) = lower c == lower d && same_word t u
same_word _ _ = false

-- The case of a letter does not make it another kind of byte.
lower_alnum : (c d : ℕ) → is_alnum c ≡ true → (lower c == lower d) ≡ true → is_alnum d ≡ true
unfolding is_alnum lower dudlc.Cstring.is_alpha dudlc.Cstring.is_digit
lower_alnum c d h e = ground arith

lower_other : (c d : ℕ) → is_alnum c ≡ true → is_alnum d ≡ false → (lower c == lower d) ≡ false
lower_other c d h e = elim (Bool-cases (lower c == lower d)) [
  | inl same ↦ let other = lower_alnum c d h same in absurd (cc)
  | inr other ↦ other
]

alnums-same : (t u : Bytes) → alnums t ≡ true → same_word t u ≡ true → alnums u ≡ true
unfolding alnums same_word
alnums-same [] [] h e = refl
alnums-same [] (d ∷ u) h e = cc
alnums-same (c ∷ t) [] h e = cc
alnums-same (c ∷ t) (d ∷ u) h e =
    let first = lower_alnum c d (and_left (is_alnum c) _ h) (and_left (lower c == lower d) _ e) in
    let later = alnums-same t u (and_right (is_alnum c) _ h) (and_right (lower c == lower d) _ e) in
    rw (first, later) refl

not_zero : (c : ℕ) → is_alnum c ≡ true → (c == 0) ≡ false
unfolding is_alnum dudlc.Cstring.is_alpha dudlc.Cstring.is_digit
not_zero c h = ground arith

-- A word stands at the start of a text just if the text's first word is the same.
is_word-same :
    (t u : Bytes) (d : ℕ) (rest : Bytes)
    → alnums t ≡ true
    → alnums u ≡ true
    → is_alnum d ≡ false
    → is_word t (u ++ d ∷ rest) ≡ same_word t u
unfolding is_word same_word begins alnums c_string
is_word-same [] [] d rest h k e = rw e (ground arith)
is_word-same [] (c ∷ u) d rest h k e =
    let first = and_left (is_alnum c) _ k in rw (not_zero c first, first) (ground arith)
is_word-same (c ∷ t) [] d rest h k e =
    let other = lower_other c d (and_left (is_alnum c) _ h) e in
    elim (Bool-cases (d == 0)) [ inl z ↦ rw z refl | inr z ↦ rw (z, other) refl ]
is_word-same (c ∷ t) (b ∷ u) d rest h k e =
    let s = u ++ d ∷ rest in
    let first = and_left (is_alnum b) _ k in
    let later =
      is_word-same t u d rest (and_right (is_alnum c) _ h) (and_right (is_alnum b) _ k) e in
    rw
      (
        not_zero b first,
        ltb-suc (length t) (length (c_string s)),
        and_assoc (lower c == lower b) (begins t (c_string s))
            (not (ltb (length t) (length (c_string s)) && is_alnum (char_at s (length t)))),
      )
      (ap (λ r. lower c == lower b && r) later)

same_word_trans : (t text u : Bytes) → same_word text u ≡ true → same_word t u ≡ same_word t text
unfolding same_word
same_word_trans [] [] [] e = refl
same_word_trans (c ∷ t) [] [] e = refl
same_word_trans t [] (d ∷ u) e = cc
same_word_trans t (b ∷ text) [] e = cc
same_word_trans [] (b ∷ text) (d ∷ u) e = refl
same_word_trans (c ∷ t) (b ∷ text) (d ∷ u) e =
    let later = same_word_trans t text u (and_right (lower b == lower d) _ e) in
    let first = and_left (lower b == lower d) _ e in
    let same : lower b ≡ lower d = ground arith in rw (same, later) refl

drop-same : (text u s : Bytes) → same_word text u ≡ true → drop (length text) (u ++ s) ≡ s
unfolding same_word
drop-same [] [] s e = refl
drop-same [] (d ∷ u) s e = cc
drop-same (c ∷ text) [] s e = cc
drop-same (c ∷ text) (d ∷ u) s e = drop-same text u s (and_right (lower c == lower d) _ e)

-- No entry has the word as its text.
apart : Bytes → Enum → Bool
unfolding alnums same_word
apart w [] = true
apart w (entry ∷ lst) = alnums entry.0 && not (same_word entry.0 w) && apart w lst

words_apart : Enum → Enum → Bool
unfolding apart alnums
words_apart front [] = true
words_apart front (entry ∷ lst) =
    alnums entry.0 && apart entry.0 front && words_apart (front ++ entry ∷ []) lst

val_enum-apart :
    (front lst : Enum) (text u : Bytes) (d : ℕ) (rest : Bytes)
    → apart text front ≡ true
    → same_word text u ≡ true
    → alnums u ≡ true
    → is_alnum d ≡ false
    → val_enum (front ++ lst) (u ++ d ∷ rest) ≡ val_enum lst (u ++ d ∷ rest)
unfolding apart val_enum
val_enum-apart [] lst text u d rest h same k e = refl
val_enum-apart ((t, v) ∷ front) lst text u d rest h same k e =
    let both = and_left (alnums t && not (same_word t text)) _ h in
    let later =
      val_enum-apart front lst text u d rest (and_right (alnums t && not (same_word t text)) _ h)
        same k e in
    let word = is_word-same t u d rest (and_left (alnums t) _ both) k e in
    let other : not (same_word t text) ≡ true = and_right (alnums t) _ both in
    let twin = same_word_trans t text u same in
    let no : same_word t text ≡ false = ground arith in rw (word, twin, no) later

-- The entry's text, spelled in any case, with a byte behind it that is no letter and no digit, is
-- read as the entry's value, up to that byte.
abbrev Read : (Bytes → ℤ × Bytes) → Bytes × ℤ → Type 0
Read val (text, n) =
    (u : Bytes) (d : ℕ) (rest : Bytes)
    → same_word text u ≡ true
    → is_alnum d ≡ false
    → val (u ++ d ∷ rest) ≡ (n, d ∷ rest)

words_apart-Read :
    (front lst : Enum) → words_apart front lst ≡ true → All (Read (val_enum (front ++ lst))) lst
unfolding words_apart val_enum
words_apart-Read front [] h = tt
words_apart-Read front ((text, n) ∷ lst) h =
    let both = and_left (alnums text && apart text front) _ h in
    let fine = and_left (alnums text) _ both in
    (
      (λ u d rest same e.
          let k = alnums-same text u fine same in
          val_enum-apart front ((text, n) ∷ lst) text u d rest (and_right (alnums text) _ both) same
            k e
          ∙ rw (is_word-same text u d rest fine k e, same, drop-same text u (d ∷ rest) same) refl),
      subst (λ l. All (Read (val_enum l)) lst) (append_assoc front ((text, n) ∷ []) lst)
          (words_apart-Read (front ++ (text, n) ∷ []) lst
            (and_right (alnums text && apart text front) _ h)),
    )

enums-Read :
    All (Read val_bool) bools × (All (Read val_right) rights × All (Read val_rgtype) rgtypes)
unfolding val_bool val_right val_rgtype bools rights rgtypes words_apart
enums-Read = (
  words_apart-Read [] bools refl,
  (words_apart-Read [] rights refl, words_apart-Read [] rgtypes refl),
)

-- The three functions and their tables
pub data EnumArg : Type 0 where
  a_bool a_right a_rgtype : EnumArg

abbrev pub val_of : EnumArg → Bytes → ℤ × Bytes
val_of a_bool = val_bool
val_of a_right = val_right
val_of a_rgtype = val_rgtype

abbrev pub table_of : EnumArg → Enum
table_of a_bool = bools
table_of a_right = rights
table_of a_rgtype = rgtypes

all-Read : (arg : EnumArg) → All (Read (val_of arg)) (table_of arg)
all-Read a_bool = enums-Read.0
all-Read a_right = enums-Read.1.0
all-Read a_rgtype = enums-Read.1.1

entry-Read :
    (val : Bytes → ℤ × Bytes) (lst : Enum) (entry : Bytes × ℤ)
    → All (Read val) lst
    → Memᴰ entry lst
    → Read val entry
entry-Read val [] entry h m = elim m [ ]
entry-Read val (e ∷ lst) entry h (Memᴰ.head same) = subst (Read val) (sym same) h.0
entry-Read val (e ∷ lst) entry h (Memᴰ.tail m) = entry-Read val lst entry h.1 m

-- `val_bool`, `val_right` and `val_rgtype` read every word of their tables: where a word is spelled in
-- any case, with a byte behind it that is no letter and no digit, they give the value that the table
-- has for it, and `*end` is at that byte.
pub enums_read :
    (arg : EnumArg) (text u : Bytes) (n : ℤ) (d : ℕ) (rest : Bytes)
    → Memᴰ (text, n) (table_of arg)
    → same_word text u ≡ true
    → is_alnum d ≡ false
    → val_of arg (u ++ d ∷ rest) ≡ (n, d ∷ rest)
enums_read arg text u n d rest m same e =
    entry-Read (val_of arg) (table_of arg) (text, n) (all-Read arg) m u d rest same e
