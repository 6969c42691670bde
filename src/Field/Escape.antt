-- ===== src/Field/Escape.antt =====
-- The server's side of a field, as `_duc_fielddup` of lib/proto.c reads it: a tab is sent as `\t`, a
-- backslash as `\\`.
use dudlc.Shared.{
  ℕ, true, false, [], ◌∷◌, ◌++◌, ◌≡◌, ◌≢◌, ◌∙◌, append_assoc, append-nil, arith, ◌==◌,
  if◌then◌else◌, Bytes, All,
}
use dudlc.Cstring.{got}
use dudlc.Field.{ends_field, copy_field, fielddup}

abbrev pub escape_byte : ℕ → Bytes
escape_byte c =
    if c == b'\t' then b'\\' ∷ b't' ∷ [] else if c == b'\\' then b'\\' ∷ b'\\' ∷ [] else c ∷ []

-- The text of a field on the wire.
unfoldable pub escape : Bytes → Bytes
escape [] = []
escape (c ∷ s) = escape_byte c ++ escape s

-- A C string's bytes.
abbrev pub NoNul : Bytes → Type 0
NoNul = All (λ c. c ≢ 0)

copy_field-escape_byte :
    (c : ℕ) (dup rest : Bytes)
    → c ≢ 0
    → copy_field false dup (escape_byte c ++ rest) ≡ copy_field false (dup ++ c ∷ []) rest
unfolding copy_field
copy_field-escape_byte c dup rest h = ground (arith, append-nil dup)

copy_field-escape :
    (text dup : Bytes) (d : ℕ) (rest : Bytes)
    → NoNul text
    → ends_field d ≡ true
    → copy_field false dup (escape text ++ d ∷ rest) ≡ got (dup ++ text) (d ∷ rest)
unfolding escape
copy_field-escape [] dup d rest h e = rw append-nil (unfold copy_field in ground arith)
copy_field-escape (c ∷ s) dup d rest h e = rw append_assoc (
    copy_field-escape_byte c dup (escape s ++ d ∷ rest) h.0
    ∙ copy_field-escape s (dup ++ c ∷ []) d rest h.1 e
    ∙ rw append_assoc)

-- The copy of an escaped field is the text, and the copying stops at the delimiter.
pub fielddup-escape :
    (text : Bytes) (d : ℕ) (rest : Bytes)
    → NoNul text
    → ends_field d ≡ true
    → fielddup (escape text ++ d ∷ rest) ≡ got text (d ∷ rest)
unfolding fielddup
fielddup-escape text = copy_field-escape text []
