-- ===== src/Field.antt =====
-- lib/proto.c: `_duc_fielddup`, which copies one tab-separated field of a reply and takes its
-- escapes away, and `_duc_skipspace`.
pub mod Escape
pub mod Room
use dudlc.Shared.{
  ℕ, suc, Bool, true, false, not, ◌&&◌, ◌||◌, [], ◌∷◌, ◌++◌, ◌==◌, if◌then◌else◌, Bytes,
}
use dudlc.Cstring.{Parsed, got, stray, Parser, is_space, skip_space}

-- The two bytes that end the copying.
unfoldable pub ends_field : ℕ → Bool
ends_field c = c == 0 || c == b'\t'

-- What one round of the loop appends to the copy.
unfoldable pub copied : Bool → ℕ → Bytes
copied true c = (if c == b't' then b'\t' else c) ∷ []
copied false c = if c == b'\\' then [] else c ∷ []

-- The value of `escape` behind the round.
unfoldable pub escape_after : Bool → ℕ → Bool
escape_after escape c = not escape && c == b'\\'

-- The loop: `dup` holds what has been written up to `p`.
unfoldable pub copy_field : Bool → Bytes → Parser Bytes
unfolding ends_field copied escape_after
copy_field escape dup [] = stray
copy_field escape dup (c ∷ s) =
    let more = copy_field (escape_after escape c) (dup ++ copied escape c) s in
    if ends_field c then got dup (c ∷ s) else more

unfoldable pub fielddup : Parser Bytes
unfolding copy_field
fielddup = copy_field false []

-- strcspn( s, "\t" ): the bytes in front of the first tab or of the end.
unfoldable pub field_span : Bytes → ℕ
unfolding ends_field
field_span [] = 0
field_span (c ∷ s) = if ends_field c then 0 else suc (field_span s)
