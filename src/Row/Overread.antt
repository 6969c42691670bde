-- ===== src/Row/Overread.antt =====
-- `_duc_artist_parse` of lib/artist.c on a row that ends early.
use dudlc.Shared.{ℤ, ◌∷◌, ◌++◌, ◌≡◌, refl, Bytes}
use dudlc.Cstring.{got, ◌>>=◌, advance, is_digit}
use dudlc.Cstring.Decimal.{print_int}
use dudlc.Cstring.Scan.{IsInt, strtol-print_int}
use dudlc.Field.{ends_field}
use dudlc.Field.Escape.{escape, NoNul, fielddup-escape}
use dudlc.Row.{artist_parse}

-- A row that holds an id and nothing else is taken for an artist, whose name is whatever field
-- stands behind the 0 that ends the row.
pub artist_parse_overread :
    (i : ℤ) (behind rest : Bytes)
    → IsInt i
    → NoNul behind
    → artist_parse (print_int i ++ 0 ∷ (escape behind ++ 0 ∷ rest))
      ≡ got (record { id = i; artist = behind }) (0 ∷ rest)
unfolding artist_parse advance ends_field is_digit
artist_parse_overread i behind rest hi hb =
    rw (strtol-print_int i 0 (escape behind ++ 0 ∷ rest) hi refl, ◌>>=◌)
      (rw (fielddup-escape behind 0 rest hb refl, ◌>>=◌))
