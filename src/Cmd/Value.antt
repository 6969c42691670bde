-- ===== src/Cmd/Value.antt =====
-- cmd/parseval.c: the arguments of commands that are read without the server. A function gives its
-- result and `*end`; the two pointers are the same where nothing was taken.
pub mod Lists
pub mod Ends
pub mod ListEnds
pub mod TrackEnds
pub mod Words
use dudlc.Shared.{
  ℕ, zero, suc, ◌+◌, Bool, true, false, not, ◌&&◌, ◌||◌, Option, none, some, List, [], ◌∷◌, ◌==◌,
  ltb, leb, if◌then◌else◌, ℤ, pos, negsuc, Bytes, codes, length, take, drop,
}
use dudlc.Cstring.{Parsed, got, refused, stray, c_string, is_alpha, is_alnum, strtoul}
use dudlc.Event.{char_at}
use dudlc.Session.{Dudlc}
use dudlc.Session.Run.{overread, return, fail, ◌>>=◌}
use dudlc.Proto.{M}
use dudlc.Cmd.Idlist.{Idlist, Added, idl_new, idl_addlist}

-- Two pointers into the same text.
unfoldable pub same_place : Bytes → Bytes → Bool
same_place a b = length a == length b

-- strncasecmp( text, in, strlen(text) ) is 0, and `in` is not shorter.
unfoldable pub lower : ℕ → ℕ
lower c = if leb b'A' c && leb c b'Z' then c + 32 else c

unfoldable pub begins : Bytes → Bytes → Bool
unfolding lower
begins [] s = true
begins (c ∷ text) [] = false
begins (c ∷ text) (d ∷ s) = lower c == lower d && begins text s

-- `t_enum`, without the entry that ends a table
abbrev pub Enum : Type 0
Enum = List (Bytes × ℤ)

unfoldable pub bools : Enum
bools =
    (codes "on", pos 1)
    ∷ (codes "off", pos 0)
    ∷ (codes "true", pos 1)
    ∷ (codes "false", pos 0)
    ∷ (codes "yes", pos 1)
    ∷ (codes "no", pos 0)
    ∷ (codes "1", pos 1)
    ∷ (codes "0", pos 0)
    ∷ []

unfoldable pub rights : Enum
rights =
    (codes "any", pos 0)
    ∷ (codes "quest", pos 1)
    ∷ (codes "user", pos 2)
    ∷ (codes "admin", pos 3)
    ∷ (codes "master", pos 4)
    ∷ []

unfoldable pub rgtypes : Enum
rgtypes =
    (codes "none", pos 0)
    ∷ (codes "trackpeak", pos 2)
    ∷ (codes "track", pos 1)
    ∷ (codes "albumpeak", pos 4)
    ∷ (codes "album", pos 3)
    ∷ (codes "0", pos 0)
    ∷ (codes "1", pos 1)
    ∷ (codes "2", pos 2)
    ∷ (codes "3", pos 3)
    ∷ (codes "4", pos 4)
    ∷ []

-- An entry's text stands at the start of the input, as a word of its own.
unfoldable pub is_word : Bytes → Bytes → Bool
unfolding begins
is_word text s =
    begins text (c_string s)
    && not (ltb (length text) (length (c_string s)) && is_alnum (char_at s (length text)))

unfoldable pub val_enum : Enum → Bytes → ℤ × Bytes
unfolding is_word
val_enum [] s = (negsuc 0, s)
val_enum ((text, val) ∷ lst) s =
    let rest = val_enum lst s in if is_word text s then (val, drop (length text) s) else rest

unfoldable pub val_bool : Bytes → ℤ × Bytes
unfolding val_enum bools
val_bool s = val_enum bools s

unfoldable pub val_right : Bytes → ℤ × Bytes
unfolding val_enum rights
val_right s = val_enum rights s

unfoldable pub val_rgtype : Bytes → ℤ × Bytes
unfolding val_enum rgtypes
val_rgtype s = val_enum rgtypes s

-- strtoul gives 0 where there is no number.
unfoldable pub int_value : Bytes → Parsed ℤ → M (ℤ × Bytes)
int_value s (got n end) = return (n, end)
int_value s refused = return (pos 0, s)
int_value s stray = fail overread

unfoldable pub val_uint : Bytes → M (ℤ × Bytes)
unfolding int_value
val_uint s = int_value s (strtoul s)

unfoldable pub val_year : Bytes → M (ℤ × Bytes)
unfolding int_value
val_year s = int_value s (strtoul s)

unfoldable pub val_user : Bytes → M (ℤ × Bytes)
unfolding val_uint
val_user s = val_uint s

unfoldable pub val_time : Bytes → M (ℤ × Bytes)
unfolding int_value
val_time s = int_value s (strtoul s)

unfoldable pub val_string : Bytes → Bytes × Bytes
val_string s = (c_string s, drop (length (c_string s)) s)

-- `while( isalpha(*e) ) e++;`
unfoldable pub alpha_span : Bytes → ℕ
alpha_span [] = 0
alpha_span (c ∷ s) = let n = alpha_span s in if is_alpha c then suc n else 0

-- NULL where no letter stands there.
unfoldable pub val_name : Bytes → Option Bytes × Bytes
unfolding alpha_span
val_name s =
    if alpha_span s == 0 then (none, s) else (some (take (alpha_span s) s), drop (alpha_span s) s)

unfoldable pub val_idlist : Bytes → M (Idlist × Bytes)
unfolding idl_addlist
val_idlist s = do r ← idl_addlist (idl_new none) s; return (r.idl, r.end)
