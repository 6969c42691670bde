-- ===== src/Cmd/Idlist.antt =====
-- cmd/idlist.c: lists of ids, and the text that is read into one. `realloc` is taken to succeed.
pub mod Ranges
use dudlc.Shared.{
  ℕ, zero, suc, ◌+◌, ◌^◌, ◌-◌, Bool, true, false, Option, none, some, List, [], ◌∷◌, ◌++◌, ◌==◌,
  ltb, leb_ℤ, if◌then◌else◌, ℤ, pos, negsuc, next_int, int_gap, is_negative, Bytes, length, drop,
  get_or,
}
use dudlc.Cstring.{Parsed, got, refused, stray, is_digit, strtoul}
use dudlc.Event.{char_at}
use dudlc.Session.Run.{overread, int_overflow, return, fail, no_rounds}
use dudlc.Proto.{M}

-- `t_idlist`: `num` is the length of `ids`.
pub record Idlist : Type 0 where
  pub ids : List ℤ
  pub cur : ℕ

-- idl_new, with the ids of another list or with none
unfoldable pub idl_new : Option Idlist → Idlist
idl_new none = record { ids = []; cur = 0 }
idl_new (some src) = record { ids = src.ids; cur = 0 }

unfoldable pub idl_add : Idlist → ℤ → Idlist
idl_add idl id = record idl { ids = idl.ids ++ id ∷ [] }

-- The array read at an index: -1 from `num` on.
abbrev pub id_at : List ℤ → ℕ → ℤ
id_at ids i = get_or ids i (negsuc 0)

-- idl_cur
unfoldable pub idl_cur : Idlist → ℤ
idl_cur idl = id_at idl.ids idl.cur

unfoldable pub idl_begin : Idlist → ℤ × Idlist
unfolding idl_cur
idl_begin idl = let start = record idl { cur = 0 } in (idl_cur start, start)

unfoldable pub idl_next : Idlist → ℤ × Idlist
unfolding idl_cur
idl_next idl = let later = record idl { cur = suc idl.cur } in (idl_cur later, later)

-- What idl_addlist leaves: its result, the list and `*end`.
pub record Added : Type 0 where
  pub added : ℕ
  pub idl : Idlist
  pub end : Bytes

-- The loop over `id1 … id2`: `n` ids are left to add.
unfoldable pub add_range : ℕ → ℤ → Idlist → Idlist
unfolding idl_add
add_range zero id idl = idl
add_range (suc n) id idl = add_range n (next_int id) (idl_add idl id)

-- `if( *tok == ',' ) tok++;`
unfoldable pub skip_comma : Bytes → Bytes
skip_comma tok = if char_at tok 0 == b',' then drop 1 tok else tok

abbrev pub int_max : ℤ
int_max = pos (2 ^ 31 - 1)

-- `added` is an int, and counts up to this.
abbrev pub is_countable : ℕ → Bool
is_countable n = ltb n (2 ^ 31)

-- An item has been added, or the text was refused: `return 0`, with `*end` at the start of the
-- text and the ids that have been added kept.
abbrev pub Later : Type 0
Later = ℕ → Idlist → Bytes → M Added

unfoldable pub give_back : Bytes → Idlist → M Added
give_back list idl = return (record { added = 0; idl = idl; end = list })

-- Behind `<id1>-`: nothing but a larger number is taken. The loop's counter goes one beyond `id2`.
unfoldable pub range_to : Bytes → ℤ → Parsed ℤ → Later → ℕ → Idlist → M Added
unfolding give_back add_range skip_comma
range_to list id1 (got id2 e) again added idl =
    if leb_ℤ id2 id1
    then give_back list idl
    else if leb_ℤ int_max id2
    then fail int_overflow
    else (let n = suc (int_gap id1 id2) in
        if is_countable (added + n)
        then again (added + n) (add_range n id1 idl) (skip_comma e)
        else fail int_overflow)
range_to list id1 refused again added idl = give_back list idl
range_to list id1 stray again added idl = fail overread

unfoldable pub item : Bytes → Parsed ℤ → Later → ℕ → Idlist → M Added
unfolding range_to idl_add skip_comma give_back
item list (got id1 e) again added idl =
    if char_at e 0 == b'-'
    then range_to list id1 (strtoul (drop 1 e)) again added idl
    else if is_countable (suc added)
    then again (suc added) (idl_add idl id1) (skip_comma e)
    else fail int_overflow
item list refused again added idl = give_back list idl
item list stray again added idl = fail overread

-- The loop; each round takes a byte or more off `tok`.
unfoldable pub addlist_loop : ℕ → Bytes → ℕ → Idlist → Bytes → M Added
unfolding item
addlist_loop zero list added idl tok = no_rounds
addlist_loop (suc n) list added idl tok =
    if is_digit (char_at tok 0)
    then item list (strtoul tok) (addlist_loop n list) added idl
    else return (record { added = added; idl = idl; end = tok })

-- idl_addlist
unfoldable pub idl_addlist : Idlist → Bytes → M Added
unfolding addlist_loop
idl_addlist idl list = addlist_loop (suc (length list)) list 0 idl list
