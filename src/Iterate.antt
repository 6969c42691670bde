-- ===== src/Iterate.antt =====
-- lib/iterate.c: `_duc_it_newv` reads the whole reply into a list of rows; `_duc_it_cur`,
-- `_duc_it_next` and `_duc_it_done` go through it. `malloc` is taken to succeed.
pub mod Whole
use dudlc.Shared.{
  ℕ, zero, suc, Bool, true, false, Option, none, some, List, [], ◌∷◌, ◌++◌, ◌==◌, if◌then◌else◌,
  Bytes,
}
use dudlc.Cstring.{Parsed, got, refused, stray, Parser}
use dudlc.Sock.Progress.{rounds}
use dudlc.Event.{char_at}
use dudlc.Session.{Dudlc}
use dudlc.Session.Run.{Run, done, fault, overread, spent, ◌>>=◌, return}
use dudlc.Proto.{M, Next, another, broken, over, rnext, rlast}
use dudlc.Request.{vsend, code_digit, unless_failed}

-- The list of a `_duc_iter`: `none` is a row that is NULL.
abbrev pub Rows : Type 0 → Type 0
Rows A = List (Option A)

-- `clean1`, and `clean2` in front of it: the rest of the reply is read.
unfoldable pub abandon : {A : Type 0} → M (Option (Rows A))
abandon = do r ← rlast; return none

-- `while( 0 <= _duc_rnext(p) )`: -1 ends the loop as -2 does.
unfoldable pub go_on :
    {A : Type 0} → Rows A → (Rows A → M (Option (Rows A))) → Next → M (Option (Rows A))
go_on rows again another = again rows
go_on rows again broken = return (some rows)
go_on rows again over = return (some rows)

-- A line is converted, and `*end` is looked at. `_duc_*_parse` sets `*end` to the line where it
-- returns NULL.
unfoldable pub take_row :
    {A : Type 0} → Bytes → Parsed A → Rows A → (Rows A → M (Option (Rows A))) → M (Option (Rows A))
unfolding abandon go_on
take_row l (got row end) rows again =
    if char_at end 0 == 0 then rnext >>= go_on (rows ++ some row ∷ []) again else abandon
take_row l refused rows again =
    if char_at l 0 == 0 then rnext >>= go_on (rows ++ none ∷ []) again else abandon
take_row l stray rows again = λ p. fault overread

unfoldable pub row_of :
    {A : Type 0}
    → Parser A
    → Option Bytes
    → Rows A
    → (Rows A → M (Option (Rows A)))
    → M (Option (Rows A))
unfolding take_row abandon
row_of conv none rows again = abandon
row_of conv (some l) rows again = take_row l (conv l) rows again

-- The loop, with the rows that are in the list.
unfoldable pub rows_loop : {A : Type 0} → ℕ → Parser A → Rows A → M (Option (Rows A))
unfolding row_of
rows_loop zero conv rows p = spent
rows_loop (suc n) conv rows p = row_of conv p.line rows (rows_loop n conv) p

-- Behind the first `_duc_rnext`: a code that begins with 5 is a failure.
unfoldable pub begin_rows : {A : Type 0} → Parser A → Next → M (Option (Rows A))
unfolding abandon rows_loop
begin_rows conv another p =
    (do d ← code_digit; if d == b'5' then abandon else rows_loop (suc (rounds p.con)) conv []) p
begin_rows conv broken p = done none p
begin_rows conv over p = done none p

-- _duc_it_newv
unfoldable pub it_newv : {A : Type 0} → M Bool → Parser A → Bytes → M (Option (Rows A))
unfolding begin_rows
it_newv opener conv text = do
  ready ← vsend opener text
  r ← unless_failed ready rnext broken
  begin_rows conv r

-- _duc_it_cur: NULL at the end of the list, and for a row that is NULL.
unfoldable pub it_cur : {A : Type 0} → Rows A → Option A
it_cur [] = none
it_cur (row ∷ rows) = row

-- _duc_it_next
unfoldable pub it_next : {A : Type 0} → Rows A → Option A × Rows A
unfolding it_cur
it_next [] = (none, [])
it_next (row ∷ rows) = (it_cur rows, rows)

-- The loop of the callers, `for( r = cur(it); r; r = next(it) )`: the rows it sees.
unfoldable pub visited : {A : Type 0} → Rows A → List A
visited [] = []
visited (none ∷ rows) = []
visited (some row ∷ rows) = let rest = visited rows in row ∷ rest
