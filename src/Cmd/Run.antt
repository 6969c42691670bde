-- ===== src/Cmd/Run.antt =====
-- cmd/command.c: what the functions that run a command share, `idl_iterate` among it.
pub mod Session
pub mod Player
pub mod Track
pub mod Queue
pub mod Tag
pub mod Album
pub mod Artist
pub mod Sfilter
pub mod Raw
pub mod Composed
pub mod Gain
pub mod Walk
use dudlc.Shared.{
  ℕ, zero, suc, Bool, true, false, Option, none, some, List, [], ◌∷◌, ◌++◌, if◌then◌else◌, ℤ, pos,
  negsuc, is_negative, Bytes, codes, length,
}
use dudlc.Cstring.{c_string}
use dudlc.Cstring.Decimal.{print_int}
use dudlc.Session.{Dudlc, connected}
use dudlc.Session.Run.{wrong_type, null_pointer, ◌>>=◌, ◌>>◌, return, gets, fail, no_rounds}
use dudlc.Proto.{M}
use dudlc.Iterate.{Rows}
use dudlc.Cmd.Idlist.{Idlist, idl_begin, idl_next}
use dudlc.Cmd.Console.{Console, C, lift, dmsg_msg, dmsg_null}

-- An entry of `argv`: what one of the val_* functions has read.
pub data Value : Type 0 where
  num : ℤ → Value
  text : Bytes → Value
  ids : Idlist → Value

-- `argv[i]`, cast to the type that the command takes it for
unfoldable pub arg_int : List Value → ℕ → C ℤ
arg_int [] i = fail wrong_type
arg_int (num n ∷ argv) zero = return n
arg_int (text s ∷ argv) zero = fail wrong_type
arg_int (ids l ∷ argv) zero = fail wrong_type
arg_int (v ∷ argv) (suc i) = arg_int argv i

unfoldable pub arg_text : List Value → ℕ → C Bytes
arg_text [] i = fail wrong_type
arg_text (num n ∷ argv) zero = fail wrong_type
arg_text (text s ∷ argv) zero = return s
arg_text (ids l ∷ argv) zero = fail wrong_type
arg_text (v ∷ argv) (suc i) = arg_text argv i

unfoldable pub arg_ids : List Value → ℕ → C Idlist
arg_ids [] i = fail wrong_type
arg_ids (num n ∷ argv) zero = fail wrong_type
arg_ids (text s ∷ argv) zero = fail wrong_type
arg_ids (ids l ∷ argv) zero = return l
arg_ids (v ∷ argv) (suc i) = arg_ids argv i

-- 0 and -1
abbrev pub code_of : Bool → ℤ
code_of true = pos 0
code_of false = negsuc 0

unfoldable pub succ_of : M Bool → C ℤ
succ_of m = lift m >>= λ good. return (code_of good)

-- `if( 0 > … ) return -1; return 0;`
unfoldable pub nonneg_of : M ℤ → C ℤ
nonneg_of m = lift m >>= λ n. return (if is_negative n then negsuc 0 else pos 0)

-- An int as a truth value, turned round.
abbrev pub is_zero : ℤ → Bool
is_zero (pos zero) = true
is_zero _ = false

-- `-1 == …`
abbrev pub is_minus_one : ℤ → Bool
is_minus_one (negsuc zero) = true
is_minus_one _ = false

-- `if( -1 == … ) return -1; return 0;`
unfoldable pub unless_minus_one : M ℤ → C ℤ
unless_minus_one m = lift m >>= λ n. return (if is_minus_one n then negsuc 0 else pos 0)

-- `if( 0 > (n = …)) return -1; dmsg_msg( …, n ); return 0;`
unfoldable pub shown_int : M ℤ → (ℤ → Bytes) → C ℤ
unfolding dmsg_msg
shown_int m f =
    lift m >>= λ n. if is_negative n then return (negsuc 0) else (dmsg_msg (f n) >> return (pos 0))

-- `if( NULL == (r = …)) return failure; show r; return 0;`
unfoldable pub shown_row : {A : Type 0} → ℤ → Option A → (A → C (Unit {0})) → C ℤ
shown_row failure none f = return failure
shown_row failure (some r) f = f r >> return (pos 0)

unfoldable pub shown_of : {A : Type 0} → ℤ → M (Option A) → (A → C (Unit {0})) → C ℤ
unfolding shown_row
shown_of failure m f = lift m >>= λ r. shown_row failure r f

-- duc_rmsg behind `%s`: the last line of a reply, which may be NULL.
unfoldable pub dmsg_rmsg : Bytes → Option Bytes → C (Unit {0})
unfolding dmsg_msg dmsg_null
dmsg_rmsg front none = dmsg_null
dmsg_rmsg front (some l) = dmsg_msg (front ++ c_string l ++ codes "\n")

-- An id is done: `true` goes on with the next.
unfoldable pub id_done : ℤ → ℤ → C Bool
unfolding dmsg_rmsg
id_done id r s =
    if is_minus_one r
    then (if connected s.dudl
          then (dmsg_rmsg (codes "id=" ++ print_int id ++ codes " failed: ") s.dudl.line
              >> return true)
          else return false)
        s
    else return true s

-- The loop of idl_iterate, at the id that `r` begins with.
unfoldable pub iterate_loop : ℕ → (ℤ → C ℤ) → ℤ × Idlist → C ℤ
unfolding id_done idl_next
iterate_loop zero func r = no_rounds
iterate_loop (suc n) func r = if is_negative r.0 then return (pos 0) else (do
  code ← func r.0
  again ← id_done r.0 code
  if again then iterate_loop n func (idl_next r.1) else return (negsuc 0))

-- idl_iterate
unfoldable pub idl_iterate : Idlist → (ℤ → C ℤ) → C ℤ
unfolding iterate_loop idl_begin
idl_iterate idl func = iterate_loop (suc (length idl.ids)) func (idl_begin idl)
