-- ===== src/Cmd/Settle.antt =====
-- How the functions that the commands of cmd/command.c share end.
pub mod Dump
pub mod Session
pub mod Player
pub mod Track
pub mod Queue
pub mod Tag
pub mod Album
pub mod Artist
pub mod Sfilter
pub mod Raw
pub mod Composed
pub mod Gain
pub mod Call
pub mod Args
pub mod Line
use dudlc.Shared.{
  ℕ, zero, suc, Bool, true, false, Option, none, some, List, [], ◌∷◌, ◌≡◌, refl, if◌then◌else◌, ℤ,
  pos, negsuc, is_negative, codes, ◌++◌, get_or, ◌⊎◌, Bytes, Bool-cases, inl, inr, length, ◌+◌, ◌≤◌,
  ◌<◌, arith,
}
use dudlc.Cstring.{Parser, got, c_string}
use dudlc.Cstring.Decimal.{print_int}
use dudlc.Session.{Dudlc, connected}
use dudlc.Session.Run.{◌>>=◌}
use dudlc.Request.{cmd_succ, cmd_int, cmd_conv, cmd_string, convert, converted}
use dudlc.Request.Idle.{Succeeded, Counted, Returned}
use dudlc.Iterate.{Rows, it_newv}
use dudlc.Iterate.Whole.{Idle, it_newv-Idle}
use dudlc.Open.{duc_open}
use dudlc.Open.Requests.{cmd_succ-duc_open, cmd_int-duc_open, cmd_conv-duc_open}
use dudlc.Cmd.Idlist.{Idlist, id_at, idl_cur, idl_begin, idl_next}
use dudlc.Cmd.Console.{Console, C, lift, dmsg_msg}
use dudlc.Cmd.Console.Ends.{
  Settles, settled, stopped, Settling, bind-Settling, return-Settling, if-Settling, lift-Settling,
  dmsg_msg-Settling, dmsg_null-Settling,
}
use dudlc.Cmd.Run.{
  Value, num, text, ids, arg_int, arg_text, arg_ids, succ_of, nonneg_of, is_minus_one,
  unless_minus_one, shown_int, shown_row, shown_of, dmsg_rmsg, id_done, iterate_loop, idl_iterate,
}

pub arg_int-Settling : (argv : List Value) (i : ℕ) → Settling (arg_int argv i)
unfolding arg_int
arg_int-Settling [] i s h = stopped _
arg_int-Settling (num n ∷ argv) zero s h = settled n s h
arg_int-Settling (text t ∷ argv) zero s h = stopped _
arg_int-Settling (ids l ∷ argv) zero s h = stopped _
arg_int-Settling (v ∷ argv) (suc i) s h = arg_int-Settling argv i s h

pub arg_text-Settling : (argv : List Value) (i : ℕ) → Settling (arg_text argv i)
unfolding arg_text
arg_text-Settling [] i s h = stopped _
arg_text-Settling (num n ∷ argv) zero s h = stopped _
arg_text-Settling (text t ∷ argv) zero s h = settled t s h
arg_text-Settling (ids l ∷ argv) zero s h = stopped _
arg_text-Settling (v ∷ argv) (suc i) s h = arg_text-Settling argv i s h

pub arg_ids-Settling : (argv : List Value) (i : ℕ) → Settling (arg_ids argv i)
unfolding arg_ids
arg_ids-Settling [] i s h = stopped _
arg_ids-Settling (num n ∷ argv) zero s h = stopped _
arg_ids-Settling (text t ∷ argv) zero s h = stopped _
arg_ids-Settling (ids l ∷ argv) zero s h = settled l s h
arg_ids-Settling (v ∷ argv) (suc i) s h = arg_ids-Settling argv i s h

Succeeded-idle : (b : Bool) (q : Dudlc) → Succeeded b q → q.inreply ≡ false
Succeeded-idle true q h = h.0
Succeeded-idle false q h = h

Returned-idle : {A : Type 0} (r : Option A) (q : Dudlc) → Returned r q → q.inreply ≡ false
Returned-idle (some a) q h = h.0
Returned-idle none q h = h

-- The calls of the library.
pub cmd_succ-Settling : (line : Bytes) → Settling (lift (cmd_succ duc_open line))
cmd_succ-Settling line = lift-Settling (λ q i. cmd_succ-duc_open q i line) Succeeded-idle

pub int-Settling : (line : Bytes) → Settling (lift (cmd_int duc_open line))
int-Settling line = lift-Settling (λ q i. cmd_int-duc_open q i line) (λ n q h. h.0)

pub cmd_conv-Settling :
    {A : Type 0} (conv : Parser A) (line : Bytes) → Settling (lift (cmd_conv duc_open conv line))
cmd_conv-Settling conv line = lift-Settling (λ q i. cmd_conv-duc_open conv q i line) Returned-idle

-- `_duc_cmd_string` is `_duc_cmd_conv` with a converter that takes every line.
pub cmd_string-Settling : (line : Bytes) → Settling (lift (cmd_string duc_open line))
unfolding cmd_string cmd_conv convert converted
cmd_string-Settling line = cmd_conv-Settling (λ l. got (c_string l) []) line

pub it_newv-Settling :
    {A : Type 0} (conv : Parser A) (line : Bytes) → Settling (lift (it_newv duc_open conv line))
it_newv-Settling conv line = lift-Settling (λ q i. it_newv-Idle conv q i line) (λ r q h. h)

pub succ_of-Settling : (line : Bytes) → Settling (succ_of (cmd_succ duc_open line))
unfolding succ_of
succ_of-Settling line = bind-Settling (cmd_succ-Settling line) (λ good. return-Settling _)

pub nonneg_of-Settling : (line : Bytes) → Settling (nonneg_of (cmd_int duc_open line))
unfolding nonneg_of
nonneg_of-Settling line = bind-Settling (int-Settling line) (λ n. return-Settling _)

pub unless_minus_one-Settling : (line : Bytes) → Settling (unless_minus_one (cmd_int duc_open line))
unfolding unless_minus_one
unless_minus_one-Settling line = bind-Settling (int-Settling line) (λ n. return-Settling _)

pub shown_int-Settling :
    (line : Bytes) (f : ℤ → Bytes) → Settling (shown_int (cmd_int duc_open line) f)
unfolding shown_int
shown_int-Settling line f = bind-Settling (int-Settling line) (λ n.
    if-Settling (is_negative n) (return-Settling _)
      (bind-Settling (dmsg_msg-Settling (f n)) (λ _. return-Settling (pos 0))))

module _ {A : Type 0} where
  pub shown_row-Settling :
      (failure : ℤ) (r : Option A) {f : A → C (Unit {0})}
      → ((a : A) → Settling (f a))
      → Settling (shown_row failure r f)
  unfolding shown_row
  shown_row-Settling failure none h = return-Settling failure
  shown_row-Settling failure (some a) h = bind-Settling (h a) (λ _. return-Settling _)

module _ {A : Type 0} where
  pub row-Settling :
      (failure : ℤ) (conv : Parser A) (line : Bytes) {f : A → C (Unit {0})}
      → ((a : A) → Settling (f a))
      → Settling (shown_of failure (cmd_conv duc_open conv line) f)
  unfolding shown_of
  row-Settling failure conv line h =
      bind-Settling (cmd_conv-Settling conv line) (λ r. shown_row-Settling failure r h)

  pub rows-Settling :
      (failure : ℤ) (conv : Parser A) (line : Bytes) {f : Rows A → C (Unit {0})}
      → ((it : Rows A) → Settling (f it))
      → Settling (shown_of failure (it_newv duc_open conv line) f)
  unfolding shown_of
  rows-Settling failure conv line h =
      bind-Settling (it_newv-Settling conv line) (λ r. shown_row-Settling failure r h)

pub dmsg_rmsg-Settling : (front : Bytes) (line : Option Bytes) → Settling (dmsg_rmsg front line)
unfolding dmsg_rmsg
dmsg_rmsg-Settling front none s i = dmsg_null-Settling s i
dmsg_rmsg-Settling front (some l) s i = dmsg_msg-Settling _ s i

id_done-Settling : (id r : ℤ) → Settling (id_done id r)
unfolding id_done
id_done-Settling id r s i = elim (Bool-cases (is_minus_one r)) [
  | inr e ↦ rw e (settled true s i)
  | inl e ↦ rw e (
      if-Settling (connected s.dudl)
        (bind-Settling
          (dmsg_rmsg-Settling (codes "id=" ++ print_int id ++ codes " failed: ") s.dudl.line)
          (λ _. return-Settling true))
        (return-Settling false) s i)
]

-- An index from the end of the array on gives -1.
pub id_at-beyond : (list : List ℤ) (i : ℕ) → length list ≤ i → id_at list i ≡ negsuc 0
id_at-beyond [] i h = refl
id_at-beyond (id ∷ list) zero h = absurd (omega arith)
id_at-beyond (id ∷ list) (suc i) h = id_at-beyond list i (omega arith)

module _ {func : ℤ → C ℤ} (h : (id : ℤ) → Settling (func id)) where
  -- `n` rounds are enough for the ids that are left.
  iterate_loop-Settling :
      (n : ℕ) (l : Idlist)
      → length l.ids + 1 ≤ n + l.cur
      → 0 < n
      → Settling (iterate_loop n func (id_at l.ids l.cur, l))
  unfolding iterate_loop idl_next idl_cur
  iterate_loop-Settling zero l fuel some_left = absurd (omega arith)
  iterate_loop-Settling (suc zero) l fuel some_left =
      rw (id_at-beyond l.ids l.cur (omega arith)) (return-Settling (pos 0))
  iterate_loop-Settling (suc (suc n)) l fuel some_left =
      if-Settling (is_negative (id_at l.ids l.cur)) (return-Settling (pos 0)) (
        bind-Settling (h (id_at l.ids l.cur)) (λ code.
          bind-Settling (id_done-Settling (id_at l.ids l.cur) code) (λ again.
            if-Settling again
              (iterate_loop-Settling (suc n) (record l { cur = suc l.cur }) (omega arith)
                (omega arith))
              (return-Settling (negsuc 0)))))

pub idl_iterate-Settling :
    (list : Idlist) {func : ℤ → C ℤ}
    → ((id : ℤ) → Settling (func id))
    → Settling (idl_iterate list func)
unfolding idl_iterate idl_begin idl_cur
idl_iterate-Settling list h =
    iterate_loop-Settling h (suc (length list.ids)) (record list { cur = 0 }) (omega arith)
      (omega arith)
