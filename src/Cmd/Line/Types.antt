-- ===== src/Cmd/Line/Types.antt =====
-- Commands whose table entry and whose function do not agree on the type of an argument.
use dudlc.Shared.{
  ℕ, ◌<◌, ◌^◌, [], ◌∷◌, ◌++◌, ◌≡◌, refl, ap, true, false, none, some, ◌==◌, length, Bytes, codes,
  pos, arith,
}
use mathlib.Core.Path.{subst}
use dudlc.Event.{char_at}
use dudlc.Cstring.{skip_space, is_space, is_digit, got, strtoul}
use dudlc.Cstring.Decimal.{print_int}
use dudlc.Cstring.Scan.{print_int-digit, strtoul-print_int}
use dudlc.Session.{Dudlc}
use dudlc.Cmd.Idlist.{Idlist}
use dudlc.Cmd.Value.{val_user, val_uint, int_value, same_place, val_name}
use dudlc.Cmd.Value.Lists.{idl_addclist, addclist_loop}
use dudlc.Cstring.Shorter.{Shorter, strtoul-Shorter}
use dudlc.Session.Run.{done, fault, wrong_type, return, ◌>>=◌}
use dudlc.Cmd.Console.{Console, Libc, lift, lift_run}
use dudlc.Cmd.Value.Lists.{val_userlist}
use dudlc.Cmd.Line.{
  report, cmd_arg_parse, found, Parsing, take_value, parse_args, run_parsed, named, duc_cmd,
}
use dudlc.Cmd.Table.{Parse, Command, c_userget, c_userdel, args_userlist}
use dudlc.Cmd.Table.Top.{cmds_top}
use dudlc.Cmd.Table.Args.{parse_arg, ids_value}
use dudlc.Cmd.Table.Call.{cmd_find, call}
use dudlc.Cmd.Run.{ids}

-- A list of one id
abbrev just : ℕ → Idlist
just n = record { ids = pos n ∷ []; cur = 0 }

val_userlist-one :
    (n : ℕ) (q : Dudlc)
    → n < 2 ^ 31
    → val_userlist (print_int (pos n) ++ 0 ∷ []) q ≡ done (just n, 0 ∷ []) q
unfolding val_userlist idl_addclist addclist_loop val_user val_uint int_value dudlc.Cstring.is_digit
    same_place dudlc.Cmd.Idlist.idl_new dudlc.Cmd.Idlist.idl_add
val_userlist-one n q h =
    let s = print_int (pos n) ++ 0 ∷ [] in
    let e = strtoul-print_int n 0 [] h refl in
    let fewer : 1 < length s = subst (Shorter s) e (strtoul-Shorter s) in
    let moved : (length s == 1) ≡ false = ground arith in rw (e, ◌>>=◌, moved) refl

-- The argument of a command that takes a list of users, where it is one id
abbrev taken : ℕ → Parsing
taken uid = record { argv = ids (just uid) ∷ []; next = 0 ∷ []; missing = 0 }

parse_arg-one :
    (libc : Libc) (uid : ℕ) (s : Console) (t : Bytes)
    → val_userlist t s.dudl ≡ done (just uid, 0 ∷ []) s.dudl
    → parse_arg libc Parse.val_userlist t s ≡ done (ids (just uid), 0 ∷ []) s
unfolding parse_arg lift lift_run
parse_arg-one libc uid s t h =
    ap (λ r. ◌>>=◌ (λ (u : Console). lift_run r u) (λ l. return (ids_value l)) s) h

-- A text that is one id and the 0 behind it
record OneId (uid : ℕ) (t : Bytes) : Type 0 where
  no_blank : skip_space t ≡ t
  some_left : (char_at t 0 == 0) ≡ false
  ahead : same_place (0 ∷ []) t ≡ false
  read : (q : Dudlc) → val_userlist t q ≡ done (just uid, 0 ∷ []) q

digit_front :
    (s : Bytes) → is_digit (char_at s 0) ≡ true → (skip_space s ≡ s) × ((char_at s 0 == 0) ≡ false)
unfolding is_digit skip_space is_space
digit_front [] h = absurd (cc)
digit_front (c ∷ s) h = (ground arith, ground arith)

one_id : (uid : ℕ) → uid < 2 ^ 31 → OneId uid (print_int (pos uid) ++ 0 ∷ [])
unfolding same_place is_digit
one_id uid h =
    let s = print_int (pos uid) ++ 0 ∷ [] in
    let front = digit_front s (print_int-digit uid (0 ∷ [])) in
    let fewer : 1 < length s =
      subst (Shorter s) (strtoul-print_int uid 0 [] h refl) (strtoul-Shorter s) in
    record {
      no_blank = front.0;
      some_left = front.1;
      ahead = ground arith;
      read = λ q. val_userlist-one uid q h;
    }

parse_args-one :
    (libc : Libc) (uid : ℕ) (s : Console) (t : Bytes)
    → OneId uid t
    → parse_args libc args_userlist (record { argv = []; next = b' ' ∷ t; missing = 0 }) s
      ≡ done (some (taken uid)) s
unfolding parse_args skip_space take_value is_space
parse_args-one libc uid s t one =
    let e = parse_arg-one libc uid s t (one.read s.dudl) in
    rw (one.no_blank, one.some_left) (rw (e, ◌>>=◌, one.ahead) refl)

-- A command of the table that takes a list of users is called with the list.
calls_with-list :
    (libc : Libc) (uid : ℕ) (s : Console) (t : Bytes) (cmd : Command)
    → OneId uid t
    → cmd.args ≡ args_userlist
    → cmd_arg_parse libc cmd (b' ' ∷ t) s ≡ (call libc cmd.run (ids (just uid) ∷ []) >>= report) s
unfolding cmd_arg_parse run_parsed
calls_with-list libc uid s t cmd one same =
    let e = parse_args-one libc uid s t one in rw (same, ◌>>=◌, e) refl

abbrev userdel : Command
userdel = record {
  name = codes "userdel";
  alias = none;
  run = c_userdel;
  args = args_userlist;
  help = codes "delete user";
}

abbrev userget : Command
userget = record {
  name = codes "userget";
  alias = none;
  run = c_userget;
  args = args_userlist;
  help = codes "show user details";
}

-- `userdel` and `userget` with an id that an int holds are called with a list where they take the
-- pointer to it for a number: C does not say which user is meant.
pub userdel_wrong_type :
    (libc : Libc) (uid : ℕ) (s : Console)
    → uid < 2 ^ 31
    → (duc_cmd libc (codes "userdel " ++ (print_int (pos uid) ++ 0 ∷ [])) s ≡ fault wrong_type)
      × (duc_cmd libc (codes "userget " ++ (print_int (pos uid) ++ 0 ∷ [])) s ≡ fault wrong_type)
unfolding duc_cmd val_name named found cmd_find skip_space call cmds_top dudlc.Cstring.is_alpha
userdel_wrong_type libc uid s h =
    let t = print_int (pos uid) ++ 0 ∷ [] in
    (
      calls_with-list libc uid s t userdel (one_id uid h) refl,
      calls_with-list libc uid s t userget (one_id uid h) refl,
    )
