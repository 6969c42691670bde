-- ===== src/Cmd/Settle/Session.antt =====
-- How the commands on clients and users end.
use dudlc.Shared.{List, pos, negsuc, codes, ℤ, ◌++◌}
use dudlc.Cstring.Decimal.{print_int}
use dudlc.Command.Unsigned.{print_uint}
use dudlc.Row.{client_parse, user_parse}
use dudlc.Command.Client.{clientclose, clientcloseuser, clientlist}
use dudlc.Command.User.{useradd, userdel, userget, userlist, usersetpass, usersetright}
use dudlc.Cmd.Console.{Libc}
use dudlc.Cmd.Console.Ends.{Settling, bind-Settling}
use dudlc.Cmd.Settle.Dump.{dump_clients-Settling, dump_user-Settling, dump_users-Settling}
use dudlc.Cmd.Settle.{
  arg_int-Settling, arg_text-Settling, arg_ids-Settling, succ_of-Settling, nonneg_of-Settling,
  rows-Settling, row-Settling, idl_iterate-Settling,
}
use dudlc.Cmd.Run.{Value}
use dudlc.Cmd.Run.Session.{
  run_clientlist, each_clientclose, run_clientclose, each_clientcloseuser, run_clientcloseuser,
  run_userget, run_userlist, run_usersetpass, run_usersetright, run_useradd, run_userdel,
}

pub run_clientlist-Settling :
    (libc : Libc) (argv : List Value) → Settling (run_clientlist libc argv)
unfolding run_clientlist clientlist
run_clientlist-Settling libc argv =
    rows-Settling (negsuc 0) client_parse (codes "clientlist") (dump_clients-Settling libc)

pub each_clientclose-Settling : (libc : Libc) (id : ℤ) → Settling (each_clientclose libc id)
unfolding each_clientclose clientclose
each_clientclose-Settling libc id = succ_of-Settling (codes "clientclose " ++ print_uint id)

pub run_clientclose-Settling :
    (libc : Libc) (argv : List Value) → Settling (run_clientclose libc argv)
unfolding run_clientclose
run_clientclose-Settling libc argv =
    bind-Settling (arg_ids-Settling argv 0)
      (λ list. idl_iterate-Settling list (each_clientclose-Settling libc))

pub each_clientcloseuser-Settling : (libc : Libc) (id : ℤ) → Settling (each_clientcloseuser libc id)
unfolding each_clientcloseuser clientcloseuser
each_clientcloseuser-Settling libc id = succ_of-Settling (codes "clientcloseuser " ++ print_int id)

pub run_clientcloseuser-Settling :
    (libc : Libc) (argv : List Value) → Settling (run_clientcloseuser libc argv)
unfolding run_clientcloseuser
run_clientcloseuser-Settling libc argv =
    bind-Settling (arg_ids-Settling argv 0)
      (λ list. idl_iterate-Settling list (each_clientcloseuser-Settling libc))

pub run_userget-Settling : (libc : Libc) (argv : List Value) → Settling (run_userget libc argv)
unfolding run_userget userget
run_userget-Settling libc argv = bind-Settling (arg_int-Settling argv 0) (λ uid.
    row-Settling (pos 1) user_parse (codes "userget " ++ print_int uid) (dump_user-Settling libc))

pub run_userlist-Settling : (libc : Libc) (argv : List Value) → Settling (run_userlist libc argv)
unfolding run_userlist userlist
run_userlist-Settling libc argv =
    rows-Settling (negsuc 0) user_parse (codes "userlist") (dump_users-Settling libc)

pub run_usersetpass-Settling :
    (libc : Libc) (argv : List Value) → Settling (run_usersetpass libc argv)
unfolding run_usersetpass usersetpass
run_usersetpass-Settling libc argv = bind-Settling (arg_int-Settling argv 0) (λ uid.
    bind-Settling (arg_text-Settling argv 1)
      (λ pwd. succ_of-Settling (codes "usersetpass " ++ print_int uid ++ codes " " ++ pwd)))

pub run_usersetright-Settling :
    (libc : Libc) (argv : List Value) → Settling (run_usersetright libc argv)
unfolding run_usersetright usersetright
run_usersetright-Settling libc argv = bind-Settling (arg_int-Settling argv 0) (λ uid.
    bind-Settling (arg_int-Settling argv 1) (λ right.
      succ_of-Settling (codes "usersetright " ++ print_int uid ++ codes " " ++ print_int right)))

pub run_useradd-Settling : (libc : Libc) (argv : List Value) → Settling (run_useradd libc argv)
unfolding run_useradd useradd
run_useradd-Settling libc argv =
    bind-Settling (arg_text-Settling argv 0) (λ usr. nonneg_of-Settling (codes "useradd " ++ usr))

pub run_userdel-Settling : (libc : Libc) (argv : List Value) → Settling (run_userdel libc argv)
unfolding run_userdel userdel
run_userdel-Settling libc argv =
    bind-Settling (arg_int-Settling argv 0)
      (λ uid. succ_of-Settling (codes "userdel " ++ print_int uid))
