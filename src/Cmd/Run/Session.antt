-- ===== src/Cmd/Run/Session.antt =====
-- cmd/command.c: the commands on clients and users.
use dudlc.Shared.{List, pos, negsuc, ℤ}
use dudlc.Session.Run.{◌>>=◌}
use dudlc.Open.{duc_open}
use dudlc.Command.Client.{clientclose, clientcloseuser, clientlist}
use dudlc.Command.User.{useradd, userdel, userget, userlist, usersetpass, usersetright}
use dudlc.Cmd.Console.{Libc, C}
use dudlc.Cmd.Dump.{dump_clients, dump_user, dump_users}
use dudlc.Cmd.Run.{Value, arg_int, arg_text, arg_ids, succ_of, nonneg_of, shown_of, idl_iterate}

module _ (libc : Libc) where
  unfoldable pub run_clientlist : List Value → C ℤ
  unfolding shown_of dump_clients clientlist
  run_clientlist argv = shown_of (negsuc 0) (clientlist duc_open) (dump_clients libc)

  unfoldable pub each_clientclose : ℤ → C ℤ
  unfolding succ_of clientclose
  each_clientclose id = succ_of (clientclose duc_open id)

  unfoldable pub run_clientclose : List Value → C ℤ
  unfolding arg_ids idl_iterate each_clientclose
  run_clientclose argv = arg_ids argv 0 >>= λ list. idl_iterate list each_clientclose

  unfoldable pub each_clientcloseuser : ℤ → C ℤ
  unfolding succ_of clientcloseuser
  each_clientcloseuser id = succ_of (clientcloseuser duc_open id)

  unfoldable pub run_clientcloseuser : List Value → C ℤ
  unfolding arg_ids idl_iterate each_clientcloseuser
  run_clientcloseuser argv = arg_ids argv 0 >>= λ list. idl_iterate list each_clientcloseuser

  unfoldable pub run_userget : List Value → C ℤ
  unfolding arg_int shown_of dump_user userget
  run_userget argv =
      arg_int argv 0 >>= λ uid. shown_of (pos 1) (userget duc_open uid) (dump_user libc)

  unfoldable pub run_userlist : List Value → C ℤ
  unfolding shown_of dump_users userlist
  run_userlist argv = shown_of (negsuc 0) (userlist duc_open) (dump_users libc)

  unfoldable pub run_usersetpass : List Value → C ℤ
  unfolding arg_int arg_text succ_of usersetpass
  run_usersetpass argv =
      arg_int argv 0 >>= λ uid. arg_text argv 1 >>= λ pwd. succ_of (usersetpass duc_open uid pwd)

  unfoldable pub run_usersetright : List Value → C ℤ
  unfolding arg_int succ_of usersetright
  run_usersetright argv = arg_int argv 0 >>= λ uid.
      arg_int argv 1 >>= λ right. succ_of (usersetright duc_open uid right)

  unfoldable pub run_useradd : List Value → C ℤ
  unfolding arg_text nonneg_of useradd
  run_useradd argv = arg_text argv 0 >>= λ usr. nonneg_of (useradd duc_open usr)

  unfoldable pub run_userdel : List Value → C ℤ
  unfolding arg_int succ_of userdel
  run_userdel argv = arg_int argv 0 >>= λ uid. succ_of (userdel duc_open uid)
