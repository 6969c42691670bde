-- ===== src/Command/User.antt =====
-- The requests of lib/user.c, over the `duc_open` that they call.
use dudlc.Shared.{Bool, codes, ◌++◌, ℤ, Bytes, Option}
use dudlc.Cstring.Decimal.{print_int}
use dudlc.Row.{User, user_parse}
use dudlc.Proto.{M}
use dudlc.Request.{cmd_conv, cmd_int, cmd_succ}
use dudlc.Iterate.{Rows, it_newv}

module _ (opener : M Bool) where
  unfoldable pub userlist : M (Option (Rows User))
  unfolding it_newv
  userlist = it_newv opener user_parse (codes "userlist")

  unfoldable pub userget : ℤ → M (Option User)
  unfolding cmd_conv
  userget uid = cmd_conv opener user_parse (codes "userget " ++ print_int uid)

  unfoldable pub usergetname : Bytes → M ℤ
  unfolding cmd_int
  usergetname name = cmd_int opener (codes "user2id " ++ name)

  unfoldable pub usersetpass : ℤ → Bytes → M Bool
  unfolding cmd_succ
  usersetpass uid pass =
      cmd_succ opener (codes "usersetpass " ++ print_int uid ++ codes " " ++ pass)

  unfoldable pub usersetright : ℤ → ℤ → M Bool
  unfolding cmd_succ
  usersetright uid right =
      cmd_succ opener (codes "usersetright " ++ print_int uid ++ codes " " ++ print_int right)

  unfoldable pub userdel : ℤ → M Bool
  unfolding cmd_succ
  userdel uid = cmd_succ opener (codes "userdel " ++ print_int uid)

  unfoldable pub useradd : Bytes → M ℤ
  unfolding cmd_int
  useradd name = cmd_int opener (codes "useradd " ++ name)
