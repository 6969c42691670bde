-- ===== src/Command/Client.antt =====
-- The requests of lib/client.c, over the `duc_open` that they call.
use dudlc.Shared.{Bool, codes, ◌++◌, ℤ, Option}
use dudlc.Cstring.Decimal.{print_int}
use dudlc.Row.{Client, client_parse}
use dudlc.Proto.{M}
use dudlc.Request.{cmd_succ}
use dudlc.Iterate.{Rows, it_newv}
use dudlc.Command.Unsigned.{print_uint}

module _ (opener : M Bool) where
  unfoldable pub clientlist : M (Option (Rows Client))
  unfolding it_newv
  clientlist = it_newv opener client_parse (codes "clientlist")

  unfoldable pub clientclose : ℤ → M Bool
  unfolding cmd_succ
  clientclose id = cmd_succ opener (codes "clientclose " ++ print_uint id)

  unfoldable pub clientcloseuser : ℤ → M Bool
  unfolding cmd_succ
  clientcloseuser uid = cmd_succ opener (codes "clientcloseuser " ++ print_int uid)
