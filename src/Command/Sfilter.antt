-- ===== src/Command/Sfilter.antt =====
-- The requests of lib/sfilter.c, over the `duc_open` that they call.
use dudlc.Shared.{Bool, codes, ◌++◌, ℤ, Bytes, Option}
use dudlc.Cstring.Decimal.{print_int}
use dudlc.Row.{Sfilter, sfilter_parse}
use dudlc.Proto.{M}
use dudlc.Request.{cmd_conv, cmd_int, cmd_succ}
use dudlc.Iterate.{Rows, it_newv}

module _ (opener : M Bool) where
  unfoldable pub sfilterget : ℤ → M (Option Sfilter)
  unfolding cmd_conv
  sfilterget id = cmd_conv opener sfilter_parse (codes "sfilterget " ++ print_int id)

  unfoldable pub sfilter2id : Bytes → M ℤ
  unfolding cmd_int
  sfilter2id name = cmd_int opener (codes "sfilter2id " ++ name)

  unfoldable pub sfilterlist : M (Option (Rows Sfilter))
  unfolding it_newv
  sfilterlist = it_newv opener sfilter_parse (codes "sfilterlist")

  unfoldable pub sfilteradd : Bytes → M ℤ
  unfolding cmd_int
  sfilteradd name = cmd_int opener (codes "sfilteradd " ++ name)

  unfoldable pub sfiltersetname : ℤ → Bytes → M Bool
  unfolding cmd_succ
  sfiltersetname id name =
      cmd_succ opener (codes "sfiltersetname " ++ print_int id ++ codes " " ++ name)

  unfoldable pub sfiltersetfilter : ℤ → Bytes → M Bool
  unfolding cmd_succ
  sfiltersetfilter id filter =
      cmd_succ opener (codes "sfiltersetfilter " ++ print_int id ++ codes " " ++ filter)

  unfoldable pub sfilterdel : ℤ → M Bool
  unfolding cmd_succ
  sfilterdel id = cmd_succ opener (codes "sfilterdel " ++ print_int id)
