-- ===== src/Command/Random.antt =====
-- The requests of lib/random.c, over the `duc_open` that they call.
use dudlc.Shared.{Bool, codes, ◌++◌, ℤ, Bytes, Option}
use dudlc.Cstring.Decimal.{print_int}
use dudlc.Row.{Track, track_parse}
use dudlc.Proto.{M}
use dudlc.Request.{cmd_int, cmd_string, cmd_succ}
use dudlc.Iterate.{Rows, it_newv}

module _ (opener : M Bool) where
  unfoldable pub filter : M (Option Bytes)
  unfolding cmd_string
  filter = cmd_string opener (codes "filter")

  unfoldable pub filterset : Bytes → M Bool
  unfolding cmd_succ
  filterset filter = cmd_succ opener (codes "filterset " ++ filter)

  unfoldable pub filterstat : M ℤ
  unfolding cmd_int
  filterstat = cmd_int opener (codes "filterstat")

  unfoldable pub filtertop : ℤ → M (Option (Rows Track))
  unfolding it_newv
  filtertop num = it_newv opener track_parse (codes "filtertop " ++ print_int num)
