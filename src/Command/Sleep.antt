-- ===== src/Command/Sleep.antt =====
-- The requests of lib/sleep.c, over the `duc_open` that they call.
use dudlc.Shared.{Bool, codes, ◌++◌, ℤ}
use dudlc.Cstring.Decimal.{print_int}
use dudlc.Proto.{M}
use dudlc.Request.{cmd_int, cmd_succ}

module _ (opener : M Bool) where
  unfoldable pub sleep : M ℤ
  unfolding cmd_int
  sleep = cmd_int opener (codes "sleep")

  unfoldable pub sleepset : ℤ → M Bool
  unfolding cmd_succ
  sleepset delay = cmd_succ opener (codes "sleepset " ++ print_int delay)
