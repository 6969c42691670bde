-- ===== src/Command/History.antt =====
-- The requests of lib/history.c, over the `duc_open` that they call.
use dudlc.Shared.{Bool, codes, ◌++◌, ℤ, Option}
use dudlc.Cstring.Decimal.{print_int}
use dudlc.Row.{History, history_parse}
use dudlc.Proto.{M}
use dudlc.Iterate.{Rows, it_newv}

module _ (opener : M Bool) where
  unfoldable pub history : ℤ → M (Option (Rows History))
  unfolding it_newv
  history num = it_newv opener history_parse (codes "history " ++ print_int num)

  unfoldable pub historytrack : ℤ → ℤ → M (Option (Rows History))
  unfolding it_newv
  historytrack tid num =
      it_newv opener history_parse
        (codes "historytrack " ++ print_int tid ++ codes " " ++ print_int num)
