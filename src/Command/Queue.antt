-- ===== src/Command/Queue.antt =====
-- The requests of lib/queue.c, over the `duc_open` that they call.
pub mod Ends
use dudlc.Shared.{
  Bool, true, false, codes, ◌++◌, ℤ, pos, negsuc, is_negative, if◌then◌else◌, Option, none, some,
  List, [], ◌∷◌,
}
use dudlc.Cstring.Decimal.{print_int}
use dudlc.Row.{Queue, Track, queue_parse}
use dudlc.Session.Run.{◌>>=◌, return}
use dudlc.Proto.{M}
use dudlc.Request.{cmd_conv, cmd_int, cmd_succ}
use dudlc.Iterate.{Rows, it_newv, visited}
use dudlc.Command.Track.{tracksalbum}

module _ (opener : M Bool) where
  unfoldable pub queuelist : M (Option (Rows Queue))
  unfolding it_newv
  queuelist = it_newv opener queue_parse (codes "queuelist")

  unfoldable pub queueget : ℤ → M (Option Queue)
  unfolding cmd_conv
  queueget qid = cmd_conv opener queue_parse (codes "queueget " ++ print_int qid)

  unfoldable pub queueadd : ℤ → M ℤ
  unfolding cmd_int
  queueadd id = cmd_int opener (codes "queueadd " ++ print_int id)

  unfoldable pub queuedel : ℤ → M Bool
  unfolding cmd_succ
  queuedel id = cmd_succ opener (codes "queuedel " ++ print_int id)

  unfoldable pub queueclear : M Bool
  unfolding cmd_succ
  queueclear = cmd_succ opener (codes "queueclear")

  unfoldable pub queuesum : M ℤ
  unfolding cmd_int
  queuesum = cmd_int opener (codes "queuesum")

  -- The second loop of duc_cmd_queuealbum, over the ids that the first has collected: it ends at the
  -- first track that cannot be added.
  unfoldable pub queue_tracks : List Track → M ℤ
  unfolding queueadd
  queue_tracks [] = return (pos 0)
  queue_tracks (t ∷ ts) = do
    n ← queueadd t.id
    if is_negative n then return (negsuc 0) else queue_tracks ts

  unfoldable pub queue_rows : Option (Rows Track) → M ℤ
  unfolding queue_tracks visited
  queue_rows none = return (negsuc 0)
  queue_rows (some rows) = queue_tracks (visited rows)

  unfoldable pub queuealbum : ℤ → M ℤ
  unfolding queue_rows tracksalbum
  queuealbum id = tracksalbum opener id >>= queue_rows
