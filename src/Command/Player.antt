-- ===== src/Command/Player.antt =====
-- The requests of lib/player.c, over the `duc_open` that they call.
use dudlc.Shared.{Bool, codes, ◌++◌, ℤ, Option, if◌then◌else◌, pos}
use dudlc.Cstring.Decimal.{print_int}
use dudlc.Row.{Track, track_parse}
use dudlc.Session.{connected}
use dudlc.Session.Run.{done}
use dudlc.Proto.{M}
use dudlc.Request.{cmd_conv, cmd_int, cmd_succ}
use dudlc.Command.Unsigned.{print_uint}

module _ (opener : M Bool) where
  unfoldable pub status : M ℤ
  unfolding cmd_int
  status p = if connected p then cmd_int opener (codes "status") p else done (pos 3) p

  unfoldable pub curtrack : M (Option Track)
  unfolding cmd_conv
  curtrack = cmd_conv opener track_parse (codes "curtrack")

  unfoldable pub play : M Bool
  unfolding cmd_succ
  play = cmd_succ opener (codes "play")

  unfoldable pub stop : M Bool
  unfolding cmd_succ
  stop = cmd_succ opener (codes "stop")

  unfoldable pub next : M Bool
  unfolding cmd_succ
  next = cmd_succ opener (codes "next")

  unfoldable pub prev : M Bool
  unfolding cmd_succ
  prev = cmd_succ opener (codes "prev")

  unfoldable pub pause : M Bool
  unfolding cmd_succ
  pause = cmd_succ opener (codes "pause")

  unfoldable pub gap : M ℤ
  unfolding cmd_int
  gap = cmd_int opener (codes "gap")

  unfoldable pub gapset : ℤ → M ℤ
  unfolding cmd_int
  gapset gap = cmd_int opener (codes "gapset " ++ print_uint gap)

  unfoldable pub random : M ℤ
  unfolding cmd_int
  random = cmd_int opener (codes "random")

  unfoldable pub randomset : ℤ → M Bool
  unfolding cmd_succ
  randomset r = cmd_succ opener (codes "randomset " ++ print_int r)

  unfoldable pub elapsed : M ℤ
  unfolding cmd_int
  elapsed = cmd_int opener (codes "elapsed")

  unfoldable pub jump : ℤ → M Bool
  unfolding cmd_succ
  jump r = cmd_succ opener (codes "jump " ++ print_int r)

  unfoldable pub cut : M ℤ
  unfolding cmd_int
  cut = cmd_int opener (codes "cut")

  unfoldable pub cutset : ℤ → M Bool
  unfolding cmd_succ
  cutset r = cmd_succ opener (codes "cutset " ++ print_int r)

  unfoldable pub replaygain : M ℤ
  unfolding cmd_int
  replaygain = cmd_int opener (codes "replaygain")

  unfoldable pub replaygainset : ℤ → M Bool
  unfolding cmd_succ
  replaygainset r = cmd_succ opener (codes "replaygainset " ++ print_int r)
