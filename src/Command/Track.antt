-- ===== src/Command/Track.antt =====
-- The requests of lib/track.c, over the `duc_open` that they call.
use dudlc.Shared.{Bool, codes, ◌++◌, ℤ, Bytes, Option}
use dudlc.Cstring.Decimal.{print_int}
use dudlc.Row.{Track, track_parse}
use dudlc.Proto.{M}
use dudlc.Request.{cmd_conv, cmd_int, cmd_succ}
use dudlc.Iterate.{Rows, it_newv}

module _ (opener : M Bool) where
  unfoldable pub tracks : M ℤ
  unfolding cmd_int
  tracks = cmd_int opener (codes "trackcount")

  unfoldable pub track2id : ℤ → ℤ → M ℤ
  unfolding cmd_int
  track2id albumid nr =
      cmd_int opener (codes "track2id " ++ print_int albumid ++ codes " " ++ print_int nr)

  unfoldable pub trackget : ℤ → M (Option Track)
  unfolding cmd_conv
  trackget id = cmd_conv opener track_parse (codes "trackget " ++ print_int id)

  unfoldable pub tracksearch : Bytes → M (Option (Rows Track))
  unfolding it_newv
  tracksearch substr = it_newv opener track_parse (codes "tracksearch " ++ substr)

  unfoldable pub tracksearchf : Bytes → M (Option (Rows Track))
  unfolding it_newv
  tracksearchf filter = it_newv opener track_parse (codes "tracksearchf " ++ filter)

  unfoldable pub tracksalbum : ℤ → M (Option (Rows Track))
  unfolding it_newv
  tracksalbum id = it_newv opener track_parse (codes "tracksalbum " ++ print_int id)

  unfoldable pub tracksartist : ℤ → M (Option (Rows Track))
  unfolding it_newv
  tracksartist id = it_newv opener track_parse (codes "tracksartist " ++ print_int id)

  unfoldable pub tracksetname : ℤ → Bytes → M Bool
  unfolding cmd_succ
  tracksetname id name =
      cmd_succ opener (codes "tracksetname " ++ print_int id ++ codes " " ++ name)

  unfoldable pub tracksetartist : ℤ → ℤ → M Bool
  unfolding cmd_succ
  tracksetartist id artistid =
      cmd_succ opener (codes "tracksetartist " ++ print_int id ++ codes " " ++ print_int artistid)
