-- ===== src/Command/Artist.antt =====
-- The requests of lib/artist.c, over the `duc_open` that they call.
use dudlc.Shared.{Bool, codes, ◌++◌, ℤ, Bytes, Option}
use dudlc.Cstring.Decimal.{print_int}
use dudlc.Row.{Artist, artist_parse}
use dudlc.Proto.{M}
use dudlc.Request.{cmd_conv, cmd_int, cmd_succ}
use dudlc.Iterate.{Rows, it_newv}

module _ (opener : M Bool) where
  unfoldable pub artistget : ℤ → M (Option Artist)
  unfolding cmd_conv
  artistget id = cmd_conv opener artist_parse (codes "artistget " ++ print_int id)

  unfoldable pub artistlist : M (Option (Rows Artist))
  unfolding it_newv
  artistlist = it_newv opener artist_parse (codes "artistlist")

  unfoldable pub artiststag : ℤ → M (Option (Rows Artist))
  unfolding it_newv
  artiststag tid = it_newv opener artist_parse (codes "artiststag " ++ print_int tid)

  unfoldable pub artistsearch : Bytes → M (Option (Rows Artist))
  unfolding it_newv
  artistsearch str = it_newv opener artist_parse (codes "artistsearch " ++ str)

  unfoldable pub artistsetname : ℤ → Bytes → M Bool
  unfolding cmd_succ
  artistsetname id name =
      cmd_succ opener (codes "artistsetname " ++ print_int id ++ codes " " ++ name)

  unfoldable pub artistmerge : ℤ → ℤ → M Bool
  unfolding cmd_succ
  artistmerge from to =
      cmd_succ opener (codes "artistmerge " ++ print_int from ++ codes " " ++ print_int to)

  unfoldable pub artistadd : Bytes → M ℤ
  unfolding cmd_int
  artistadd name = cmd_int opener (codes "artistadd " ++ name)

  unfoldable pub artistdel : ℤ → M Bool
  unfolding cmd_succ
  artistdel id = cmd_succ opener (codes "artistdel " ++ print_int id)
