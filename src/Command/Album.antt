-- ===== src/Command/Album.antt =====
-- The requests of lib/album.c, over the `duc_open` that they call.
use dudlc.Shared.{Bool, codes, ◌++◌, ℤ, Bytes, Option}
use dudlc.Cstring.Decimal.{print_int}
use dudlc.Row.{Album, album_parse}
use dudlc.Proto.{M}
use dudlc.Request.{cmd_conv, cmd_succ}
use dudlc.Iterate.{Rows, it_newv}

module _ (opener : M Bool) where
  unfoldable pub albumget : ℤ → M (Option Album)
  unfolding cmd_conv
  albumget id = cmd_conv opener album_parse (codes "albumget " ++ print_int id)

  unfoldable pub albumlist : M (Option (Rows Album))
  unfolding it_newv
  albumlist = it_newv opener album_parse (codes "albumlist")

  unfoldable pub albumsearch : Bytes → M (Option (Rows Album))
  unfolding it_newv
  albumsearch str = it_newv opener album_parse (codes "albumsearch " ++ str)

  unfoldable pub albumsartist : ℤ → M (Option (Rows Album))
  unfolding it_newv
  albumsartist artistid = it_newv opener album_parse (codes "albumsartist " ++ print_int artistid)

  unfoldable pub albumstag : ℤ → M (Option (Rows Album))
  unfolding it_newv
  albumstag tid = it_newv opener album_parse (codes "albumstag " ++ print_int tid)

  unfoldable pub albumsetname : ℤ → Bytes → M Bool
  unfolding cmd_succ
  albumsetname id name =
      cmd_succ opener (codes "albumsetname " ++ print_int id ++ codes " " ++ name)

  unfoldable pub albumsetartist : ℤ → ℤ → M Bool
  unfolding cmd_succ
  albumsetartist id artistid =
      cmd_succ opener (codes "albumsetartist " ++ print_int id ++ codes " " ++ print_int artistid)

  unfoldable pub albumsetyear : ℤ → ℤ → M Bool
  unfolding cmd_succ
  albumsetyear id year =
      cmd_succ opener (codes "albumsetyear " ++ print_int id ++ codes " " ++ print_int year)
