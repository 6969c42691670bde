-- ===== src/Cmd/Run/Album.antt =====
-- cmd/command.c: the commands on albums.
use dudlc.Shared.{List, some, negsuc, ℤ}
use dudlc.Session.Run.{◌>>=◌, ◌>>◌}
use dudlc.Open.{duc_open}
use dudlc.Command.Album.{
  albumget, albumlist, albumsartist, albumsearch, albumsetartist, albumsetname, albumsetyear,
  albumstag,
}
use dudlc.Cmd.Console.{Libc, C, dmsg_line}
use dudlc.Cmd.Format.{dfmt_albumhead}
use dudlc.Cmd.Dump.{buf_len_queue, dump_albums, show_album, show_head}
use dudlc.Cmd.Run.{Value, arg_int, arg_text, arg_ids, succ_of, shown_of, idl_iterate}

module _ (libc : Libc) where
  unfoldable pub run_albumlist : List Value → C ℤ
  unfolding shown_of dump_albums albumlist
  run_albumlist argv = shown_of (negsuc 0) (albumlist duc_open) (dump_albums libc)

  unfoldable pub run_albumstag : List Value → C ℤ
  unfolding arg_int shown_of dump_albums albumstag
  run_albumstag argv =
      arg_int argv 0 >>= λ id. shown_of (negsuc 0) (albumstag duc_open id) (dump_albums libc)

  unfoldable pub each_albumget : ℤ → C ℤ
  unfolding shown_of show_album albumget
  each_albumget id = shown_of (negsuc 0) (albumget duc_open id) (show_album libc)

  unfoldable pub run_albumget : List Value → C ℤ
  unfolding arg_ids idl_iterate each_albumget dmsg_line dfmt_albumhead
  run_albumget argv =
      show_head (some (dfmt_albumhead buf_len_queue))
      >> (arg_ids argv 0 >>= λ list. idl_iterate list each_albumget)

  unfoldable pub run_albumsearch : List Value → C ℤ
  unfolding arg_text shown_of dump_albums albumsearch
  run_albumsearch argv =
      arg_text argv 0 >>= λ fnd. shown_of (negsuc 0) (albumsearch duc_open fnd) (dump_albums libc)

  unfoldable pub run_albumsartist : List Value → C ℤ
  unfolding arg_int shown_of dump_albums albumsartist
  run_albumsartist argv =
      arg_int argv 0 >>= λ id. shown_of (negsuc 0) (albumsartist duc_open id) (dump_albums libc)

  unfoldable pub run_albumsetartist : List Value → C ℤ
  unfolding arg_int succ_of albumsetartist
  run_albumsetartist argv = arg_int argv 0 >>= λ albumid.
      arg_int argv 1 >>= λ artistid. succ_of (albumsetartist duc_open albumid artistid)

  unfoldable pub run_albumsetname : List Value → C ℤ
  unfolding arg_int arg_text succ_of albumsetname
  run_albumsetname argv = arg_int argv 0 >>= λ albumid.
      arg_text argv 1 >>= λ name. succ_of (albumsetname duc_open albumid name)

  unfoldable pub run_albumsetyear : List Value → C ℤ
  unfolding arg_int succ_of albumsetyear
  run_albumsetyear argv = arg_int argv 0 >>= λ albumid.
      arg_int argv 1 >>= λ year. succ_of (albumsetyear duc_open albumid year)
