-- ===== src/Cmd/Run/Artist.antt =====
-- cmd/command.c: the commands on artists.
use dudlc.Shared.{List, some, negsuc, ℤ}
use dudlc.Session.Run.{◌>>=◌, ◌>>◌}
use dudlc.Open.{duc_open}
use dudlc.Command.Artist.{
  artistadd, artistdel, artistget, artistlist, artistmerge, artistsearch, artistsetname, artiststag,
}
use dudlc.Cmd.Console.{Libc, C, dmsg_line}
use dudlc.Cmd.Format.{dfmt_artisthead}
use dudlc.Cmd.Dump.{buf_len_queue, dump_artists, show_artist, show_head}
use dudlc.Cmd.Run.{
  Value, arg_int, arg_text, arg_ids, succ_of, unless_minus_one, shown_of, idl_iterate,
}

module _ (libc : Libc) where
  unfoldable pub run_artistlist : List Value → C ℤ
  unfolding shown_of dump_artists artistlist
  run_artistlist argv = shown_of (negsuc 0) (artistlist duc_open) (dump_artists libc)

  unfoldable pub run_artiststag : List Value → C ℤ
  unfolding arg_int shown_of dump_artists artiststag
  run_artiststag argv =
      arg_int argv 0 >>= λ id. shown_of (negsuc 0) (artiststag duc_open id) (dump_artists libc)

  unfoldable pub each_artistget : ℤ → C ℤ
  unfolding shown_of show_artist artistget
  each_artistget id = shown_of (negsuc 0) (artistget duc_open id) (show_artist libc)

  unfoldable pub run_artistget : List Value → C ℤ
  unfolding arg_ids idl_iterate each_artistget dmsg_line dfmt_artisthead
  run_artistget argv =
      show_head (some (dfmt_artisthead buf_len_queue))
      >> (arg_ids argv 0 >>= λ list. idl_iterate list each_artistget)

  unfoldable pub run_artistsearch : List Value → C ℤ
  unfolding arg_text shown_of dump_artists artistsearch
  run_artistsearch argv =
      arg_text argv 0 >>= λ fnd. shown_of (negsuc 0) (artistsearch duc_open fnd) (dump_artists libc)

  unfoldable pub run_artistsetname : List Value → C ℤ
  unfolding arg_int arg_text succ_of artistsetname
  run_artistsetname argv =
      arg_int argv 0 >>= λ id. arg_text argv 1 >>= λ name. succ_of (artistsetname duc_open id name)

  unfoldable pub run_artistmerge : List Value → C ℤ
  unfolding arg_int succ_of artistmerge
  run_artistmerge argv =
      arg_int argv 0 >>= λ old. arg_int argv 1 >>= λ new. succ_of (artistmerge duc_open old new)

  unfoldable pub run_artistadd : List Value → C ℤ
  unfolding arg_text unless_minus_one artistadd
  run_artistadd argv = arg_text argv 0 >>= λ name. unless_minus_one (artistadd duc_open name)

  unfoldable pub run_artistdel : List Value → C ℤ
  unfolding arg_int succ_of artistdel
  run_artistdel argv = arg_int argv 0 >>= λ id. succ_of (artistdel duc_open id)
