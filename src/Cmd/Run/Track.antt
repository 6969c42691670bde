-- ===== src/Cmd/Run/Track.antt =====
-- cmd/command.c: the commands on tracks and the filter.
use dudlc.Shared.{List, some, negsuc, codes, ◌++◌, ℤ}
use dudlc.Cstring.Decimal.{print_int}
use dudlc.Session.Run.{◌>>=◌, ◌>>◌}
use dudlc.Open.{duc_open}
use dudlc.Command.Random.{filterset, filterstat, filtertop}
use dudlc.Command.Track.{trackget, tracks, tracksearchf, tracksetartist, tracksetname}
use dudlc.Cmd.Console.{Libc, C, dmsg_line}
use dudlc.Cmd.Format.{dfmt_trackhead}
use dudlc.Cmd.Dump.{buf_len_track, dump_tracks, show_head, show_track}
use dudlc.Cmd.Run.{Value, arg_int, arg_text, arg_ids, succ_of, shown_int, shown_of, idl_iterate}

module _ (libc : Libc) where
  unfoldable pub run_trackcount : List Value → C ℤ
  unfolding shown_int tracks
  run_trackcount argv =
      shown_int (tracks duc_open) (λ n. codes "available tracks: " ++ print_int n ++ codes "\n")

  unfoldable pub each_trackget : ℤ → C ℤ
  unfolding shown_of show_track trackget
  each_trackget id = shown_of (negsuc 0) (trackget duc_open id) (show_track libc)

  unfoldable pub run_trackget : List Value → C ℤ
  unfolding arg_ids idl_iterate each_trackget dmsg_line dfmt_trackhead
  run_trackget argv =
      show_head (some (dfmt_trackhead buf_len_track))
      >> (arg_ids argv 0 >>= λ list. idl_iterate list each_trackget)

  unfoldable pub run_tracksearchf : List Value → C ℤ
  unfolding arg_text shown_of dump_tracks tracksearchf
  run_tracksearchf argv = arg_text argv 0 >>= λ filt.
      shown_of (negsuc 0) (tracksearchf duc_open filt) (dump_tracks libc)

  unfoldable pub each_tracksetartist : ℤ → ℤ → C ℤ
  unfolding succ_of tracksetartist
  each_tracksetartist artistid id = succ_of (tracksetartist duc_open id artistid)

  unfoldable pub run_tracksetartist : List Value → C ℤ
  unfolding arg_ids idl_iterate each_tracksetartist arg_int
  run_tracksetartist argv = arg_ids argv 0 >>= λ list.
      arg_int argv 1 >>= λ artistid. idl_iterate list (each_tracksetartist artistid)

  unfoldable pub run_tracksetname : List Value → C ℤ
  unfolding arg_int arg_text succ_of tracksetname
  run_tracksetname argv = arg_int argv 0 >>= λ trackid.
      arg_text argv 1 >>= λ name. succ_of (tracksetname duc_open trackid name)

  unfoldable pub run_filterset : List Value → C ℤ
  unfolding arg_text succ_of filterset
  run_filterset argv = arg_text argv 0 >>= λ filt. succ_of (filterset duc_open filt)

  unfoldable pub run_filterstat : List Value → C ℤ
  unfolding shown_int filterstat
  run_filterstat argv =
      shown_int (filterstat duc_open)
        (λ n. codes "tracks matching filter: " ++ print_int n ++ codes "\n")

  unfoldable pub run_filtertop : List Value → C ℤ
  unfolding arg_int shown_of dump_tracks filtertop
  run_filtertop argv =
      arg_int argv 0 >>= λ n. shown_of (negsuc 0) (filtertop duc_open n) (dump_tracks libc)
