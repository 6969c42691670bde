-- ===== src/Cmd/Settle/Track.antt =====
-- How the commands on tracks and the filter end.
use dudlc.Shared.{List, negsuc, codes, ℤ, some, ◌++◌}
use dudlc.Cstring.Decimal.{print_int}
use dudlc.Row.{track_parse}
use dudlc.Command.Random.{filterset, filterstat, filtertop}
use dudlc.Command.Track.{trackget, tracks, tracksearchf, tracksetartist, tracksetname}
use dudlc.Cmd.Console.{Libc}
use dudlc.Cmd.Format.{dfmt_trackhead}
use dudlc.Cmd.Dump.{buf_len_track}
use dudlc.Cmd.Console.Ends.{Settling, bind-Settling}
use dudlc.Cmd.Settle.Dump.{dump_tracks-Settling, show_head-Settling, show_track-Settling}
use dudlc.Cmd.Settle.{
  arg_int-Settling, arg_text-Settling, arg_ids-Settling, succ_of-Settling, shown_int-Settling,
  rows-Settling, row-Settling, idl_iterate-Settling,
}
use dudlc.Cmd.Run.{Value}
use dudlc.Cmd.Run.Track.{
  run_trackcount, each_trackget, run_trackget, run_tracksearchf, each_tracksetartist,
  run_tracksetartist, run_tracksetname, run_filterset, run_filterstat, run_filtertop,
}

pub run_trackcount-Settling :
    (libc : Libc) (argv : List Value) → Settling (run_trackcount libc argv)
unfolding run_trackcount tracks
run_trackcount-Settling libc argv =
    shown_int-Settling (codes "trackcount")
      (λ n. codes "available tracks: " ++ print_int n ++ codes "\n")

pub each_trackget-Settling : (libc : Libc) (id : ℤ) → Settling (each_trackget libc id)
unfolding each_trackget trackget
each_trackget-Settling libc id =
    row-Settling (negsuc 0) track_parse (codes "trackget " ++ print_int id)
      (show_track-Settling libc)

pub run_trackget-Settling : (libc : Libc) (argv : List Value) → Settling (run_trackget libc argv)
unfolding run_trackget
run_trackget-Settling libc argv =
    bind-Settling (show_head-Settling (some (dfmt_trackhead buf_len_track))) (λ _.
      bind-Settling (arg_ids-Settling argv 0)
        (λ list. idl_iterate-Settling list (each_trackget-Settling libc)))

pub run_tracksearchf-Settling :
    (libc : Libc) (argv : List Value) → Settling (run_tracksearchf libc argv)
unfolding run_tracksearchf tracksearchf
run_tracksearchf-Settling libc argv = bind-Settling (arg_text-Settling argv 0) (λ filt.
    rows-Settling (negsuc 0) track_parse (codes "tracksearchf " ++ filt)
      (dump_tracks-Settling libc))

pub each_tracksetartist-Settling :
    (libc : Libc) (artistid : ℤ) (id : ℤ) → Settling (each_tracksetartist libc artistid id)
unfolding each_tracksetartist tracksetartist
each_tracksetartist-Settling libc artistid id =
    succ_of-Settling (codes "tracksetartist " ++ print_int id ++ codes " " ++ print_int artistid)

pub run_tracksetartist-Settling :
    (libc : Libc) (argv : List Value) → Settling (run_tracksetartist libc argv)
unfolding run_tracksetartist
run_tracksetartist-Settling libc argv = bind-Settling (arg_ids-Settling argv 0) (λ list.
    bind-Settling (arg_int-Settling argv 1)
      (λ artistid. idl_iterate-Settling list (each_tracksetartist-Settling libc artistid)))

pub run_tracksetname-Settling :
    (libc : Libc) (argv : List Value) → Settling (run_tracksetname libc argv)
unfolding run_tracksetname tracksetname
run_tracksetname-Settling libc argv = bind-Settling (arg_int-Settling argv 0) (λ trackid.
    bind-Settling (arg_text-Settling argv 1)
      (λ name. succ_of-Settling (codes "tracksetname " ++ print_int trackid ++ codes " " ++ name)))

pub run_filterset-Settling : (libc : Libc) (argv : List Value) → Settling (run_filterset libc argv)
unfolding run_filterset filterset
run_filterset-Settling libc argv =
    bind-Settling (arg_text-Settling argv 0) (λ filt. succ_of-Settling (codes "filterset " ++ filt))

pub run_filterstat-Settling :
    (libc : Libc) (argv : List Value) → Settling (run_filterstat libc argv)
unfolding run_filterstat filterstat
run_filterstat-Settling libc argv =
    shown_int-Settling (codes "filterstat")
      (λ n. codes "tracks matching filter: " ++ print_int n ++ codes "\n")

pub run_filtertop-Settling : (libc : Libc) (argv : List Value) → Settling (run_filtertop libc argv)
unfolding run_filtertop filtertop
run_filtertop-Settling libc argv = bind-Settling (arg_int-Settling argv 0) (λ n.
    rows-Settling (negsuc 0) track_parse (codes "filtertop " ++ print_int n)
      (dump_tracks-Settling libc))
