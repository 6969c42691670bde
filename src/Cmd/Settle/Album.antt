-- ===== src/Cmd/Settle/Album.antt =====
-- How the commands on albums end.
use dudlc.Shared.{List, negsuc, codes, ℤ, some, ◌++◌}
use dudlc.Cstring.Decimal.{print_int}
use dudlc.Row.{album_parse}
use dudlc.Command.Album.{
  albumget, albumlist, albumsartist, albumsearch, albumsetartist, albumsetname, albumsetyear,
  albumstag,
}
use dudlc.Cmd.Console.{Libc}
use dudlc.Cmd.Format.{dfmt_albumhead}
use dudlc.Cmd.Dump.{buf_len_queue}
use dudlc.Cmd.Console.Ends.{Settling, bind-Settling}
use dudlc.Cmd.Settle.Dump.{dump_albums-Settling, show_album-Settling, show_head-Settling}
use dudlc.Cmd.Settle.{
  arg_int-Settling, arg_text-Settling, arg_ids-Settling, succ_of-Settling, rows-Settling,
  row-Settling, idl_iterate-Settling,
}
use dudlc.Cmd.Run.{Value}
use dudlc.Cmd.Run.Album.{
  run_albumlist, run_albumstag, each_albumget, run_albumget, run_albumsearch, run_albumsartist,
  run_albumsetartist, run_albumsetname, run_albumsetyear,
}

pub run_albumlist-Settling : (libc : Libc) (argv : List Value) → Settling (run_albumlist libc argv)
unfolding run_albumlist albumlist
run_albumlist-Settling libc argv =
    rows-Settling (negsuc 0) album_parse (codes "albumlist") (dump_albums-Settling libc)

pub run_albumstag-Settling : (libc : Libc) (argv : List Value) → Settling (run_albumstag libc argv)
unfolding run_albumstag albumstag
run_albumstag-Settling libc argv = bind-Settling (arg_int-Settling argv 0) (λ id.
    rows-Settling (negsuc 0) album_parse (codes "albumstag " ++ print_int id)
      (dump_albums-Settling libc))

pub each_albumget-Settling : (libc : Libc) (id : ℤ) → Settling (each_albumget libc id)
unfolding each_albumget albumget
each_albumget-Settling libc id =
    row-Settling (negsuc 0) album_parse (codes "albumget " ++ print_int id)
      (show_album-Settling libc)

pub run_albumget-Settling : (libc : Libc) (argv : List Value) → Settling (run_albumget libc argv)
unfolding run_albumget
run_albumget-Settling libc argv =
    bind-Settling (show_head-Settling (some (dfmt_albumhead buf_len_queue))) (λ _.
      bind-Settling (arg_ids-Settling argv 0)
        (λ list. idl_iterate-Settling list (each_albumget-Settling libc)))

pub run_albumsearch-Settling :
    (libc : Libc) (argv : List Value) → Settling (run_albumsearch libc argv)
unfolding run_albumsearch albumsearch
run_albumsearch-Settling libc argv = bind-Settling (arg_text-Settling argv 0) (λ fnd.
    rows-Settling (negsuc 0) album_parse (codes "albumsearch " ++ fnd) (dump_albums-Settling libc))

pub run_albumsartist-Settling :
    (libc : Libc) (argv : List Value) → Settling (run_albumsartist libc argv)
unfolding run_albumsartist albumsartist
run_albumsartist-Settling libc argv = bind-Settling (arg_int-Settling argv 0) (λ id.
    rows-Settling (negsuc 0) album_parse (codes "albumsartist " ++ print_int id)
      (dump_albums-Settling libc))

pub run_albumsetartist-Settling :
    (libc : Libc) (argv : List Value) → Settling (run_albumsetartist libc argv)
unfolding run_albumsetartist albumsetartist
run_albumsetartist-Settling libc argv = bind-Settling (arg_int-Settling argv 0) (λ albumid.
    bind-Settling (arg_int-Settling argv 1) (λ artistid.
      succ_of-Settling
        (codes "albumsetartist " ++ print_int albumid ++ codes " " ++ print_int artistid)))

pub run_albumsetname-Settling :
    (libc : Libc) (argv : List Value) → Settling (run_albumsetname libc argv)
unfolding run_albumsetname albumsetname
run_albumsetname-Settling libc argv = bind-Settling (arg_int-Settling argv 0) (λ albumid.
    bind-Settling (arg_text-Settling argv 1)
      (λ name. succ_of-Settling (codes "albumsetname " ++ print_int albumid ++ codes " " ++ name)))

pub run_albumsetyear-Settling :
    (libc : Libc) (argv : List Value) → Settling (run_albumsetyear libc argv)
unfolding run_albumsetyear albumsetyear
run_albumsetyear-Settling libc argv = bind-Settling (arg_int-Settling argv 0) (λ albumid.
    bind-Settling (arg_int-Settling argv 1) (λ year.
      succ_of-Settling (codes "albumsetyear " ++ print_int albumid ++ codes " " ++ print_int year)))
