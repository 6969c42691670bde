-- ===== src/Cmd/Settle/Artist.antt =====
-- How the commands on artists end.
use dudlc.Shared.{List, negsuc, codes, ℤ, some, ◌++◌}
use dudlc.Cstring.Decimal.{print_int}
use dudlc.Row.{artist_parse}
use dudlc.Command.Artist.{
  artistadd, artistdel, artistget, artistlist, artistmerge, artistsearch, artistsetname, artiststag,
}
use dudlc.Cmd.Console.{Libc}
use dudlc.Cmd.Format.{dfmt_artisthead}
use dudlc.Cmd.Dump.{buf_len_queue}
use dudlc.Cmd.Console.Ends.{Settling, bind-Settling}
use dudlc.Cmd.Settle.Dump.{dump_artists-Settling, show_artist-Settling, show_head-Settling}
use dudlc.Cmd.Settle.{
  arg_int-Settling, arg_text-Settling, arg_ids-Settling, succ_of-Settling,
  unless_minus_one-Settling, rows-Settling, row-Settling, idl_iterate-Settling,
}
use dudlc.Cmd.Run.{Value}
use dudlc.Cmd.Run.Artist.{
  run_artistlist, run_artiststag, each_artistget, run_artistget, run_artistsearch,
  run_artistsetname, run_artistmerge, run_artistadd, run_artistdel,
}

pub run_artistlist-Settling :
    (libc : Libc) (argv : List Value) → Settling (run_artistlist libc argv)
unfolding run_artistlist artistlist
run_artistlist-Settling libc argv =
    rows-Settling (negsuc 0) artist_parse (codes "artistlist") (dump_artists-Settling libc)

pub run_artiststag-Settling :
    (libc : Libc) (argv : List Value) → Settling (run_artiststag libc argv)
unfolding run_artiststag artiststag
run_artiststag-Settling libc argv = bind-Settling (arg_int-Settling argv 0) (λ id.
    rows-Settling (negsuc 0) artist_parse (codes "artiststag " ++ print_int id)
      (dump_artists-Settling libc))

pub each_artistget-Settling : (libc : Libc) (id : ℤ) → Settling (each_artistget libc id)
unfolding each_artistget artistget
each_artistget-Settling libc id =
    row-Settling (negsuc 0) artist_parse (codes "artistget " ++ print_int id)
      (show_artist-Settling libc)

pub run_artistget-Settling : (libc : Libc) (argv : List Value) → Settling (run_artistget libc argv)
unfolding run_artistget
run_artistget-Settling libc argv =
    bind-Settling (show_head-Settling (some (dfmt_artisthead buf_len_queue))) (λ _.
      bind-Settling (arg_ids-Settling argv 0)
        (λ list. idl_iterate-Settling list (each_artistget-Settling libc)))

pub run_artistsearch-Settling :
    (libc : Libc) (argv : List Value) → Settling (run_artistsearch libc argv)
unfolding run_artistsearch artistsearch
run_artistsearch-Settling libc argv = bind-Settling (arg_text-Settling argv 0) (λ fnd.
    rows-Settling (negsuc 0) artist_parse (codes "artistsearch " ++ fnd)
      (dump_artists-Settling libc))

pub run_artistsetname-Settling :
    (libc : Libc) (argv : List Value) → Settling (run_artistsetname libc argv)
unfolding run_artistsetname artistsetname
run_artistsetname-Settling libc argv = bind-Settling (arg_int-Settling argv 0) (λ id.
    bind-Settling (arg_text-Settling argv 1)
      (λ name. succ_of-Settling (codes "artistsetname " ++ print_int id ++ codes " " ++ name)))

pub run_artistmerge-Settling :
    (libc : Libc) (argv : List Value) → Settling (run_artistmerge libc argv)
unfolding run_artistmerge artistmerge
run_artistmerge-Settling libc argv = bind-Settling (arg_int-Settling argv 0) (λ old.
    bind-Settling (arg_int-Settling argv 1) (λ new.
      succ_of-Settling (codes "artistmerge " ++ print_int old ++ codes " " ++ print_int new)))

pub run_artistadd-Settling : (libc : Libc) (argv : List Value) → Settling (run_artistadd libc argv)
unfolding run_artistadd artistadd
run_artistadd-Settling libc argv =
    bind-Settling (arg_text-Settling argv 0)
      (λ name. unless_minus_one-Settling (codes "artistadd " ++ name))

pub run_artistdel-Settling : (libc : Libc) (argv : List Value) → Settling (run_artistdel libc argv)
unfolding run_artistdel artistdel
run_artistdel-Settling libc argv =
    bind-Settling (arg_int-Settling argv 0)
      (λ id. succ_of-Settling (codes "artistdel " ++ print_int id))
