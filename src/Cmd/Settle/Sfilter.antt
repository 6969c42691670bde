-- ===== src/Cmd/Settle/Sfilter.antt =====
-- How the commands on saved filters end.
use dudlc.Shared.{List, negsuc, codes, ℤ, some, ◌++◌}
use dudlc.Cstring.Decimal.{print_int}
use dudlc.Row.{sfilter_parse}
use dudlc.Command.Sfilter.{
  sfilteradd, sfilterdel, sfilterget, sfilterlist, sfiltersetfilter, sfiltersetname,
}
use dudlc.Cmd.Console.{Libc}
use dudlc.Cmd.Format.{dfmt_sfilterhead}
use dudlc.Cmd.Dump.{buf_len_queue}
use dudlc.Cmd.Console.Ends.{Settling, bind-Settling}
use dudlc.Cmd.Settle.Dump.{dump_sfilters-Settling, show_head-Settling, show_long_sfilter-Settling}
use dudlc.Cmd.Settle.{
  arg_int-Settling, arg_text-Settling, arg_ids-Settling, succ_of-Settling,
  unless_minus_one-Settling, rows-Settling, row-Settling, idl_iterate-Settling,
}
use dudlc.Cmd.Run.{Value}
use dudlc.Cmd.Run.Sfilter.{
  run_sfilterlist, each_sfilterget, run_sfilterget, run_sfilteradd, run_sfiltersetname,
  run_sfiltersetfilter, run_sfilterdel,
}

pub run_sfilterlist-Settling :
    (libc : Libc) (argv : List Value) → Settling (run_sfilterlist libc argv)
unfolding run_sfilterlist sfilterlist
run_sfilterlist-Settling libc argv =
    rows-Settling (negsuc 0) sfilter_parse (codes "sfilterlist") (dump_sfilters-Settling libc)

pub each_sfilterget-Settling : (libc : Libc) (id : ℤ) → Settling (each_sfilterget libc id)
unfolding each_sfilterget sfilterget
each_sfilterget-Settling libc id =
    row-Settling (negsuc 0) sfilter_parse (codes "sfilterget " ++ print_int id)
      (show_long_sfilter-Settling libc)

pub run_sfilterget-Settling :
    (libc : Libc) (argv : List Value) → Settling (run_sfilterget libc argv)
unfolding run_sfilterget
run_sfilterget-Settling libc argv =
    bind-Settling (show_head-Settling (some (dfmt_sfilterhead buf_len_queue))) (λ _.
      bind-Settling (arg_ids-Settling argv 0)
        (λ list. idl_iterate-Settling list (each_sfilterget-Settling libc)))

pub run_sfilteradd-Settling :
    (libc : Libc) (argv : List Value) → Settling (run_sfilteradd libc argv)
unfolding run_sfilteradd sfilteradd
run_sfilteradd-Settling libc argv =
    bind-Settling (arg_text-Settling argv 0)
      (λ name. unless_minus_one-Settling (codes "sfilteradd " ++ name))

pub run_sfiltersetname-Settling :
    (libc : Libc) (argv : List Value) → Settling (run_sfiltersetname libc argv)
unfolding run_sfiltersetname sfiltersetname
run_sfiltersetname-Settling libc argv = bind-Settling (arg_int-Settling argv 0) (λ id.
    bind-Settling (arg_text-Settling argv 1)
      (λ name. succ_of-Settling (codes "sfiltersetname " ++ print_int id ++ codes " " ++ name)))

pub run_sfiltersetfilter-Settling :
    (libc : Libc) (argv : List Value) → Settling (run_sfiltersetfilter libc argv)
unfolding run_sfiltersetfilter sfiltersetfilter
run_sfiltersetfilter-Settling libc argv = bind-Settling (arg_int-Settling argv 0) (λ id.
    bind-Settling (arg_text-Settling argv 1)
      (λ flt. succ_of-Settling (codes "sfiltersetfilter " ++ print_int id ++ codes " " ++ flt)))

pub run_sfilterdel-Settling :
    (libc : Libc) (argv : List Value) → Settling (run_sfilterdel libc argv)
unfolding run_sfilterdel sfilterdel
run_sfilterdel-Settling libc argv =
    bind-Settling (arg_int-Settling argv 0)
      (λ id. succ_of-Settling (codes "sfilterdel " ++ print_int id))
