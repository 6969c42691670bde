-- ===== src/Cmd/Settle/Tag.antt =====
-- How the commands on tags end.
use dudlc.Shared.{List, negsuc, codes, ℤ, some, ◌++◌}
use dudlc.Cstring.Decimal.{print_int}
use dudlc.Row.{tag_parse}
use dudlc.Command.Tag.{
  tagadd, tagdel, tagget, taglist, tagsartist, tagsetdesc, tagsetname, tracktagadd, tracktagdel,
}
use dudlc.Cmd.Idlist.{Idlist}
use dudlc.Cmd.Console.{Libc}
use dudlc.Cmd.Format.{dfmt_taghead}
use dudlc.Cmd.Dump.{buf_len_queue}
use dudlc.Cmd.Console.Ends.{Settling, bind-Settling}
use dudlc.Cmd.Settle.Dump.{dump_tags-Settling, show_head-Settling, show_tag-Settling}
use dudlc.Cmd.Settle.{
  arg_int-Settling, arg_text-Settling, arg_ids-Settling, succ_of-Settling,
  unless_minus_one-Settling, rows-Settling, row-Settling, idl_iterate-Settling,
}
use dudlc.Cmd.Run.{Value}
use dudlc.Cmd.Run.Tag.{
  run_taglist, run_tagsartist, each_tagget, run_tagget, run_tagadd, run_tagsetname, run_tagsetdesc,
  each_tagdel, run_tagdel, each_tracktagaddtrack, each_tracktagdeltrack, each_tracktagadd,
  run_tracktagadd, each_tracktagdel, run_tracktagdel,
}

pub run_taglist-Settling : (libc : Libc) (argv : List Value) → Settling (run_taglist libc argv)
unfolding run_taglist taglist
run_taglist-Settling libc argv =
    rows-Settling (negsuc 0) tag_parse (codes "taglist") (dump_tags-Settling libc)

pub run_tagsartist-Settling :
    (libc : Libc) (argv : List Value) → Settling (run_tagsartist libc argv)
unfolding run_tagsartist tagsartist
run_tagsartist-Settling libc argv = bind-Settling (arg_int-Settling argv 0) (λ id.
    rows-Settling (negsuc 0) tag_parse (codes "tagsartist " ++ print_int id)
      (dump_tags-Settling libc))

pub each_tagget-Settling : (libc : Libc) (id : ℤ) → Settling (each_tagget libc id)
unfolding each_tagget tagget
each_tagget-Settling libc id =
    row-Settling (negsuc 0) tag_parse (codes "tagget " ++ print_int id) (show_tag-Settling libc)

pub run_tagget-Settling : (libc : Libc) (argv : List Value) → Settling (run_tagget libc argv)
unfolding run_tagget
run_tagget-Settling libc argv =
    bind-Settling (show_head-Settling (some (dfmt_taghead buf_len_queue))) (λ _.
      bind-Settling (arg_ids-Settling argv 0)
        (λ list. idl_iterate-Settling list (each_tagget-Settling libc)))

pub run_tagadd-Settling : (libc : Libc) (argv : List Value) → Settling (run_tagadd libc argv)
unfolding run_tagadd tagadd
run_tagadd-Settling libc argv =
    bind-Settling (arg_text-Settling argv 0)
      (λ name. unless_minus_one-Settling (codes "tagadd " ++ name))

pub run_tagsetname-Settling :
    (libc : Libc) (argv : List Value) → Settling (run_tagsetname libc argv)
unfolding run_tagsetname tagsetname
run_tagsetname-Settling libc argv = bind-Settling (arg_int-Settling argv 0) (λ id.
    bind-Settling (arg_text-Settling argv 1)
      (λ name. succ_of-Settling (codes "tagsetname " ++ print_int id ++ codes " " ++ name)))

pub run_tagsetdesc-Settling :
    (libc : Libc) (argv : List Value) → Settling (run_tagsetdesc libc argv)
unfolding run_tagsetdesc tagsetdesc
run_tagsetdesc-Settling libc argv = bind-Settling (arg_int-Settling argv 0) (λ id.
    bind-Settling (arg_text-Settling argv 1)
      (λ desc. succ_of-Settling (codes "tagsetdesc " ++ print_int id ++ codes " " ++ desc)))

pub each_tagdel-Settling : (libc : Libc) (id : ℤ) → Settling (each_tagdel libc id)
unfolding each_tagdel tagdel
each_tagdel-Settling libc id = succ_of-Settling (codes "tagdel " ++ print_int id)

pub run_tagdel-Settling : (libc : Libc) (argv : List Value) → Settling (run_tagdel libc argv)
unfolding run_tagdel
run_tagdel-Settling libc argv =
    bind-Settling (arg_ids-Settling argv 0)
      (λ list. idl_iterate-Settling list (each_tagdel-Settling libc))

pub each_tracktagaddtrack-Settling :
    (libc : Libc) (trackid : ℤ) (id : ℤ) → Settling (each_tracktagaddtrack libc trackid id)
unfolding each_tracktagaddtrack tracktagadd
each_tracktagaddtrack-Settling libc trackid id =
    succ_of-Settling (codes "tracktagadd " ++ print_int trackid ++ codes " " ++ print_int id)

pub each_tracktagdeltrack-Settling :
    (libc : Libc) (trackid : ℤ) (id : ℤ) → Settling (each_tracktagdeltrack libc trackid id)
unfolding each_tracktagdeltrack tracktagdel
each_tracktagdeltrack-Settling libc trackid id =
    succ_of-Settling (codes "tracktagdel " ++ print_int trackid ++ codes " " ++ print_int id)

pub each_tracktagadd-Settling :
    (libc : Libc) (tags : Idlist) (id : ℤ) → Settling (each_tracktagadd libc tags id)
unfolding each_tracktagadd
each_tracktagadd-Settling libc tags id =
    idl_iterate-Settling tags (each_tracktagaddtrack-Settling libc id)

pub run_tracktagadd-Settling :
    (libc : Libc) (argv : List Value) → Settling (run_tracktagadd libc argv)
unfolding run_tracktagadd
run_tracktagadd-Settling libc argv = bind-Settling (arg_ids-Settling argv 0) (λ list.
    bind-Settling (arg_ids-Settling argv 1)
      (λ tags. idl_iterate-Settling list (each_tracktagadd-Settling libc tags)))

pub each_tracktagdel-Settling :
    (libc : Libc) (tags : Idlist) (id : ℤ) → Settling (each_tracktagdel libc tags id)
unfolding each_tracktagdel
each_tracktagdel-Settling libc tags id =
    idl_iterate-Settling tags (each_tracktagdeltrack-Settling libc id)

pub run_tracktagdel-Settling :
    (libc : Libc) (argv : List Value) → Settling (run_tracktagdel libc argv)
unfolding run_tracktagdel
run_tracktagdel-Settling libc argv = bind-Settling (arg_ids-Settling argv 0) (λ list.
    bind-Settling (arg_ids-Settling argv 1)
      (λ tags. idl_iterate-Settling list (each_tracktagdel-Settling libc tags)))
