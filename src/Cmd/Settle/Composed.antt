-- ===== src/Cmd/Settle/Composed.antt =====
-- How the commands that make several requests end.
use dudlc.Shared.{Option, none, some, List, codes, ◌++◌, ltb, ℤ, pos, negsuc, Bytes, length}
use dudlc.Cstring.Decimal.{print_int}
use dudlc.Row.{Track, Tag, track_parse, history_parse, tag_parse, sfilter_parse}
use dudlc.Iterate.{Rows, visited}
use dudlc.Command.Player.{curtrack}
use dudlc.Command.History.{historytrack}
use dudlc.Command.Random.{filter, filterset}
use dudlc.Command.Sfilter.{sfilterget, sfiltersetfilter}
use dudlc.Command.Tag.{tracktaglist}
use dudlc.Command.Track.{trackget}
use dudlc.Cmd.Console.{Libc, C}
use dudlc.Cmd.Console.Ends.{
  stopped, Settling, bind-Settling, return-Settling, if-Settling, dmsg_msg-Settling,
}
use dudlc.Cmd.Settle.{
  arg_int-Settling, arg_ids-Settling, cmd_succ-Settling, cmd_conv-Settling, cmd_string-Settling,
  it_newv-Settling, idl_iterate-Settling,
}
use dudlc.Cmd.Settle.Dump.{
  show_head-Settling, show_track-Settling, dump_historys-Settling, dump_tags-Settling,
}
use dudlc.Cmd.Run.{Value, code_of}
use dudlc.Cmd.Run.Composed.{
  needed, tag_names, show_tags, info_tags, run_info, run_filter, each_tracktaglist,
  run_tracktaglist, run_sfilterload, run_sfiltersave,
}
use dudlc.Cmd.Format.{dfmt_trackid, dfmt_trackhead}
use dudlc.Cmd.Dump.{dump_track, buf_len_track}

module _ {A : Type 0} where
  needed-Settling :
      (r : Option A) {f : A → C ℤ} → ((a : A) → Settling (f a)) → Settling (needed r f)
  unfolding needed
  needed-Settling none h = return-Settling (negsuc 0)
  needed-Settling (some a) h = h a

dump_track-Settling : (libc : Libc) (t : Track) → Settling (dump_track libc t)
unfolding dump_track
dump_track-Settling libc t =
    bind-Settling (show_head-Settling (some (dfmt_trackhead buf_len_track)))
      (λ _. show_track-Settling libc t)

show_tags-Settling : (buf : Bytes) → Settling (show_tags buf)
unfolding show_tags
show_tags-Settling buf =
    if-Settling (ltb (length buf) 4096)
      (bind-Settling (dmsg_msg-Settling (buf ++ codes "\n")) (λ _. return-Settling (pos 0)))
      (λ s i. stopped _)

module _ (libc : Libc) where
  info_tags-Settling : (t : Track) (tit : Rows Tag) → Settling (info_tags libc t tit)
  unfolding info_tags
  info_tags-Settling t tit =
      bind-Settling (dmsg_msg-Settling (codes "\ntags:\n"))
        (λ _. bind-Settling (dump_tags-Settling libc tit) (λ _. return-Settling (pos 0)))

  pub run_info-Settling : (argv : List Value) → Settling (run_info libc argv)
  unfolding run_info curtrack historytrack tracktaglist
  run_info-Settling argv = bind-Settling (cmd_conv-Settling track_parse (codes "curtrack")) λ r.
      needed-Settling r λ t.
        bind-Settling
          (bind-Settling (dmsg_msg-Settling (codes "current track:\n"))
            (λ _. dump_track-Settling libc t))
          λ _.
            bind-Settling
              (it_newv-Settling history_parse
                (codes "historytrack " ++ print_int t.id ++ codes " " ++ print_int (pos 10)))
              λ h. needed-Settling h λ hit.
                bind-Settling
                  (bind-Settling (dmsg_msg-Settling (codes "\nhistory:\n"))
                    (λ _. dump_historys-Settling libc hit))
                  λ _.
                    bind-Settling
                      (it_newv-Settling tag_parse (codes "tracktaglist " ++ print_int t.id))
                      λ g. needed-Settling g (info_tags-Settling t)

  pub run_filter-Settling : (argv : List Value) → Settling (run_filter libc argv)
  unfolding run_filter filter
  run_filter-Settling argv = bind-Settling (cmd_string-Settling (codes "filter")) λ r.
      needed-Settling r λ flt.
        bind-Settling (dmsg_msg-Settling (codes "current filter: " ++ flt ++ codes "\n"))
          (λ _. return-Settling (pos 0))

  each_tracktaglist-Settling : (id : ℤ) → Settling (each_tracktaglist libc id)
  unfolding each_tracktaglist trackget tracktaglist
  each_tracktaglist-Settling id =
      bind-Settling (cmd_conv-Settling track_parse (codes "trackget " ++ print_int id)) λ r.
        needed-Settling r λ tr.
          bind-Settling (it_newv-Settling tag_parse (codes "tracktaglist " ++ print_int id)) λ g.
            needed-Settling g λ it.
              show_tags-Settling
                (dfmt_trackid tr.album.id tr.albumnr ++ codes ": " ++ tag_names (visited it))

  pub run_tracktaglist-Settling : (argv : List Value) → Settling (run_tracktaglist libc argv)
  unfolding run_tracktaglist
  run_tracktaglist-Settling argv =
      bind-Settling (arg_ids-Settling argv 0)
        (λ list. idl_iterate-Settling list each_tracktaglist-Settling)

  pub run_sfilterload-Settling : (argv : List Value) → Settling (run_sfilterload libc argv)
  unfolding run_sfilterload sfilterget filterset
  run_sfilterload-Settling argv = bind-Settling (arg_int-Settling argv 0) λ id.
      bind-Settling (cmd_conv-Settling sfilter_parse (codes "sfilterget " ++ print_int id)) λ r.
        needed-Settling r λ filt.
          bind-Settling (cmd_succ-Settling (codes "filterset " ++ filt.filter))
            (λ good. return-Settling (code_of good))

  pub run_sfiltersave-Settling : (argv : List Value) → Settling (run_sfiltersave libc argv)
  unfolding run_sfiltersave filter sfiltersetfilter
  run_sfiltersave-Settling argv = bind-Settling (arg_int-Settling argv 0) λ id.
      bind-Settling (cmd_string-Settling (codes "filter")) λ r. needed-Settling r λ flt.
        bind-Settling
          (cmd_succ-Settling (codes "sfiltersetfilter " ++ print_int id ++ codes " " ++ flt))
          (λ good. return-Settling (code_of good))
