-- ===== src/Cmd/Settle/Call.antt =====
-- How the calls through `run` end.
use dudlc.Shared.{Option, none, some, List, [], ◌∷◌, ◌++◌, pos, codes}
use dudlc.Cmd.Console.{Libc}
use dudlc.Cmd.Console.Ends.{Settling, bind-Settling, return-Settling, dmsg_msg-Settling}
use dudlc.Cmd.Run.{Value}
use dudlc.Cmd.Settle.{arg_text-Settling}
use dudlc.Cmd.Table.{
  Runner, c_open, c_help, c_helpcmd, c_raw, c_clientlist, c_clientclose, c_clientcloseuser,
  c_userget, c_userlist, c_usersetpass, c_usersetright, c_useradd, c_userdel, c_play, c_stop,
  c_next, c_prev, c_pause, c_status, c_info, c_gap, c_gapset, c_random, c_randomset, c_elapsed,
  c_jump, c_cut, c_cutset, c_replaygain, c_replaygainset, c_rgpreamp, c_rgpreampset, c_trackcount,
  c_trackget, c_tracksearchf, c_tracksetartist, c_tracksetname, c_filter, c_filterset, c_filterstat,
  c_filtertop, c_queuelist, c_queueget, c_queueadd, c_queuedel, c_queueclear, c_queuesum, c_sleep,
  c_sleepset, c_history, c_historytrack, c_taglist, c_tagsartist, c_tagget, c_tagadd, c_tagsetname,
  c_tagsetdesc, c_tagdel, c_tracktaglist, c_tracktagadd, c_tracktagdel, c_albumlist, c_albumget,
  c_albumsearch, c_albumsartist, c_albumstag, c_albumsetartist, c_albumsetname, c_albumsetyear,
  c_artistlist, c_artiststag, c_artistget, c_artistsearch, c_artistsetname, c_artistmerge,
  c_artistadd, c_artistdel, c_sfilterlist, c_sfilterget, c_sfilteradd, c_sfiltersetname,
  c_sfiltersetfilter, c_sfilterdel, c_sfilterload, c_sfiltersave, Command,
}
use dudlc.Cmd.Table.Top.{cmds_top}
use dudlc.Cmd.Table.Call.{
  cmd_usage, show_usage, show_usages, run_help, help_on, run_helpcmd, cmd_find, call,
}
use dudlc.Cmd.Settle.Album.{
  run_albumlist-Settling, run_albumstag-Settling, run_albumget-Settling, run_albumsearch-Settling,
  run_albumsartist-Settling, run_albumsetartist-Settling, run_albumsetname-Settling,
  run_albumsetyear-Settling,
}
use dudlc.Cmd.Settle.Artist.{
  run_artistlist-Settling, run_artiststag-Settling, run_artistget-Settling,
  run_artistsearch-Settling, run_artistsetname-Settling, run_artistmerge-Settling,
  run_artistadd-Settling, run_artistdel-Settling,
}
use dudlc.Cmd.Settle.Composed.{
  run_info-Settling, run_filter-Settling, run_tracktaglist-Settling, run_sfilterload-Settling,
  run_sfiltersave-Settling,
}
use dudlc.Cmd.Settle.Gain.{run_rgpreamp-Settling, run_rgpreampset-Settling}
use dudlc.Cmd.Settle.Player.{
  run_play-Settling, run_stop-Settling, run_next-Settling, run_prev-Settling, run_pause-Settling,
  run_gap-Settling, run_gapset-Settling, run_random-Settling, run_randomset-Settling,
  run_elapsed-Settling, run_jump-Settling, run_cut-Settling, run_cutset-Settling,
  run_replaygain-Settling, run_replaygainset-Settling, run_sleep-Settling, run_sleepset-Settling,
}
use dudlc.Cmd.Settle.Queue.{
  run_queuelist-Settling, run_queueget-Settling, run_queueadd-Settling, run_queuedel-Settling,
  run_queueclear-Settling, run_queuesum-Settling, run_history-Settling, run_historytrack-Settling,
}
use dudlc.Cmd.Settle.Raw.{run_open-Settling, run_raw-Settling, run_status-Settling}
use dudlc.Cmd.Settle.Session.{
  run_clientlist-Settling, run_clientclose-Settling, run_clientcloseuser-Settling,
  run_userget-Settling, run_userlist-Settling, run_usersetpass-Settling, run_usersetright-Settling,
  run_useradd-Settling, run_userdel-Settling,
}
use dudlc.Cmd.Settle.Sfilter.{
  run_sfilterlist-Settling, run_sfilterget-Settling, run_sfilteradd-Settling,
  run_sfiltersetname-Settling, run_sfiltersetfilter-Settling, run_sfilterdel-Settling,
}
use dudlc.Cmd.Settle.Tag.{
  run_taglist-Settling, run_tagsartist-Settling, run_tagget-Settling, run_tagadd-Settling,
  run_tagsetname-Settling, run_tagsetdesc-Settling, run_tagdel-Settling, run_tracktagadd-Settling,
  run_tracktagdel-Settling,
}
use dudlc.Cmd.Settle.Track.{
  run_trackcount-Settling, run_trackget-Settling, run_tracksearchf-Settling,
  run_tracksetartist-Settling, run_tracksetname-Settling, run_filterset-Settling,
  run_filterstat-Settling, run_filtertop-Settling,
}

show_usage-Settling : (cmd : Command) → Settling (show_usage cmd)
unfolding show_usage
show_usage-Settling cmd =
    dmsg_msg-Settling (cmd_usage cmd ++ codes "\n\t" ++ cmd.help ++ codes "\n")

show_usages-Settling : (cmds : List Command) → Settling (show_usages cmds)
unfolding show_usages
show_usages-Settling [] = return-Settling tt
show_usages-Settling (cmd ∷ cmds) =
    bind-Settling (show_usage-Settling cmd) (λ _. show_usages-Settling cmds)

run_help-Settling : (argv : List Value) → Settling (run_help argv)
unfolding run_help
run_help-Settling argv =
    bind-Settling (show_usages-Settling cmds_top) (λ _. return-Settling (pos 0))

help_on-Settling : (cmd : Option Command) → Settling (help_on cmd)
unfolding help_on
help_on-Settling none = return-Settling (pos 0)
help_on-Settling (some cmd) = bind-Settling (show_usage-Settling cmd) (λ _. return-Settling (pos 0))

run_helpcmd-Settling : (argv : List Value) → Settling (run_helpcmd argv)
unfolding run_helpcmd
run_helpcmd-Settling argv =
    bind-Settling (arg_text-Settling argv 0) (λ name. help_on-Settling (cmd_find name))

pub call-Settling : (libc : Libc) (run : Runner) (argv : List Value) → Settling (call libc run argv)
unfolding call
call-Settling libc c_open argv = run_open-Settling libc argv
call-Settling libc c_help argv = run_help-Settling argv
call-Settling libc c_helpcmd argv = run_helpcmd-Settling argv
call-Settling libc c_raw argv = run_raw-Settling libc argv
call-Settling libc c_clientlist argv = run_clientlist-Settling libc argv
call-Settling libc c_clientclose argv = run_clientclose-Settling libc argv
call-Settling libc c_clientcloseuser argv = run_clientcloseuser-Settling libc argv
call-Settling libc c_userget argv = run_userget-Settling libc argv
call-Settling libc c_userlist argv = run_userlist-Settling libc argv
call-Settling libc c_usersetpass argv = run_usersetpass-Settling libc argv
call-Settling libc c_usersetright argv = run_usersetright-Settling libc argv
call-Settling libc c_useradd argv = run_useradd-Settling libc argv
call-Settling libc c_userdel argv = run_userdel-Settling libc argv
call-Settling libc c_play argv = run_play-Settling libc argv
call-Settling libc c_stop argv = run_stop-Settling libc argv
call-Settling libc c_next argv = run_next-Settling libc argv
call-Settling libc c_prev argv = run_prev-Settling libc argv
call-Settling libc c_pause argv = run_pause-Settling libc argv
call-Settling libc c_status argv = run_status-Settling libc argv
call-Settling libc c_info argv = run_info-Settling libc argv
call-Settling libc c_gap argv = run_gap-Settling libc argv
call-Settling libc c_gapset argv = run_gapset-Settling libc argv
call-Settling libc c_random argv = run_random-Settling libc argv
call-Settling libc c_randomset argv = run_randomset-Settling libc argv
call-Settling libc c_elapsed argv = run_elapsed-Settling libc argv
call-Settling libc c_jump argv = run_jump-Settling libc argv
call-Settling libc c_cut argv = run_cut-Settling libc argv
call-Settling libc c_cutset argv = run_cutset-Settling libc argv
call-Settling libc c_replaygain argv = run_replaygain-Settling libc argv
call-Settling libc c_replaygainset argv = run_replaygainset-Settling libc argv
call-Settling libc c_rgpreamp argv = run_rgpreamp-Settling libc argv
call-Settling libc c_rgpreampset argv = run_rgpreampset-Settling libc argv
call-Settling libc c_trackcount argv = run_trackcount-Settling libc argv
call-Settling libc c_trackget argv = run_trackget-Settling libc argv
call-Settling libc c_tracksearchf argv = run_tracksearchf-Settling libc argv
call-Settling libc c_tracksetartist argv = run_tracksetartist-Settling libc argv
call-Settling libc c_tracksetname argv = run_tracksetname-Settling libc argv
call-Settling libc c_filter argv = run_filter-Settling libc argv
call-Settling libc c_filterset argv = run_filterset-Settling libc argv
call-Settling libc c_filterstat argv = run_filterstat-Settling libc argv
call-Settling libc c_filtertop argv = run_filtertop-Settling libc argv
call-Settling libc c_queuelist argv = run_queuelist-Settling libc argv
call-Settling libc c_queueget argv = run_queueget-Settling libc argv
call-Settling libc c_queueadd argv = run_queueadd-Settling libc argv
call-Settling libc c_queuedel argv = run_queuedel-Settling libc argv
call-Settling libc c_queueclear argv = run_queueclear-Settling libc argv
call-Settling libc c_queuesum argv = run_queuesum-Settling libc argv
call-Settling libc c_sleep argv = run_sleep-Settling libc argv
call-Settling libc c_sleepset argv = run_sleepset-Settling libc argv
call-Settling libc c_history argv = run_history-Settling libc argv
call-Settling libc c_historytrack argv = run_historytrack-Settling libc argv
call-Settling libc c_taglist argv = run_taglist-Settling libc argv
call-Settling libc c_tagsartist argv = run_tagsartist-Settling libc argv
call-Settling libc c_tagget argv = run_tagget-Settling libc argv
call-Settling libc c_tagadd argv = run_tagadd-Settling libc argv
call-Settling libc c_tagsetname argv = run_tagsetname-Settling libc argv
call-Settling libc c_tagsetdesc argv = run_tagsetdesc-Settling libc argv
call-Settling libc c_tagdel argv = run_tagdel-Settling libc argv
call-Settling libc c_tracktaglist argv = run_tracktaglist-Settling libc argv
call-Settling libc c_tracktagadd argv = run_tracktagadd-Settling libc argv
call-Settling libc c_tracktagdel argv = run_tracktagdel-Settling libc argv
call-Settling libc c_albumlist argv = run_albumlist-Settling libc argv
call-Settling libc c_albumget argv = run_albumget-Settling libc argv
call-Settling libc c_albumsearch argv = run_albumsearch-Settling libc argv
call-Settling libc c_albumsartist argv = run_albumsartist-Settling libc argv
call-Settling libc c_albumstag argv = run_albumstag-Settling libc argv
call-Settling libc c_albumsetartist argv = run_albumsetartist-Settling libc argv
call-Settling libc c_albumsetname argv = run_albumsetname-Settling libc argv
call-Settling libc c_albumsetyear argv = run_albumsetyear-Settling libc argv
call-Settling libc c_artistlist argv = run_artistlist-Settling libc argv
call-Settling libc c_artiststag argv = run_artiststag-Settling libc argv
call-Settling libc c_artistget argv = run_artistget-Settling libc argv
call-Settling libc c_artistsearch argv = run_artistsearch-Settling libc argv
call-Settling libc c_artistsetname argv = run_artistsetname-Settling libc argv
call-Settling libc c_artistmerge argv = run_artistmerge-Settling libc argv
call-Settling libc c_artistadd argv = run_artistadd-Settling libc argv
call-Settling libc c_artistdel argv = run_artistdel-Settling libc argv
call-Settling libc c_sfilterlist argv = run_sfilterlist-Settling libc argv
call-Settling libc c_sfilterget argv = run_sfilterget-Settling libc argv
call-Settling libc c_sfilteradd argv = run_sfilteradd-Settling libc argv
call-Settling libc c_sfiltersetname argv = run_sfiltersetname-Settling libc argv
call-Settling libc c_sfiltersetfilter argv = run_sfiltersetfilter-Settling libc argv
call-Settling libc c_sfilterdel argv = run_sfilterdel-Settling libc argv
call-Settling libc c_sfilterload argv = run_sfilterload-Settling libc argv
call-Settling libc c_sfiltersave argv = run_sfiltersave-Settling libc argv
