-- ===== src/Cmd/Table/Call.antt =====
-- cmd/command.c: finding a command, its usage, `help` and `helpcmd`, and the calls through `run`.
use dudlc.Shared.{
  Option, none, some, List, [], ◌∷◌, ◌++◌, ℤ, pos, Bool, false, Bytes, codes, if◌then◌else◌,
}
use dudlc.Session.Run.{◌>>=◌, ◌>>◌, return}
use dudlc.Proto.{bytes_equal}
use dudlc.Cmd.Console.{Libc, C, dmsg_msg}
use dudlc.Cmd.Table.{
  Runner, c_open, c_help, c_helpcmd, c_raw, c_clientlist, c_clientclose, c_clientcloseuser,
  c_userget, c_userlist, c_usersetpass, c_usersetright, c_useradd, c_userdel, c_play, c_stop,
  c_next, c_prev, c_pause, c_status, c_info, c_gap, c_gapset, c_random, c_randomset, c_elapsed,
  c_jump, c_cut, c_cutset, c_replaygain, c_replaygainset, c_rgpreamp, c_rgpreampset, c_trackcount,
  c_trackget, c_tracksearchf, c_tracksetartist, c_tracksetname, c_filter, c_filterset, c_filterstat,
  c_filtertop, c_queuelist, c_queueget, c_queueadd, c_queuedel, c_queueclear, c_queuesum, c_sleep,
  c_sleepset, c_history, c_historytrack, c_taglist, c_tagsartist, c_tagget, c_tagadd, c_tagsetname,
  c_tagsetdesc, c_tagdel, c_tracktaglist, c_tracktagadd, c_tracktagdel, c_albumlist, c_albumget,
  c_albumsearch, c_albumsartist, c_albumstag, c_albumsetartist, c_albumsetname, c_albumsetyear,
  c_artistlist, c_artiststag, c_artistget, c_artistsearch, c_artistsetname, c_artistmerge,
  c_artistadd, c_artistdel, c_sfilterlist, c_sfilterget, c_sfilteradd, c_sfiltersetname,
  c_sfiltersetfilter, c_sfilterdel, c_sfilterload, c_sfiltersave, Arg, Command,
}
use dudlc.Cmd.Table.Top.{cmds_top}
use dudlc.Cmd.Run.{Value, arg_text}
use dudlc.Cmd.Run.Album.{
  run_albumlist, run_albumstag, run_albumget, run_albumsearch, run_albumsartist, run_albumsetartist,
  run_albumsetname, run_albumsetyear,
}
use dudlc.Cmd.Run.Artist.{
  run_artistlist, run_artiststag, run_artistget, run_artistsearch, run_artistsetname,
  run_artistmerge, run_artistadd, run_artistdel,
}
use dudlc.Cmd.Run.Composed.{
  run_info, run_filter, run_tracktaglist, run_sfilterload, run_sfiltersave,
}
use dudlc.Cmd.Run.Gain.{run_rgpreamp, run_rgpreampset}
use dudlc.Cmd.Run.Player.{
  run_play, run_stop, run_next, run_prev, run_pause, run_gap, run_gapset, run_random, run_randomset,
  run_elapsed, run_jump, run_cut, run_cutset, run_replaygain, run_replaygainset, run_sleep,
  run_sleepset,
}
use dudlc.Cmd.Run.Queue.{
  run_queuelist, run_queueget, run_queueadd, run_queuedel, run_queueclear, run_queuesum,
  run_history, run_historytrack,
}
use dudlc.Cmd.Run.Raw.{run_open, run_raw, run_status}
use dudlc.Cmd.Run.Session.{
  run_clientlist, run_clientclose, run_clientcloseuser, run_userget, run_userlist, run_usersetpass,
  run_usersetright, run_useradd, run_userdel,
}
use dudlc.Cmd.Run.Sfilter.{
  run_sfilterlist, run_sfilterget, run_sfilteradd, run_sfiltersetname, run_sfiltersetfilter,
  run_sfilterdel,
}
use dudlc.Cmd.Run.Tag.{
  run_taglist, run_tagsartist, run_tagget, run_tagadd, run_tagsetname, run_tagsetdesc, run_tagdel,
  run_tracktagadd, run_tracktagdel,
}
use dudlc.Cmd.Run.Track.{
  run_trackcount, run_trackget, run_tracksearchf, run_tracksetartist, run_tracksetname,
  run_filterset, run_filterstat, run_filtertop,
}

-- strcmp is 0
unfoldable pub is_alias : Option Bytes → Bytes → Bool
unfolding bytes_equal
is_alias none name = false
is_alias (some a) name = bytes_equal a name

unfoldable pub find_in : List Command → Bytes → Option Command
unfolding is_alias
find_in [] name = none
find_in (cmd ∷ cmds) name =
    let rest = find_in cmds name in
    if bytes_equal cmd.name name
    then some cmd
    else if is_alias cmd.alias name
    then some cmd
    else rest

unfoldable pub cmd_find : Bytes → Option Command
unfolding find_in cmds_top
cmd_find name = find_in cmds_top name

abbrev pub alias_usage : Option Bytes → Bytes
alias_usage none = []
alias_usage (some a) = codes "|" ++ a

unfoldable pub args_usage : List Arg → Bytes
args_usage [] = []
args_usage (arg ∷ args) = codes " <" ++ arg.name ++ codes ">" ++ args_usage args

-- cmd_usage; the buffer of 2048 bytes is enough for every entry of the table.
unfoldable pub cmd_usage : Command → Bytes
unfolding args_usage
cmd_usage cmd = cmd.name ++ alias_usage cmd.alias ++ args_usage cmd.args

unfoldable pub show_usage : Command → C (Unit {0})
unfolding cmd_usage dmsg_msg
show_usage cmd = dmsg_msg (cmd_usage cmd ++ codes "\n\t" ++ cmd.help ++ codes "\n")

unfoldable pub show_usages : List Command → C (Unit {0})
unfolding show_usage
show_usages [] = return tt
show_usages (cmd ∷ cmds) = show_usage cmd >> show_usages cmds

unfoldable pub run_help : List Value → C ℤ
unfolding show_usages cmds_top
run_help argv = show_usages cmds_top >> return (pos 0)

unfoldable pub help_on : Option Command → C ℤ
unfolding show_usage
help_on none = return (pos 0)
help_on (some cmd) = show_usage cmd >> return (pos 0)

unfoldable pub run_helpcmd : List Value → C ℤ
unfolding arg_text help_on cmd_find
run_helpcmd argv = arg_text argv 0 >>= λ name. help_on (cmd_find name)

-- `(*cmd->run)( dudl, argv )`
unfoldable pub call : Libc → Runner → List Value → C ℤ
unfolding run_open run_raw run_clientlist run_clientclose run_clientcloseuser run_userget
    run_userlist run_usersetpass run_usersetright run_useradd run_userdel run_play run_stop run_next
    run_prev run_pause run_status run_info run_gap run_gapset run_random run_randomset run_elapsed
    run_jump run_cut run_cutset run_replaygain run_replaygainset run_rgpreamp run_rgpreampset
    run_trackcount run_trackget run_tracksearchf run_tracksetartist run_tracksetname run_filter
    run_filterset run_filterstat run_filtertop run_queuelist run_queueget run_queueadd run_queuedel
    run_queueclear run_queuesum run_sleep run_sleepset run_history run_historytrack run_taglist
    run_tagsartist run_tagget run_tagadd run_tagsetname run_tagsetdesc run_tagdel run_tracktaglist
    run_tracktagadd run_tracktagdel run_albumlist run_albumget run_albumsearch run_albumsartist
    run_albumstag run_albumsetartist run_albumsetname run_albumsetyear run_artistlist run_artiststag
    run_artistget run_artistsearch run_artistsetname run_artistmerge run_artistadd run_artistdel
    run_sfilterlist run_sfilterget run_sfilteradd run_sfiltersetname run_sfiltersetfilter
    run_sfilterdel run_sfilterload run_sfiltersave run_help run_helpcmd
call libc c_open argv = run_open libc argv
call libc c_help argv = run_help argv
call libc c_helpcmd argv = run_helpcmd argv
call libc c_raw argv = run_raw libc argv
call libc c_clientlist argv = run_clientlist libc argv
call libc c_clientclose argv = run_clientclose libc argv
call libc c_clientcloseuser argv = run_clientcloseuser libc argv
call libc c_userget argv = run_userget libc argv
call libc c_userlist argv = run_userlist libc argv
call libc c_usersetpass argv = run_usersetpass libc argv
call libc c_usersetright argv = run_usersetright libc argv
call libc c_useradd argv = run_useradd libc argv
call libc c_userdel argv = run_userdel libc argv
call libc c_play argv = run_play libc argv
call libc c_stop argv = run_stop libc argv
call libc c_next argv = run_next libc argv
call libc c_prev argv = run_prev libc argv
call libc c_pause argv = run_pause libc argv
call libc c_status argv = run_status libc argv
call libc c_info argv = run_info libc argv
call libc c_gap argv = run_gap libc argv
call libc c_gapset argv = run_gapset libc argv
call libc c_random argv = run_random libc argv
call libc c_randomset argv = run_randomset libc argv
call libc c_elapsed argv = run_elapsed libc argv
call libc c_jump argv = run_jump libc argv
call libc c_cut argv = run_cut libc argv
call libc c_cutset argv = run_cutset libc argv
call libc c_replaygain argv = run_replaygain libc argv
call libc c_replaygainset argv = run_replaygainset libc argv
call libc c_rgpreamp argv = run_rgpreamp libc argv
call libc c_rgpreampset argv = run_rgpreampset libc argv
call libc c_trackcount argv = run_trackcount libc argv
call libc c_trackget argv = run_trackget libc argv
call libc c_tracksearchf argv = run_tracksearchf libc argv
call libc c_tracksetartist argv = run_tracksetartist libc argv
call libc c_tracksetname argv = run_tracksetname libc argv
call libc c_filter argv = run_filter libc argv
call libc c_filterset argv = run_filterset libc argv
call libc c_filterstat argv = run_filterstat libc argv
call libc c_filtertop argv = run_filtertop libc argv
call libc c_queuelist argv = run_queuelist libc argv
call libc c_queueget argv = run_queueget libc argv
call libc c_queueadd argv = run_queueadd libc argv
call libc c_queuedel argv = run_queuedel libc argv
call libc c_queueclear argv = run_queueclear libc argv
call libc c_queuesum argv = run_queuesum libc argv
call libc c_sleep argv = run_sleep libc argv
call libc c_sleepset argv = run_sleepset libc argv
call libc c_history argv = run_history libc argv
call libc c_historytrack argv = run_historytrack libc argv
call libc c_taglist argv = run_taglist libc argv
call libc c_tagsartist argv = run_tagsartist libc argv
call libc c_tagget argv = run_tagget libc argv
call libc c_tagadd argv = run_tagadd libc argv
call libc c_tagsetname argv = run_tagsetname libc argv
call libc c_tagsetdesc argv = run_tagsetdesc libc argv
call libc c_tagdel argv = run_tagdel libc argv
call libc c_tracktaglist argv = run_tracktaglist libc argv
call libc c_tracktagadd argv = run_tracktagadd libc argv
call libc c_tracktagdel argv = run_tracktagdel libc argv
call libc c_albumlist argv = run_albumlist libc argv
call libc c_albumget argv = run_albumget libc argv
call libc c_albumsearch argv = run_albumsearch libc argv
call libc c_albumsartist argv = run_albumsartist libc argv
call libc c_albumstag argv = run_albumstag libc argv
call libc c_albumsetartist argv = run_albumsetartist libc argv
call libc c_albumsetname argv = run_albumsetname libc argv
call libc c_albumsetyear argv = run_albumsetyear libc argv
call libc c_artistlist argv = run_artistlist libc argv
call libc c_artiststag argv = run_artiststag libc argv
call libc c_artistget argv = run_artistget libc argv
call libc c_artistsearch argv = run_artistsearch libc argv
call libc c_artistsetname argv = run_artistsetname libc argv
call libc c_artistmerge argv = run_artistmerge libc argv
call libc c_artistadd argv = run_artistadd libc argv
call libc c_artistdel argv = run_artistdel libc argv
call libc c_sfilterlist argv = run_sfilterlist libc argv
call libc c_sfilterget argv = run_sfilterget libc argv
call libc c_sfilteradd argv = run_sfilteradd libc argv
call libc c_sfiltersetname argv = run_sfiltersetname libc argv
call libc c_sfiltersetfilter argv = run_sfiltersetfilter libc argv
call libc c_sfilterdel argv = run_sfilterdel libc argv
call libc c_sfilterload argv = run_sfilterload libc argv
call libc c_sfiltersave argv = run_sfiltersave libc argv
