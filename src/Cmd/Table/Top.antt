-- ===== src/Cmd/Table/Top.antt =====
-- cmd/command.c: the table of the commands. The entry that ends it is the end of the list.
use dudlc.Shared.{Option, none, some, List, [], ◌∷◌, Bytes, codes}
use dudlc.Cmd.Table.{
  Runner, Arg, Command, c_open, c_help, c_helpcmd, c_raw, c_clientlist, c_clientclose,
  c_clientcloseuser, c_userget, c_userlist, c_usersetpass, c_usersetright, c_useradd, c_userdel,
  c_play, c_stop, c_next, c_prev, c_pause, c_status, c_info, c_gap, c_gapset, c_random, c_randomset,
  c_elapsed, c_jump, c_cut, c_cutset, c_replaygain, c_replaygainset, c_rgpreamp, c_rgpreampset,
  c_trackcount, c_trackget, c_tracksearchf, c_tracksetartist, c_tracksetname, c_filter, c_filterset,
  c_filterstat, c_filtertop, c_queuelist, c_queueget, c_queueadd, c_queuedel, c_queueclear,
  c_queuesum, c_sleep, c_sleepset, c_history, c_historytrack, c_taglist, c_tagsartist, c_tagget,
  c_tagadd, c_tagsetname, c_tagsetdesc, c_tagdel, c_tracktaglist, c_tracktagadd, c_tracktagdel,
  c_albumlist, c_albumget, c_albumsearch, c_albumsartist, c_albumstag, c_albumsetartist,
  c_albumsetname, c_albumsetyear, c_artistlist, c_artiststag, c_artistget, c_artistsearch,
  c_artistsetname, c_artistmerge, c_artistadd, c_artistdel, c_sfilterlist, c_sfilterget,
  c_sfilteradd, c_sfiltersetname, c_sfiltersetfilter, c_sfilterdel, c_sfilterload, c_sfiltersave,
  args_albumartist, args_albumname, args_albumyear, args_artist, args_artistmerge, args_artistname,
  args_bool, args_cmd, args_decibel, args_idlist, args_name, args_none, args_onum, args_raw,
  args_rgtype, args_sfilter, args_sfilterfilter, args_sfiltername, args_string, args_tag,
  args_tagdesc, args_taglist, args_tagname, args_time, args_trackartist, args_tracklist,
  args_trackname, args_tracknum, args_tracktaglist, args_uidpass, args_uidright, args_userlist,
}

abbrev entry : Bytes → Option Bytes → Runner → List Arg → Bytes → Command
entry name alias run args help = record {
  name = name;
  alias = alias;
  run = run;
  args = args;
  help = help;
}

unfoldable pub cmds_top : List Command
cmds_top =
    entry (codes "open") none c_open args_none (codes "open connection to server")
    ∷ entry (codes "help") none c_help args_none (codes "show list of commands")
    ∷ entry (codes "helpcmd") none c_helpcmd args_cmd (codes "show help for one command")
    ∷ entry (codes "raw") none c_raw args_raw (codes "send raw commando to server")
    ∷ entry (codes "clientlist") none c_clientlist args_none (codes "list all connected clients")
    ∷ entry (codes "clientclose") none c_clientclose args_idlist (codes "disconnect clients")
    ∷ entry (codes "clientcloseuser") none c_clientcloseuser args_userlist
        (codes "disconnect clients owned by certain users")
    ∷ entry (codes "userget") none c_userget args_userlist (codes "show user details")
    ∷ entry (codes "userlist") none c_userlist args_none (codes "list all users")
    ∷ entry (codes "usersetpass") none c_usersetpass args_uidpass (codes "set user's password")
    ∷ entry (codes "usersetright") none c_usersetright args_uidright
        (codes "set user's permissions")
    ∷ entry (codes "useradd") none c_useradd args_name (codes "add user")
    ∷ entry (codes "userdel") none c_userdel args_userlist (codes "delete user")
    ∷ entry (codes "play") (some (codes "r")) c_play args_none (codes "start/resume playing")
    ∷ entry (codes "stop") (some (codes "s")) c_stop args_none (codes "stop playing")
    ∷ entry (codes "next") (some (codes "n")) c_next args_none (codes "play next track")
    ∷ entry (codes "prev") none c_prev args_none (codes "pley previous track")
    ∷ entry (codes "pause") (some (codes "p")) c_pause args_none (codes "pause playing")
    ∷ entry (codes "status") none c_status args_none (codes "show current play-status")
    ∷ entry (codes "info") none c_info args_none
        (codes "show more detailed infoe abour currently playing track")
    ∷ entry (codes "gap") none c_gap args_none (codes "show the delay between tracks (sec)")
    ∷ entry (codes "gapset") none c_gapset args_time (codes "set the delay between tracks (sec)")
    ∷ entry (codes "random") none c_random args_none
        (codes "is random playback on? (when the queue ist empty)")
    ∷ entry (codes "randomset") none c_randomset args_bool (codes "set random playback status")
    ∷ entry (codes "elapsed") none c_elapsed args_none
        (codes "show play progress for current track")
    ∷ entry (codes "jump") (some (codes "j")) c_jump args_time
        (codes "jump to specified position in current track")
    ∷ entry (codes "cut") none c_cut args_none
        (codes "get automatic silence suppression/cutting status")
    ∷ entry (codes "cutset") none c_cutset args_bool
        (codes "en-/disable automatic silence suppression/cutting")
    ∷ entry (codes "replaygain") none c_replaygain args_none (codes "get replaygain mode")
    ∷ entry (codes "replaygainset") none c_replaygainset args_rgtype
        (codes "set replaygain mode (0=disable)")
    ∷ entry (codes "rgpreamp") none c_rgpreamp args_none
        (codes "get replaygain pre-amplification (dB)")
    ∷ entry (codes "rgpreampset") none c_rgpreampset args_decibel
        (codes "set replaygain pre-amplification (dB)")
    ∷ entry (codes "trackcount") none c_trackcount args_none
        (codes "show number of available tracks")
    ∷ entry (codes "trackget") none c_trackget args_tracklist (codes "show track details")
    ∷ entry (codes "tracksearchf") (some (codes "f")) c_tracksearchf args_string
        (codes "search for titles matching filter")
    ∷ entry (codes "tracksetartist") none c_tracksetartist args_trackartist (codes "change artist")
    ∷ entry (codes "tracksetname") none c_tracksetname args_trackname (codes "change track name")
    ∷ entry (codes "filter") none c_filter args_none (codes "show filter for random that's in use")
    ∷ entry (codes "filterset") none c_filterset args_string (codes "set filter for random filter")
    ∷ entry (codes "filterstat") none c_filterstat args_none (codes "show filter statistics")
    ∷ entry (codes "filtertop") none c_filtertop args_onum
        (codes "show tracks with highest probability")
    ∷ entry (codes "queuelist") (some (codes "ql")) c_queuelist args_none
        (codes "show all queued titles")
    ∷ entry (codes "queueget") none c_queueget args_idlist (codes "show queue details")
    ∷ entry (codes "queueadd") (some (codes "qa")) c_queueadd args_tracklist
        (codes "add titles to queue")
    ∷ entry (codes "queuedel") (some (codes "qd")) c_queuedel args_idlist
        (codes "remove titles from queue")
    ∷ entry (codes "queueclear") (some (codes "qc")) c_queueclear args_none
        (codes "remove all titles from queue")
    ∷ entry (codes "queuesum") none c_queuesum args_none
        (codes "show total playtime of queued tracks")
    ∷ entry (codes "sleep") none c_sleep args_none
        (codes "get remaining time until scheduled pause")
    ∷ entry (codes "sleepset") none c_sleepset args_time
        (codes "schedule pause after specified time")
    ∷ entry (codes "history") none c_history args_onum (codes "show last played titles")
    ∷ entry (codes "historytrack") none c_historytrack args_tracknum (codes "history for titles")
    ∷ entry (codes "taglist") none c_taglist args_none (codes "show all tags")
    ∷ entry (codes "tagsartist") none c_tagsartist args_artist
        (codes "show tags somwhow linked to an artist")
    ∷ entry (codes "tagget") none c_tagget args_taglist (codes "show tag details")
    ∷ entry (codes "tagadd") none c_tagadd args_name (codes "add tag")
    ∷ entry (codes "tagsetname") none c_tagsetname args_tagname (codes "change tag name")
    ∷ entry (codes "tagsetdesc") none c_tagsetdesc args_tagdesc (codes "change tag description")
    ∷ entry (codes "tagdel") none c_tagdel args_taglist (codes "delete tag")
    ∷ entry (codes "tracktaglist") (some (codes "tl")) c_tracktaglist args_tracklist
        (codes "show tags set for titles")
    ∷ entry (codes "tracktagadd") (some (codes "ta")) c_tracktagadd args_tracktaglist
        (codes "add tags to titles")
    ∷ entry (codes "tracktagdel") (some (codes "td")) c_tracktagdel args_tracktaglist
        (codes "remove tags from titles")
    ∷ entry (codes "albumlist") none c_albumlist args_none (codes "show all albums")
    ∷ entry (codes "albumget") none c_albumget args_idlist (codes "show album details")
    ∷ entry (codes "albumsearch") none c_albumsearch args_string
        (codes "search albums matching substring")
    ∷ entry (codes "albumsartist") none c_albumsartist args_artist (codes "search albums by artist")
    ∷ entry (codes "albumstag") none c_albumstag args_tag
        (codes "search albums by tags on it's tracks")
    ∷ entry (codes "albumsetartist") none c_albumsetartist args_albumartist (codes "change artist")
    ∷ entry (codes "albumsetname") none c_albumsetname args_albumname (codes "change album name")
    ∷ entry (codes "albumsetyear") none c_albumsetyear args_albumyear (codes "change album year")
    ∷ entry (codes "artistlist") none c_artistlist args_none (codes "show all artists")
    ∷ entry (codes "artiststag") none c_artiststag args_tag
        (codes "search artists by tags on it's tracks")
    ∷ entry (codes "artistget") none c_artistget args_idlist (codes "show artist details")
    ∷ entry (codes "artistsearch") none c_artistsearch args_string
        (codes "search artists matching substring")
    ∷ entry (codes "artistsetname") none c_artistsetname args_artistname
        (codes "change artist name")
    ∷ entry (codes "artistmerge") none c_artistmerge args_artistmerge (codes "merge two artists")
    ∷ entry (codes "artistadd") none c_artistadd args_string (codes "add artist")
    ∷ entry (codes "artistdel") none c_artistdel args_artist (codes "delete artists")
    ∷ entry (codes "sfilterlist") none c_sfilterlist args_none (codes "show all saved filters")
    ∷ entry (codes "sfilterget") none c_sfilterget args_idlist (codes "show saved filter details")
    ∷ entry (codes "sfilteradd") none c_sfilteradd args_name
        (codes "add new slot for saving filters")
    ∷ entry (codes "sfiltersetname") none c_sfiltersetname args_sfiltername
        (codes "rename saved filter")
    ∷ entry (codes "sfiltersetfilter") none c_sfiltersetfilter args_sfilterfilter
        (codes "save filter to slot")
    ∷ entry (codes "sfilterdel") none c_sfilterdel args_sfilter (codes "delete filter slot")
    ∷ entry (codes "sfilterload") (some (codes "load")) c_sfilterload args_sfilter
        (codes "load and set ilter from slot")
    ∷ entry (codes "sfiltersave") (some (codes "save")) c_sfiltersave args_sfilter
        (codes "save current filter to slot")
    ∷ []
