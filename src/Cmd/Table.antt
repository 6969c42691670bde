-- ===== src/Cmd/Table.antt =====
-- cmd/command.c: the tables of commands and of their arguments. A function pointer of C is a
-- constructor that is named for the function. `free` is left out: freeing has no other effect.
pub mod Top
pub mod Args
pub mod Call
pub mod Names
use dudlc.Shared.{Bool, true, false, Option, none, some, List, [], ◌∷◌, Bytes, codes}

-- The functions that read an argument
pub data Parse : Type 0 where
  val_string val_name val_idlist val_user val_userlist val_right val_time val_bool : Parse
  val_track val_tracklist val_taglist val_tag val_uint val_sfilter val_year val_rgtype : Parse
  val_double : Parse

-- The generators of completions
pub data Generator : Type 0 where
  lst_cmd lst_rcmd : Generator

-- The functions that run a command
pub data Runner : Type 0 where
  c_open c_help c_helpcmd c_raw c_clientlist c_clientclose c_clientcloseuser c_userget : Runner
  c_userlist c_usersetpass c_usersetright c_useradd c_userdel c_play c_stop c_next c_prev : Runner
  c_pause c_status c_info c_gap c_gapset c_random c_randomset c_elapsed c_jump c_cut : Runner
  c_cutset c_replaygain c_replaygainset c_rgpreamp c_rgpreampset c_trackcount c_trackget : Runner
  c_tracksearchf c_tracksetartist c_tracksetname c_filter c_filterset c_filterstat : Runner
  c_filtertop c_queuelist c_queueget c_queueadd c_queuedel c_queueclear c_queuesum : Runner
  c_sleep c_sleepset c_history c_historytrack c_taglist c_tagsartist c_tagget c_tagadd : Runner
  c_tagsetname c_tagsetdesc c_tagdel c_tracktaglist c_tracktagadd c_tracktagdel : Runner
  c_albumlist c_albumget c_albumsearch c_albumsartist c_albumstag c_albumsetartist : Runner
  c_albumsetname c_albumsetyear c_artistlist c_artiststag c_artistget c_artistsearch : Runner
  c_artistsetname c_artistmerge c_artistadd c_artistdel c_sfilterlist c_sfilterget : Runner
  c_sfilteradd c_sfiltersetname c_sfiltersetfilter c_sfilterdel c_sfilterload : Runner
  c_sfiltersave : Runner

-- `t_cmd_arg`
pub record Arg : Type 0 where
  pub name : Bytes
  pub opt : Bool
  pub parse : Parse
  pub genc : Option Generator

-- `t_cmd`
pub record Command : Type 0 where
  pub name : Bytes
  pub alias : Option Bytes
  pub run : Runner
  pub args : List Arg
  pub help : Bytes

abbrev plain : Bytes → Parse → Arg
plain name parse = record { name = name; opt = false; parse = parse; genc = none }

abbrev arg_rcmd : Arg
arg_rcmd = record { name = codes "rcmd"; opt = false; parse = val_string; genc = some lst_rcmd }

abbrev arg_name : Arg
arg_name = plain (codes "name") val_name

abbrev arg_cmd : Arg
arg_cmd = record { name = codes "cmd"; opt = false; parse = val_name; genc = some lst_cmd }

abbrev arg_string : Arg
arg_string = plain (codes "string") val_string

abbrev arg_idlist : Arg
arg_idlist = plain (codes "idlist") val_idlist

abbrev arg_user : Arg
arg_user = plain (codes "userid") val_user

abbrev arg_userlist : Arg
arg_userlist = plain (codes "useridlist") val_userlist

abbrev arg_right : Arg
arg_right = plain (codes "right") val_right

abbrev arg_time : Arg
arg_time = plain (codes "seconds") val_time

abbrev arg_bool : Arg
arg_bool = plain (codes "bool") val_bool

abbrev arg_track : Arg
arg_track = plain (codes "trackid") val_track

abbrev arg_tracklist : Arg
arg_tracklist = plain (codes "trackidlist") val_tracklist

abbrev arg_taglist : Arg
arg_taglist = plain (codes "taglist") val_taglist

abbrev arg_tag : Arg
arg_tag = plain (codes "tag") val_tag

abbrev arg_onum : Arg
arg_onum = record { name = codes "num"; opt = true; parse = val_uint; genc = none }

abbrev arg_artist : Arg
arg_artist = plain (codes "artistid") val_uint

abbrev arg_album : Arg
arg_album = plain (codes "albumid") val_uint

abbrev arg_sfilter : Arg
arg_sfilter = plain (codes "sfilter") val_sfilter

abbrev arg_year : Arg
arg_year = plain (codes "year") val_year

abbrev arg_rgtype : Arg
arg_rgtype = plain (codes "rgtype") val_rgtype

abbrev arg_decibel : Arg
arg_decibel = plain (codes "decibel") val_double

abbrev pub args_none : List Arg
args_none = []

abbrev pub args_time : List Arg
args_time = arg_time ∷ []

abbrev pub args_idlist : List Arg
args_idlist = arg_idlist ∷ []

abbrev pub args_userlist : List Arg
args_userlist = arg_userlist ∷ []

abbrev pub args_name : List Arg
args_name = arg_name ∷ []

abbrev pub args_cmd : List Arg
args_cmd = arg_cmd ∷ []

abbrev pub args_bool : List Arg
args_bool = arg_bool ∷ []

abbrev pub args_track : List Arg
args_track = arg_track ∷ []

abbrev pub args_tracklist : List Arg
args_tracklist = arg_tracklist ∷ []

abbrev pub args_trackname : List Arg
args_trackname = arg_track ∷ arg_string ∷ []

abbrev pub args_trackartist : List Arg
args_trackartist = arg_tracklist ∷ arg_artist ∷ []

abbrev pub args_string : List Arg
args_string = arg_string ∷ []

abbrev pub args_onum : List Arg
args_onum = arg_onum ∷ []

abbrev pub args_tag : List Arg
args_tag = arg_tag ∷ []

abbrev pub args_taglist : List Arg
args_taglist = arg_taglist ∷ []

abbrev pub args_sfilter : List Arg
args_sfilter = arg_sfilter ∷ []

abbrev pub args_artist : List Arg
args_artist = arg_artist ∷ []

abbrev pub args_raw : List Arg
args_raw = arg_rcmd ∷ []

abbrev pub args_uidpass : List Arg
args_uidpass = arg_user ∷ arg_string ∷ []

abbrev pub args_uidright : List Arg
args_uidright = arg_user ∷ arg_right ∷ []

abbrev pub args_tracknum : List Arg
args_tracknum = arg_track ∷ arg_onum ∷ []

abbrev pub args_tagname : List Arg
args_tagname = arg_tag ∷ arg_name ∷ []

abbrev pub args_tagdesc : List Arg
args_tagdesc = arg_tag ∷ arg_string ∷ []

abbrev pub args_tracktaglist : List Arg
args_tracktaglist = arg_tracklist ∷ arg_taglist ∷ []

abbrev pub args_albumartist : List Arg
args_albumartist = arg_album ∷ arg_artist ∷ []

abbrev pub args_albumname : List Arg
args_albumname = arg_album ∷ arg_string ∷ []

abbrev pub args_albumyear : List Arg
args_albumyear = arg_album ∷ arg_year ∷ []

abbrev pub args_artistname : List Arg
args_artistname = arg_artist ∷ arg_string ∷ []

abbrev pub args_artistmerge : List Arg
args_artistmerge = arg_artist ∷ arg_artist ∷ []

abbrev pub args_sfiltername : List Arg
args_sfiltername = arg_sfilter ∷ arg_name ∷ []

abbrev pub args_sfilterfilter : List Arg
args_sfilterfilter = arg_sfilter ∷ arg_string ∷ []

abbrev pub args_rgtype : List Arg
args_rgtype = arg_rgtype ∷ []

abbrev pub args_decibel : List Arg
args_decibel = arg_decibel ∷ []
