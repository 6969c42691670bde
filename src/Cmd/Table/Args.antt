-- ===== src/Cmd/Table/Args.antt =====
-- cmd/command.c: the calls of the functions that read an argument, through `parse`.
use dudlc.Shared.{Option, none, some, ℤ, pos, Bytes}
use dudlc.Session.Run.{◌>>=◌, return}
use dudlc.Cmd.Idlist.{Idlist}
use dudlc.Cmd.Console.{Libc, C, lift}
use dudlc.Cmd.Value.{
  val_bool, val_right, val_rgtype, val_uint, val_year, val_user, val_time, val_string, val_name,
  val_idlist,
}
use dudlc.Cmd.Value.Lists.{
  val_userlist, val_track, val_tracklist, val_tag, val_taglist, val_sfilter,
}
use dudlc.Cmd.Run.{Value, num, text, ids}
use dudlc.Cmd.Run.Gain.{val_double}
use dudlc.Cmd.Table.{Parse}

-- The result as it is kept in `argv`, and `*end`. NULL is 0.
abbrev pub num_value : ℤ × Bytes → Value × Bytes
num_value (n, end) = (num n, end)

abbrev pub ids_value : Idlist × Bytes → Value × Bytes
ids_value (l, end) = (ids l, end)

abbrev pub text_value : Bytes × Bytes → Value × Bytes
text_value (t, end) = (text t, end)

abbrev pub name_value : Option Bytes × Bytes → Value × Bytes
name_value (none, end) = (num (pos 0), end)
name_value (some t, end) = (text t, end)

abbrev pub tracks_value : Option Idlist × Bytes → Value × Bytes
tracks_value (none, end) = (num (pos 0), end)
tracks_value (some l, end) = (ids l, end)

unfoldable pub parse_arg : Libc → Parse → Bytes → C (Value × Bytes)
unfolding val_string val_name val_idlist val_user val_userlist val_right val_time val_bool val_track
    val_tracklist val_taglist val_tag val_uint val_sfilter val_year val_rgtype val_double
parse_arg libc Parse.val_string s = return (text_value (val_string s))
parse_arg libc Parse.val_name s = return (name_value (val_name s))
parse_arg libc Parse.val_idlist s = lift (val_idlist s) >>= λ r. return (ids_value r)
parse_arg libc Parse.val_user s = lift (val_user s) >>= λ r. return (num_value r)
parse_arg libc Parse.val_userlist s = lift (val_userlist s) >>= λ r. return (ids_value r)
parse_arg libc Parse.val_right s = return (num_value (val_right s))
parse_arg libc Parse.val_time s = lift (val_time s) >>= λ r. return (num_value r)
parse_arg libc Parse.val_bool s = return (num_value (val_bool s))
parse_arg libc Parse.val_track s = lift (val_track s) >>= λ r. return (num_value r)
parse_arg libc Parse.val_tracklist s = lift (val_tracklist s) >>= λ r. return (tracks_value r)
parse_arg libc Parse.val_taglist s = lift (val_taglist s) >>= λ r. return (ids_value r)
parse_arg libc Parse.val_tag s = lift (val_tag s) >>= λ r. return (num_value r)
parse_arg libc Parse.val_uint s = lift (val_uint s) >>= λ r. return (num_value r)
parse_arg libc Parse.val_sfilter s = lift (val_sfilter s) >>= λ r. return (num_value r)
parse_arg libc Parse.val_year s = lift (val_year s) >>= λ r. return (num_value r)
parse_arg libc Parse.val_rgtype s = return (num_value (val_rgtype s))
parse_arg libc Parse.val_double s = val_double libc s >>= λ r. return (num_value r)
