-- ===== src/Cmd/Settle/Args.antt =====
-- How the reading of an argument ends.
use dudlc.Shared.{Bytes}
use dudlc.Session.Run.{Ends, ◌>>=◌}
use dudlc.Proto.{M}
use dudlc.Cmd.Console.{Libc, lift}
use dudlc.Cmd.Console.Ends.{Settling, bind-Settling, return-Settling, lift-Settling}
use dudlc.Cmd.Value.{
  val_bool, val_right, val_rgtype, val_uint, val_year, val_user, val_time, val_string, val_name,
}
use dudlc.Cmd.Value.Ends.{Idling, strtoul-Idling, val_idlist-Idling}
use dudlc.Cmd.Value.ListEnds.{
  val_userlist-Idling, val_tag-Idling, val_sfilter-Idling, val_taglist-Idling,
}
use dudlc.Cmd.Value.TrackEnds.{val_track-Idling, val_tracklist-Idling}
use dudlc.Cmd.Run.{Value}
use dudlc.Cmd.Settle.Gain.{val_double-Settling}
use dudlc.Cmd.Table.{Parse}
use dudlc.Cmd.Table.Args.{num_value, ids_value, text_value, name_value, tracks_value, parse_arg}

module _ {A : Type 0} where
  read-Settling :
      {P : A → Type 0} {m : M A} (f : A → Value × Bytes)
      → Idling P m
      → Settling (lift m >>= λ r. dudlc.Session.Run.return (f r))
  read-Settling f h = bind-Settling (lift-Settling h (λ a q k. k.0)) (λ r. return-Settling (f r))

pub parse_arg-Settling :
    (libc : Libc) (parse : Parse) (s : Bytes) → Settling (parse_arg libc parse s)
unfolding parse_arg val_uint val_year val_user val_time
parse_arg-Settling libc Parse.val_string s = return-Settling (text_value (val_string s))
parse_arg-Settling libc Parse.val_name s = return-Settling (name_value (val_name s))
parse_arg-Settling libc Parse.val_idlist s = read-Settling ids_value (val_idlist-Idling s)
parse_arg-Settling libc Parse.val_user s = read-Settling num_value (strtoul-Idling s)
parse_arg-Settling libc Parse.val_userlist s = read-Settling ids_value (val_userlist-Idling s)
parse_arg-Settling libc Parse.val_right s = return-Settling (num_value (val_right s))
parse_arg-Settling libc Parse.val_time s = read-Settling num_value (strtoul-Idling s)
parse_arg-Settling libc Parse.val_bool s = return-Settling (num_value (val_bool s))
parse_arg-Settling libc Parse.val_track s = read-Settling num_value (val_track-Idling s)
parse_arg-Settling libc Parse.val_tracklist s = read-Settling tracks_value (val_tracklist-Idling s)
parse_arg-Settling libc Parse.val_taglist s = read-Settling ids_value (val_taglist-Idling s)
parse_arg-Settling libc Parse.val_tag s = read-Settling num_value (val_tag-Idling s)
parse_arg-Settling libc Parse.val_uint s = read-Settling num_value (strtoul-Idling s)
parse_arg-Settling libc Parse.val_sfilter s = read-Settling num_value (val_sfilter-Idling s)
parse_arg-Settling libc Parse.val_year s = read-Settling num_value (strtoul-Idling s)
parse_arg-Settling libc Parse.val_rgtype s = return-Settling (num_value (val_rgtype s))
parse_arg-Settling libc Parse.val_double s =
    bind-Settling (val_double-Settling libc s) (λ r. return-Settling (num_value r))
