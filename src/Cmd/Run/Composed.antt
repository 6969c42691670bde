-- ===== src/Cmd/Run/Composed.antt =====
-- cmd/command.c: the commands that make several requests, and `filter`.
use dudlc.Shared.{
  Option, none, some, List, [], ◌∷◌, codes, ◌++◌, if◌then◌else◌, ltb, ℤ, pos, negsuc, Bytes, length,
}
use dudlc.Row.{Track, Tag}
use dudlc.Session.Run.{text_buffer, ◌>>=◌, ◌>>◌, return, fail}
use dudlc.Iterate.{Rows, visited}
use dudlc.Open.{duc_open}
use dudlc.Command.Player.{curtrack}
use dudlc.Command.History.{historytrack}
use dudlc.Command.Random.{filter, filterset}
use dudlc.Command.Sfilter.{sfilterget, sfiltersetfilter}
use dudlc.Command.Tag.{tracktaglist}
use dudlc.Command.Track.{trackget}
use dudlc.Cmd.Console.{Libc, C, lift, dmsg_msg}
use dudlc.Cmd.Dump.{dump_track, dump_historys, dump_tags}
use dudlc.Cmd.Format.{dfmt_trackid}
use dudlc.Cmd.Run.{Value, arg_int, arg_ids, code_of, idl_iterate}

-- A row or a text that is needed to go on: `return -1` without it.
unfoldable pub needed : {A : Type 0} → Option A → (A → C ℤ) → C ℤ
needed none f = return (negsuc 0)
needed (some a) f = f a

-- The names behind each other, each but the first behind a comma
unfoldable pub tag_names : List Tag → Bytes
tag_names [] = []
tag_names (t ∷ []) = t.name
tag_names (t ∷ u ∷ ts) = t.name ++ codes "," ++ tag_names (u ∷ ts)

-- `buf[4096]` of i_tracktaglist
unfoldable pub show_tags : Bytes → C ℤ
unfolding dmsg_msg
show_tags buf =
    if ltb (length buf) 4096
    then dmsg_msg (buf ++ codes "\n") >> return (pos 0)
    else fail text_buffer

module _ (libc : Libc) where
  unfoldable pub info_tags : Track → Rows Tag → C ℤ
  unfolding dump_tags dmsg_msg
  info_tags t tit = dmsg_msg (codes "\ntags:\n") >> dump_tags libc tit >> return (pos 0)

  unfoldable pub run_info : List Value → C ℤ
  unfolding needed dump_track dump_historys curtrack historytrack tracktaglist info_tags dmsg_msg
  run_info argv = lift (curtrack duc_open) >>= λ r. needed r (λ t.
      dmsg_msg (codes "current track:\n")
      >> dump_track libc t
      >> (lift (historytrack duc_open t.id (pos 10)) >>= λ h. needed h (λ hit.
          dmsg_msg (codes "\nhistory:\n")
          >> dump_historys libc hit
          >> (lift (tracktaglist duc_open t.id) >>= λ g. needed g (info_tags t)))))

  unfoldable pub run_filter : List Value → C ℤ
  unfolding needed filter dmsg_msg
  run_filter argv = lift (filter duc_open) >>= λ r.
      needed r (λ flt. dmsg_msg (codes "current filter: " ++ flt ++ codes "\n") >> return (pos 0))

  unfoldable pub each_tracktaglist : ℤ → C ℤ
  unfolding needed trackget tracktaglist dfmt_trackid tag_names show_tags visited
  each_tracktaglist id = lift (trackget duc_open id) >>= λ r. needed r (λ tr.
      lift (tracktaglist duc_open id) >>= λ g. needed g (λ it.
        show_tags (dfmt_trackid tr.album.id tr.albumnr ++ codes ": " ++ tag_names (visited it))))

  unfoldable pub run_tracktaglist : List Value → C ℤ
  unfolding arg_ids idl_iterate each_tracktaglist
  run_tracktaglist argv = arg_ids argv 0 >>= λ list. idl_iterate list each_tracktaglist

  unfoldable pub run_sfilterload : List Value → C ℤ
  unfolding arg_int needed sfilterget filterset
  run_sfilterload argv = arg_int argv 0 >>= λ id. lift (sfilterget duc_open id) >>= λ r.
      needed r (λ filt. lift (filterset duc_open filt.filter) >>= λ good. return (code_of good))

  unfoldable pub run_sfiltersave : List Value → C ℤ
  unfolding arg_int needed filter sfiltersetfilter
  run_sfiltersave argv = arg_int argv 0 >>= λ id. lift (filter duc_open) >>= λ r.
      needed r (λ flt. lift (sfiltersetfilter duc_open id flt) >>= λ good. return (code_of good))
