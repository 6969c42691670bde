-- ===== src/Cmd/Run/Tag.antt =====
-- cmd/command.c: the commands on tags.
use dudlc.Shared.{List, some, negsuc, ℤ}
use dudlc.Session.Run.{◌>>=◌, ◌>>◌}
use dudlc.Open.{duc_open}
use dudlc.Command.Tag.{
  tagadd, tagdel, tagget, taglist, tagsartist, tagsetdesc, tagsetname, tracktagadd, tracktagdel,
}
use dudlc.Cmd.Idlist.{Idlist}
use dudlc.Cmd.Console.{Libc, C, dmsg_line}
use dudlc.Cmd.Format.{dfmt_taghead}
use dudlc.Cmd.Dump.{buf_len_queue, dump_tags, show_head, show_tag}
use dudlc.Cmd.Run.{
  Value, arg_int, arg_text, arg_ids, succ_of, unless_minus_one, shown_of, idl_iterate,
}

module _ (libc : Libc) where
  unfoldable pub run_taglist : List Value → C ℤ
  unfolding shown_of dump_tags taglist
  run_taglist argv = shown_of (negsuc 0) (taglist duc_open) (dump_tags libc)

  unfoldable pub run_tagsartist : List Value → C ℤ
  unfolding arg_int shown_of dump_tags tagsartist
  run_tagsartist argv =
      arg_int argv 0 >>= λ id. shown_of (negsuc 0) (tagsartist duc_open id) (dump_tags libc)

  unfoldable pub each_tagget : ℤ → C ℤ
  unfolding shown_of show_tag tagget
  each_tagget id = shown_of (negsuc 0) (tagget duc_open id) (show_tag libc)

  unfoldable pub run_tagget : List Value → C ℤ
  unfolding arg_ids idl_iterate each_tagget dmsg_line dfmt_taghead
  run_tagget argv =
      show_head (some (dfmt_taghead buf_len_queue))
      >> (arg_ids argv 0 >>= λ list. idl_iterate list each_tagget)

  unfoldable pub run_tagadd : List Value → C ℤ
  unfolding arg_text unless_minus_one tagadd
  run_tagadd argv = arg_text argv 0 >>= λ name. unless_minus_one (tagadd duc_open name)

  unfoldable pub run_tagsetname : List Value → C ℤ
  unfolding arg_int arg_text succ_of tagsetname
  run_tagsetname argv =
      arg_int argv 0 >>= λ id. arg_text argv 1 >>= λ name. succ_of (tagsetname duc_open id name)

  unfoldable pub run_tagsetdesc : List Value → C ℤ
  unfolding arg_int arg_text succ_of tagsetdesc
  run_tagsetdesc argv =
      arg_int argv 0 >>= λ id. arg_text argv 1 >>= λ desc. succ_of (tagsetdesc duc_open id desc)

  unfoldable pub each_tagdel : ℤ → C ℤ
  unfolding succ_of tagdel
  each_tagdel id = succ_of (tagdel duc_open id)

  unfoldable pub run_tagdel : List Value → C ℤ
  unfolding arg_ids idl_iterate each_tagdel
  run_tagdel argv = arg_ids argv 0 >>= λ list. idl_iterate list each_tagdel

  unfoldable pub each_tracktagaddtrack : ℤ → ℤ → C ℤ
  unfolding succ_of tracktagadd
  each_tracktagaddtrack trackid id = succ_of (tracktagadd duc_open trackid id)

  unfoldable pub each_tracktagdeltrack : ℤ → ℤ → C ℤ
  unfolding succ_of tracktagdel
  each_tracktagdeltrack trackid id = succ_of (tracktagdel duc_open trackid id)

  unfoldable pub each_tracktagadd : Idlist → ℤ → C ℤ
  unfolding idl_iterate each_tracktagaddtrack
  each_tracktagadd tags id = idl_iterate tags (each_tracktagaddtrack id)

  unfoldable pub run_tracktagadd : List Value → C ℤ
  unfolding arg_ids idl_iterate each_tracktagadd
  run_tracktagadd argv =
      arg_ids argv 0 >>= λ list. arg_ids argv 1 >>= λ tags. idl_iterate list (each_tracktagadd tags)

  unfoldable pub each_tracktagdel : Idlist → ℤ → C ℤ
  unfolding idl_iterate each_tracktagdeltrack
  each_tracktagdel tags id = idl_iterate tags (each_tracktagdeltrack id)

  unfoldable pub run_tracktagdel : List Value → C ℤ
  unfolding arg_ids idl_iterate each_tracktagdel
  run_tracktagdel argv =
      arg_ids argv 0 >>= λ list. arg_ids argv 1 >>= λ tags. idl_iterate list (each_tracktagdel tags)
