-- ===== src/Cmd/Run/Sfilter.antt =====
-- cmd/command.c: the commands on saved filters.
use dudlc.Shared.{List, some, negsuc, ℤ}
use dudlc.Session.Run.{◌>>=◌, ◌>>◌}
use dudlc.Open.{duc_open}
use dudlc.Command.Sfilter.{
  sfilteradd, sfilterdel, sfilterget, sfilterlist, sfiltersetfilter, sfiltersetname,
}
use dudlc.Cmd.Console.{Libc, C, dmsg_line}
use dudlc.Cmd.Format.{dfmt_sfilterhead}
use dudlc.Cmd.Dump.{buf_len_queue, dump_sfilters, show_head, show_long_sfilter}
use dudlc.Cmd.Run.{
  Value, arg_int, arg_text, arg_ids, succ_of, unless_minus_one, shown_of, idl_iterate,
}

module _ (libc : Libc) where
  unfoldable pub run_sfilterlist : List Value → C ℤ
  unfolding shown_of dump_sfilters sfilterlist
  run_sfilterlist argv = shown_of (negsuc 0) (sfilterlist duc_open) (dump_sfilters libc)

  unfoldable pub each_sfilterget : ℤ → C ℤ
  unfolding shown_of show_long_sfilter sfilterget
  each_sfilterget id = shown_of (negsuc 0) (sfilterget duc_open id) (show_long_sfilter libc)

  unfoldable pub run_sfilterget : List Value → C ℤ
  unfolding arg_ids idl_iterate each_sfilterget dmsg_line dfmt_sfilterhead
  run_sfilterget argv =
      show_head (some (dfmt_sfilterhead buf_len_queue))
      >> (arg_ids argv 0 >>= λ list. idl_iterate list each_sfilterget)

  unfoldable pub run_sfilteradd : List Value → C ℤ
  unfolding arg_text unless_minus_one sfilteradd
  run_sfilteradd argv = arg_text argv 0 >>= λ name. unless_minus_one (sfilteradd duc_open name)

  unfoldable pub run_sfiltersetname : List Value → C ℤ
  unfolding arg_int arg_text succ_of sfiltersetname
  run_sfiltersetname argv =
      arg_int argv 0 >>= λ id. arg_text argv 1 >>= λ name. succ_of (sfiltersetname duc_open id name)

  unfoldable pub run_sfiltersetfilter : List Value → C ℤ
  unfolding arg_int arg_text succ_of sfiltersetfilter
  run_sfiltersetfilter argv =
      arg_int argv 0 >>= λ id. arg_text argv 1 >>= λ flt. succ_of (sfiltersetfilter duc_open id flt)

  unfoldable pub run_sfilterdel : List Value → C ℤ
  unfolding arg_int succ_of sfilterdel
  run_sfilterdel argv = arg_int argv 0 >>= λ id. succ_of (sfilterdel duc_open id)
