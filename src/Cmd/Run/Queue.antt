-- ===== src/Cmd/Run/Queue.antt =====
-- cmd/command.c: the commands on the queue and the history.
use dudlc.Shared.{List, negsuc, codes, ◌++◌, ℤ}
use dudlc.Session.Run.{◌>>=◌, ◌>>◌}
use dudlc.Open.{duc_open}
use dudlc.Command.History.{history, historytrack}
use dudlc.Command.Queue.{queueadd, queueclear, queuedel, queueget, queuelist, queuesum}
use dudlc.Cmd.Console.{Libc, C, dmsg_line}
use dudlc.Cmd.Format.{dfmt_queuehead, hours}
use dudlc.Cmd.Dump.{buf_len_queue, dump_historys, dump_queues, show_head, show_queue}
use dudlc.Cmd.Run.{
  Value, arg_int, arg_ids, succ_of, unless_minus_one, shown_int, shown_of, idl_iterate,
}

module _ (libc : Libc) where
  unfoldable pub run_queuelist : List Value → C ℤ
  unfolding shown_of dump_queues queuelist
  run_queuelist argv = shown_of (negsuc 0) (queuelist duc_open) (dump_queues libc)

  unfoldable pub each_queueget : ℤ → C ℤ
  unfolding shown_of show_queue queueget
  each_queueget id = shown_of (negsuc 0) (queueget duc_open id) (show_queue libc)

  unfoldable pub run_queueget : List Value → C ℤ
  unfolding arg_ids idl_iterate each_queueget dmsg_line dfmt_queuehead
  run_queueget argv =
      show_head (dfmt_queuehead buf_len_queue)
      >> (arg_ids argv 0 >>= λ list. idl_iterate list each_queueget)

  unfoldable pub each_queueadd : ℤ → C ℤ
  unfolding unless_minus_one queueadd
  each_queueadd id = unless_minus_one (queueadd duc_open id)

  unfoldable pub run_queueadd : List Value → C ℤ
  unfolding arg_ids idl_iterate each_queueadd
  run_queueadd argv = arg_ids argv 0 >>= λ list. idl_iterate list each_queueadd

  unfoldable pub each_queuedel : ℤ → C ℤ
  unfolding succ_of queuedel
  each_queuedel id = succ_of (queuedel duc_open id)

  unfoldable pub run_queuedel : List Value → C ℤ
  unfolding arg_ids idl_iterate each_queuedel
  run_queuedel argv = arg_ids argv 0 >>= λ list. idl_iterate list each_queuedel

  unfoldable pub run_queueclear : List Value → C ℤ
  unfolding succ_of queueclear
  run_queueclear argv = succ_of (queueclear duc_open)

  unfoldable pub run_queuesum : List Value → C ℤ
  unfolding shown_int queuesum
  run_queuesum argv =
      shown_int (queuesum duc_open) (λ n. codes "duration: " ++ hours n ++ codes "\n")

  unfoldable pub run_history : List Value → C ℤ
  unfolding arg_int shown_of dump_historys history
  run_history argv =
      arg_int argv 0 >>= λ n. shown_of (negsuc 0) (history duc_open n) (dump_historys libc)

  unfoldable pub run_historytrack : List Value → C ℤ
  unfolding arg_int shown_of dump_historys historytrack
  run_historytrack argv = arg_int argv 0 >>= λ id.
      arg_int argv 1 >>= λ n. shown_of (negsuc 0) (historytrack duc_open id n) (dump_historys libc)
