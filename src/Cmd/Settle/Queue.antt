-- ===== src/Cmd/Settle/Queue.antt =====
-- How the commands on the queue and the history end.
use dudlc.Shared.{List, negsuc, codes, ℤ, ◌++◌}
use dudlc.Cstring.Decimal.{print_int}
use dudlc.Row.{history_parse, queue_parse}
use dudlc.Command.History.{history, historytrack}
use dudlc.Command.Queue.{queueadd, queueclear, queuedel, queueget, queuelist, queuesum}
use dudlc.Cmd.Console.{Libc}
use dudlc.Cmd.Format.{dfmt_queuehead, hours}
use dudlc.Cmd.Dump.{buf_len_queue}
use dudlc.Cmd.Console.Ends.{Settling, bind-Settling}
use dudlc.Cmd.Settle.Dump.{
  dump_historys-Settling, dump_queues-Settling, show_head-Settling, show_queue-Settling,
}
use dudlc.Cmd.Settle.{
  arg_int-Settling, arg_ids-Settling, succ_of-Settling, unless_minus_one-Settling,
  shown_int-Settling, rows-Settling, row-Settling, idl_iterate-Settling,
}
use dudlc.Cmd.Run.{Value}
use dudlc.Cmd.Run.Queue.{
  run_queuelist, each_queueget, run_queueget, each_queueadd, run_queueadd, each_queuedel,
  run_queuedel, run_queueclear, run_queuesum, run_history, run_historytrack,
}

pub run_queuelist-Settling : (libc : Libc) (argv : List Value) → Settling (run_queuelist libc argv)
unfolding run_queuelist queuelist
run_queuelist-Settling libc argv =
    rows-Settling (negsuc 0) queue_parse (codes "queuelist") (dump_queues-Settling libc)

pub each_queueget-Settling : (libc : Libc) (id : ℤ) → Settling (each_queueget libc id)
unfolding each_queueget queueget
each_queueget-Settling libc id =
    row-Settling (negsuc 0) queue_parse (codes "queueget " ++ print_int id)
      (show_queue-Settling libc)

pub run_queueget-Settling : (libc : Libc) (argv : List Value) → Settling (run_queueget libc argv)
unfolding run_queueget
run_queueget-Settling libc argv =
    bind-Settling (show_head-Settling (dfmt_queuehead buf_len_queue)) (λ _.
      bind-Settling (arg_ids-Settling argv 0)
        (λ list. idl_iterate-Settling list (each_queueget-Settling libc)))

pub each_queueadd-Settling : (libc : Libc) (id : ℤ) → Settling (each_queueadd libc id)
unfolding each_queueadd queueadd
each_queueadd-Settling libc id = unless_minus_one-Settling (codes "queueadd " ++ print_int id)

pub run_queueadd-Settling : (libc : Libc) (argv : List Value) → Settling (run_queueadd libc argv)
unfolding run_queueadd
run_queueadd-Settling libc argv =
    bind-Settling (arg_ids-Settling argv 0)
      (λ list. idl_iterate-Settling list (each_queueadd-Settling libc))

pub each_queuedel-Settling : (libc : Libc) (id : ℤ) → Settling (each_queuedel libc id)
unfolding each_queuedel queuedel
each_queuedel-Settling libc id = succ_of-Settling (codes "queuedel " ++ print_int id)

pub run_queuedel-Settling : (libc : Libc) (argv : List Value) → Settling (run_queuedel libc argv)
unfolding run_queuedel
run_queuedel-Settling libc argv =
    bind-Settling (arg_ids-Settling argv 0)
      (λ list. idl_iterate-Settling list (each_queuedel-Settling libc))

pub run_queueclear-Settling :
    (libc : Libc) (argv : List Value) → Settling (run_queueclear libc argv)
unfolding run_queueclear queueclear
run_queueclear-Settling libc argv = succ_of-Settling (codes "queueclear")

pub run_queuesum-Settling : (libc : Libc) (argv : List Value) → Settling (run_queuesum libc argv)
unfolding run_queuesum queuesum
run_queuesum-Settling libc argv =
    shown_int-Settling (codes "queuesum") (λ n. codes "duration: " ++ hours n ++ codes "\n")

pub run_history-Settling : (libc : Libc) (argv : List Value) → Settling (run_history libc argv)
unfolding run_history history
run_history-Settling libc argv = bind-Settling (arg_int-Settling argv 0) (λ n.
    rows-Settling (negsuc 0) history_parse (codes "history " ++ print_int n)
      (dump_historys-Settling libc))

pub run_historytrack-Settling :
    (libc : Libc) (argv : List Value) → Settling (run_historytrack libc argv)
unfolding run_historytrack historytrack
run_historytrack-Settling libc argv = bind-Settling (arg_int-Settling argv 0) (λ id.
    bind-Settling (arg_int-Settling argv 1) (λ n.
      rows-Settling (negsuc 0) history_parse
        (codes "historytrack " ++ print_int id ++ codes " " ++ print_int n)
        (dump_historys-Settling libc)))
