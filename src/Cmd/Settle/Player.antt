-- ===== src/Cmd/Settle/Player.antt =====
-- How the commands on the player end.
use dudlc.Shared.{List, codes, ◌++◌, if◌then◌else◌}
use dudlc.Cstring.Decimal.{print_int}
use dudlc.Command.Unsigned.{print_uint}
use dudlc.Command.Player.{
  cut, cutset, elapsed, gap, gapset, jump, next, pause, play, prev, random, randomset, replaygain,
  replaygainset, stop,
}
use dudlc.Command.Sleep.{sleep, sleepset}
use dudlc.Cmd.Console.{Libc}
use dudlc.Cmd.Format.{hours}
use dudlc.Cmd.Console.Ends.{Settling, bind-Settling}
use dudlc.Cmd.Settle.{arg_int-Settling, succ_of-Settling, int-Settling, shown_int-Settling}
use dudlc.Cmd.Run.{Value, is_zero}
use dudlc.Cmd.Run.Player.{
  run_play, run_stop, run_next, run_prev, run_pause, run_gap, run_gapset, run_random, run_randomset,
  run_elapsed, run_jump, run_cut, run_cutset, run_replaygain, run_replaygainset, run_sleep,
  run_sleepset,
}

pub run_play-Settling : (libc : Libc) (argv : List Value) → Settling (run_play libc argv)
unfolding run_play play
run_play-Settling libc argv = succ_of-Settling (codes "play")

pub run_stop-Settling : (libc : Libc) (argv : List Value) → Settling (run_stop libc argv)
unfolding run_stop stop
run_stop-Settling libc argv = succ_of-Settling (codes "stop")

pub run_next-Settling : (libc : Libc) (argv : List Value) → Settling (run_next libc argv)
unfolding run_next next
run_next-Settling libc argv = succ_of-Settling (codes "next")

pub run_prev-Settling : (libc : Libc) (argv : List Value) → Settling (run_prev libc argv)
unfolding run_prev prev
run_prev-Settling libc argv = succ_of-Settling (codes "prev")

pub run_pause-Settling : (libc : Libc) (argv : List Value) → Settling (run_pause libc argv)
unfolding run_pause pause
run_pause-Settling libc argv = succ_of-Settling (codes "pause")

pub run_gap-Settling : (libc : Libc) (argv : List Value) → Settling (run_gap libc argv)
unfolding run_gap gap
run_gap-Settling libc argv =
    shown_int-Settling (codes "gap")
      (λ n. codes "gap between tracks: " ++ print_int n ++ codes " sec\n")

pub run_gapset-Settling : (libc : Libc) (argv : List Value) → Settling (run_gapset libc argv)
unfolding run_gapset gapset
run_gapset-Settling libc argv =
    bind-Settling (arg_int-Settling argv 0)
      (λ delay. int-Settling (codes "gapset " ++ print_uint delay))

pub run_random-Settling : (libc : Libc) (argv : List Value) → Settling (run_random libc argv)
unfolding run_random random
run_random-Settling libc argv = shown_int-Settling (codes "random") (λ n.
    codes "random play (when queue is empty) is "
    ++ (if is_zero n then codes "off\n" else codes "on\n"))

pub run_randomset-Settling : (libc : Libc) (argv : List Value) → Settling (run_randomset libc argv)
unfolding run_randomset randomset
run_randomset-Settling libc argv =
    bind-Settling (arg_int-Settling argv 0)
      (λ rnd. succ_of-Settling (codes "randomset " ++ print_int rnd))

pub run_elapsed-Settling : (libc : Libc) (argv : List Value) → Settling (run_elapsed libc argv)
unfolding run_elapsed elapsed
run_elapsed-Settling libc argv =
    shown_int-Settling (codes "elapsed") (λ n. codes "elapsed: " ++ hours n ++ codes "\n")

pub run_jump-Settling : (libc : Libc) (argv : List Value) → Settling (run_jump libc argv)
unfolding run_jump jump
run_jump-Settling libc argv =
    bind-Settling (arg_int-Settling argv 0) (λ at. succ_of-Settling (codes "jump " ++ print_int at))

pub run_cut-Settling : (libc : Libc) (argv : List Value) → Settling (run_cut libc argv)
unfolding run_cut cut
run_cut-Settling libc argv =
    shown_int-Settling (codes "cut")
      (λ n. codes "silence suppression is " ++ (if is_zero n then codes "off\n" else codes "on\n"))

pub run_cutset-Settling : (libc : Libc) (argv : List Value) → Settling (run_cutset libc argv)
unfolding run_cutset cutset
run_cutset-Settling libc argv =
    bind-Settling (arg_int-Settling argv 0)
      (λ on. succ_of-Settling (codes "cutset " ++ print_int on))

pub run_replaygain-Settling :
    (libc : Libc) (argv : List Value) → Settling (run_replaygain libc argv)
unfolding run_replaygain replaygain
run_replaygain-Settling libc argv =
    shown_int-Settling (codes "replaygain")
      (λ n. codes "replaygain method in use: " ++ print_int n ++ codes "\n")

pub run_replaygainset-Settling :
    (libc : Libc) (argv : List Value) → Settling (run_replaygainset libc argv)
unfolding run_replaygainset replaygainset
run_replaygainset-Settling libc argv =
    bind-Settling (arg_int-Settling argv 0)
      (λ how. succ_of-Settling (codes "replaygainset " ++ print_int how))

pub run_sleep-Settling : (libc : Libc) (argv : List Value) → Settling (run_sleep libc argv)
unfolding run_sleep sleep
run_sleep-Settling libc argv =
    shown_int-Settling (codes "sleep")
      (λ n. codes "falling asleep in " ++ print_int n ++ codes " sec\n")

pub run_sleepset-Settling : (libc : Libc) (argv : List Value) → Settling (run_sleepset libc argv)
unfolding run_sleepset sleepset
run_sleepset-Settling libc argv =
    bind-Settling (arg_int-Settling argv 0)
      (λ delay. succ_of-Settling (codes "sleepset " ++ print_int delay))
