-- ===== src/Cmd/Run/Player.antt =====
-- cmd/command.c: the commands on the player.
use dudlc.Shared.{List, codes, ◌++◌, if◌then◌else◌, ℤ}
use dudlc.Cstring.Decimal.{print_int}
use dudlc.Session.Run.{◌>>=◌}
use dudlc.Open.{duc_open}
use dudlc.Command.Player.{
  cut, cutset, elapsed, gap, gapset, jump, next, pause, play, prev, random, randomset, replaygain,
  replaygainset, stop,
}
use dudlc.Command.Sleep.{sleep, sleepset}
use dudlc.Cmd.Console.{Libc, C, lift}
use dudlc.Cmd.Format.{hours}
use dudlc.Cmd.Run.{Value, arg_int, succ_of, shown_int, is_zero}

module _ (libc : Libc) where
  unfoldable pub run_play : List Value → C ℤ
  unfolding succ_of play
  run_play argv = succ_of (play duc_open)

  unfoldable pub run_stop : List Value → C ℤ
  unfolding succ_of stop
  run_stop argv = succ_of (stop duc_open)

  unfoldable pub run_next : List Value → C ℤ
  unfolding succ_of next
  run_next argv = succ_of (next duc_open)

  unfoldable pub run_prev : List Value → C ℤ
  unfolding succ_of prev
  run_prev argv = succ_of (prev duc_open)

  unfoldable pub run_pause : List Value → C ℤ
  unfolding succ_of pause
  run_pause argv = succ_of (pause duc_open)

  unfoldable pub run_gap : List Value → C ℤ
  unfolding shown_int gap
  run_gap argv =
      shown_int (gap duc_open) (λ n. codes "gap between tracks: " ++ print_int n ++ codes " sec\n")

  unfoldable pub run_gapset : List Value → C ℤ
  unfolding arg_int lift gapset
  run_gapset argv = arg_int argv 0 >>= λ delay. lift (gapset duc_open delay)

  unfoldable pub run_random : List Value → C ℤ
  unfolding shown_int random
  run_random argv = shown_int (random duc_open) (λ n.
      codes "random play (when queue is empty) is "
      ++ (if is_zero n then codes "off\n" else codes "on\n"))

  unfoldable pub run_randomset : List Value → C ℤ
  unfolding arg_int succ_of randomset
  run_randomset argv = arg_int argv 0 >>= λ rnd. succ_of (randomset duc_open rnd)

  unfoldable pub run_elapsed : List Value → C ℤ
  unfolding shown_int elapsed
  run_elapsed argv = shown_int (elapsed duc_open) (λ n. codes "elapsed: " ++ hours n ++ codes "\n")

  unfoldable pub run_jump : List Value → C ℤ
  unfolding arg_int succ_of jump
  run_jump argv = arg_int argv 0 >>= λ at. succ_of (jump duc_open at)

  unfoldable pub run_cut : List Value → C ℤ
  unfolding shown_int cut
  run_cut argv =
      shown_int (cut duc_open) (λ n.
        codes "silence suppression is " ++ (if is_zero n then codes "off\n" else codes "on\n"))

  unfoldable pub run_cutset : List Value → C ℤ
  unfolding arg_int succ_of cutset
  run_cutset argv = arg_int argv 0 >>= λ on. succ_of (cutset duc_open on)

  unfoldable pub run_replaygain : List Value → C ℤ
  unfolding shown_int replaygain
  run_replaygain argv =
      shown_int (replaygain duc_open)
        (λ n. codes "replaygain method in use: " ++ print_int n ++ codes "\n")

  unfoldable pub run_replaygainset : List Value → C ℤ
  unfolding arg_int succ_of replaygainset
  run_replaygainset argv = arg_int argv 0 >>= λ how. succ_of (replaygainset duc_open how)

  unfoldable pub run_sleep : List Value → C ℤ
  unfolding shown_int sleep
  run_sleep argv =
      shown_int (sleep duc_open) (λ n. codes "falling asleep in " ++ print_int n ++ codes " sec\n")

  unfoldable pub run_sleepset : List Value → C ℤ
  unfolding arg_int succ_of sleepset
  run_sleepset argv = arg_int argv 0 >>= λ delay. succ_of (sleepset duc_open delay)
