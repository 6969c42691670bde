-- ===== src/Cmd/Settle/Gain.antt =====
-- How the commands on the pre-amplification end, and the reading of their argument.
use dudlc.Shared.{Option, none, some, List, Bytes, ℤ, pos, negsuc, codes, ◌++◌}
use dudlc.Cmd.Console.{Libc, C}
use dudlc.Cmd.Console.Ends.{
  stopped, Settling, bind-Settling, return-Settling, if-Settling, dmsg_msg-Settling,
}
use dudlc.Cmd.Settle.{arg_int-Settling, succ_of-Settling, cmd_string-Settling}
use dudlc.Cmd.Run.{Value}
use dudlc.Cmd.Run.Gain.{
  int_of, val_double, double_or, cmd_double, rgpreamp, run_rgpreamp, rgpreampset, run_rgpreampset,
}

module _ {A : Type 0} where
  int_of-Settling :
      (n : Option ℤ) {f : ℤ → C A} → ((n : ℤ) → Settling (f n)) → Settling (int_of n f)
  unfolding int_of
  int_of-Settling none h s i = stopped _
  int_of-Settling (some n) h s i = h n s i

module _ (libc : Libc) where
  pub val_double-Settling : (s : Bytes) → Settling (val_double libc s)
  unfolding val_double
  val_double-Settling s =
      int_of-Settling (libc.int_of_double (libc.strtod s).0)
        (λ n. return-Settling (n, (libc.strtod s).1))

  cmd_double-Settling : (line : Bytes) → Settling (cmd_double libc line)
  unfolding cmd_double
  cmd_double-Settling line =
      bind-Settling (cmd_string-Settling line) (λ l. return-Settling (double_or libc l))

  rgpreamp-Settling : Settling (rgpreamp libc)
  unfolding rgpreamp
  rgpreamp-Settling =
      bind-Settling (cmd_double-Settling (codes "rgpreamp"))
        (λ x. int_of-Settling (libc.int_of_double x) (λ n. return-Settling n))

  pub run_rgpreamp-Settling : (argv : List Value) → Settling (run_rgpreamp libc argv)
  unfolding run_rgpreamp
  run_rgpreamp-Settling argv = bind-Settling rgpreamp-Settling (λ n.
      if-Settling (libc.below_zero (libc.double_of_int n)) (return-Settling (negsuc 0)) (
        bind-Settling
          (dmsg_msg-Settling (
            codes "replaygain pre-amplification: "
            ++ libc.print_f (libc.double_of_int n)
            ++ codes " dB\n"))
          (λ _. return-Settling (pos 0))))

  pub run_rgpreampset-Settling : (argv : List Value) → Settling (run_rgpreampset libc argv)
  unfolding run_rgpreampset rgpreampset
  run_rgpreampset-Settling argv =
      bind-Settling (arg_int-Settling argv 0)
        (λ i. succ_of-Settling (codes "rgpreampset " ++ libc.print_f (libc.double_of_int i)))
