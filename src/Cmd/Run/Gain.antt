-- ===== src/Cmd/Run/Gain.antt =====
-- cmd/command.c, cmd/parseval.c, lib/player.c and lib/proto.c: the pre-amplification, a double.
use dudlc.Shared.{
  Bool, Option, none, some, List, codes, ◌++◌, if◌then◌else◌, ℤ, pos, negsuc, Bytes, ℕ,
}
use dudlc.Session.Run.{int_overflow, ◌>>=◌, ◌>>◌, return, fail}
use dudlc.Proto.{M}
use dudlc.Request.{cmd_string, cmd_succ}
use dudlc.Open.{duc_open}
use dudlc.Cmd.Console.{Libc, C, lift, dmsg_msg}
use dudlc.Cmd.Run.{Value, arg_int, succ_of}

-- A double as an int
unfoldable pub int_of : {A : Type 0} → Option ℤ → (ℤ → C A) → C A
int_of none f = fail int_overflow
int_of (some n) f = f n

module _ (libc : Libc) where
  unfoldable pub val_double : Bytes → C (ℤ × Bytes)
  unfolding int_of
  val_double s =
      let (x, end) = libc.strtod s in int_of (libc.int_of_double x) (λ n. return (n, end))

  unfoldable pub double_or : Option Bytes → ℕ
  double_or none = libc.double_of_int (negsuc 0)
  double_or (some l) = (libc.strtod l).0

  -- _duc_cmd_double, whose requests and tests are those of _duc_cmd_string
  unfoldable pub cmd_double : Bytes → C ℕ
  unfolding double_or cmd_string
  cmd_double text = lift (cmd_string duc_open text) >>= λ l. return (double_or l)

  -- duc_cmd_rgpreamp, which returns an int
  unfoldable pub rgpreamp : C ℤ
  unfolding cmd_double int_of
  rgpreamp = cmd_double (codes "rgpreamp") >>= λ x. int_of (libc.int_of_double x) (λ n. return n)

  unfoldable pub run_rgpreamp : List Value → C ℤ
  unfolding rgpreamp dmsg_msg
  run_rgpreamp argv = rgpreamp >>= λ n.
      let x = libc.double_of_int n in
      if libc.below_zero x
      then return (negsuc 0)
      else (dmsg_msg (codes "replaygain pre-amplification: " ++ libc.print_f x ++ codes " dB\n")
          >> return (pos 0))

  -- duc_cmd_rgpreampset
  unfoldable pub rgpreampset : ℕ → M Bool
  unfolding cmd_succ
  rgpreampset r = cmd_succ duc_open (codes "rgpreampset " ++ libc.print_f r)

  unfoldable pub run_rgpreampset : List Value → C ℤ
  unfolding arg_int succ_of rgpreampset
  run_rgpreampset argv = arg_int argv 0 >>= λ i. succ_of (rgpreampset (libc.double_of_int i))
