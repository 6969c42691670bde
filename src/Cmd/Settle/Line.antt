-- ===== src/Cmd/Settle/Line.antt =====
-- How the run of a line ends.
use dudlc.Shared.{
  ◌+◌, not, ◌||◌, ◌≡◌, false, Option, none, some, List, [], ◌∷◌, ◌++◌, ◌==◌, ℤ, pos, negsuc, Bytes,
  codes,
}
use dudlc.Cstring.{skip_space}
use dudlc.Event.{char_at}
use dudlc.Session.{connected}
use dudlc.Session.Run.{◌>>=◌}
use dudlc.Cmd.Console.{Console, Libc, C}
use dudlc.Cmd.Console.Ends.{
  Settles, Settling, bind-Settling, return-Settling, if-Settling, dmsg_msg-Settling,
}
use dudlc.Cmd.Value.{same_place, val_name}
use dudlc.Cmd.Run.{Value, is_zero}
use dudlc.Cmd.Settle.{dmsg_rmsg-Settling}
use dudlc.Cmd.Settle.Args.{parse_arg-Settling}
use dudlc.Cmd.Settle.Call.{call-Settling}
use dudlc.Cmd.Table.{Arg, Command}
use dudlc.Cmd.Table.Call.{cmd_find, cmd_usage}
use dudlc.Cmd.Line.{
  Parsing, in_word, take_value, parse_args, run_failed, report, run_parsed, cmd_arg_parse, found,
  named, duc_cmd,
}

take_value-Settling :
    (arg : Arg) (next : Bytes) {again : Parsing → C (Option Parsing)} (p : Parsing)
    (r : Value × Bytes)
    → ((p : Parsing) → Settling (again p))
    → Settling (take_value arg next again p r)
unfolding take_value
take_value-Settling arg next p r h =
    if-Settling (same_place r.1 next || in_word r.1)
      (bind-Settling
        (dmsg_msg-Settling (codes "invalid data for argument " ++ arg.name ++ codes "\n"))
        (λ _. return-Settling none))
      (h (record p { argv = p.argv ++ r.0 ∷ []; next = r.1 }))

parse_args-Settling :
    (libc : Libc) (args : List Arg) (p : Parsing) → Settling (parse_args libc args p)
unfolding parse_args
parse_args-Settling libc [] p = return-Settling (some p)
parse_args-Settling libc (arg ∷ args) p =
    let next = skip_space p.next in
    if-Settling (char_at next 0 == 0)
      (parse_args-Settling libc args (record p { next = next; missing = p.missing + 1 }))
      (bind-Settling (parse_arg-Settling libc arg.parse next)
        (λ r. take_value-Settling arg next p r (parse_args-Settling libc args)))

run_failed-Settling : Settling run_failed
unfolding run_failed
run_failed-Settling s i =
    if-Settling (connected s.dudl) (dmsg_rmsg-Settling (codes "failed: ") s.dudl.line)
      (dmsg_msg-Settling (codes "failed: connection error\n")) s i

report-Settling : (code : ℤ) → Settling (report code)
unfolding report
report-Settling code =
    if-Settling (is_zero code) (return-Settling (pos 0))
      (bind-Settling run_failed-Settling (λ _. return-Settling (pos 0)))

said :
    (text : Bytes)
    → Settling (dudlc.Cmd.Console.dmsg_msg text >>= λ _. dudlc.Session.Run.return (negsuc 0))
said text = bind-Settling (dmsg_msg-Settling text) (λ _. return-Settling (negsuc 0))

run_parsed-Settling :
    (libc : Libc) (cmd : Command) (p : Option Parsing) → Settling (run_parsed libc cmd p)
unfolding run_parsed
run_parsed-Settling libc cmd none = return-Settling (negsuc 0)
run_parsed-Settling libc cmd (some p) =
    if-Settling (not (char_at p.next 0 == 0)) (said (codes "too many arguments\n")) (
      if-Settling (not (p.missing == 0)) (said (codes "usage: " ++ cmd_usage cmd ++ codes "\n"))
        (bind-Settling (call-Settling libc cmd.run p.argv) report-Settling))

cmd_arg_parse-Settling :
    (libc : Libc) (cmd : Command) (line : Bytes) → Settling (cmd_arg_parse libc cmd line)
unfolding cmd_arg_parse
cmd_arg_parse-Settling libc cmd line =
    bind-Settling
      (parse_args-Settling libc cmd.args (record { argv = []; next = line; missing = 0 }))
      (run_parsed-Settling libc cmd)

found-Settling :
    (libc : Libc) (line : Bytes) (cmd : Option Command) → Settling (found libc line cmd)
unfolding found
found-Settling libc line none = said (codes "no such command\n")
found-Settling libc line (some cmd) = cmd_arg_parse-Settling libc cmd line

named-Settling : (libc : Libc) (r : Option Bytes × Bytes) → Settling (named libc r)
unfolding named
named-Settling libc (none, end) = said (codes "no such  command\n")
named-Settling libc (some scmd, end) = found-Settling libc end (cmd_find scmd)

-- Whatever the line, whatever the network does and the server sends, from a session that awaits no
-- reply `duc_cmd` ends: it returns with no reply awaited, or C does not define what it does.
pub duc_cmd-Settles :
    (libc : Libc) (line : Bytes) (s : Console)
    → s.dudl.inreply ≡ false
    → Settles (duc_cmd libc line s)
unfolding duc_cmd
duc_cmd-Settles libc line s i = named-Settling libc (val_name (skip_space line)) s i
