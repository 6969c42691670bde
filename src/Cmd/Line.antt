-- ===== src/Cmd/Line.antt =====
-- cmd/command.c: a line of text is run as a command, `duc_cmd` and `cmd_arg_parse`. `malloc`,
-- `realloc` and `strdup` are taken to succeed.
pub mod Count
pub mod Types
use dudlc.Shared.{
  ℕ, Bool, not, ◌&&◌, ◌||◌, Option, none, some, List, [], ◌∷◌, ◌++◌, ◌==◌, if◌then◌else◌, ◌+◌, ℤ,
  pos, negsuc, Bytes, codes,
}
use dudlc.Cstring.{is_space, skip_space}
use dudlc.Event.{char_at}
use dudlc.Session.{connected}
use dudlc.Session.Run.{◌>>=◌, ◌>>◌, return}
use dudlc.Cmd.Console.{Libc, C, dmsg_msg}
use dudlc.Cmd.Value.{same_place, val_name}
use dudlc.Cmd.Run.{Value, is_zero, dmsg_rmsg}
use dudlc.Cmd.Table.{Arg, Command}
use dudlc.Cmd.Table.Args.{parse_arg}
use dudlc.Cmd.Table.Call.{cmd_find, cmd_usage, call}

-- What the loop over the arguments leaves: `argv`, `next` and `missing`.
pub record Parsing : Type 0 where
  pub argv : List Value
  pub next : Bytes
  pub missing : ℕ

-- `*end && !isspace(*end)`
abbrev pub in_word : Bytes → Bool
in_word end = not (char_at end 0 == 0) && not (is_space (char_at end 0))

-- A value has been read: it is taken, or the line is refused.
unfoldable pub take_value :
    Arg → Bytes → (Parsing → C (Option Parsing)) → Parsing → Value × Bytes → C (Option Parsing)
unfolding same_place is_space dmsg_msg
take_value arg next again p r =
    if same_place r.1 next || in_word r.1
    then dmsg_msg (codes "invalid data for argument " ++ arg.name ++ codes "\n") >> return none
    else again (record p { argv = p.argv ++ r.0 ∷ []; next = r.1 })

-- The loop; `none` is `goto clean1`.
unfoldable pub parse_args : Libc → List Arg → Parsing → C (Option Parsing)
unfolding skip_space take_value
parse_args libc [] p = return (some p)
parse_args libc (arg ∷ args) p =
    let next = skip_space p.next in
    let rest = parse_args libc args in
    if char_at next 0 == 0
    then rest (record p { next = next; missing = p.missing + 1 })
    else (parse_arg libc arg.parse next >>= take_value arg next rest p)

-- What is said of a command that has not returned 0
unfoldable pub run_failed : C (Unit {0})
unfolding dmsg_msg dmsg_rmsg
run_failed s =
    (if connected s.dudl
        then dmsg_rmsg (codes "failed: ") s.dudl.line
        else dmsg_msg (codes "failed: connection error\n"))
      s

unfoldable pub report : ℤ → C ℤ
unfolding run_failed
report code = if is_zero code then return (pos 0) else (run_failed >> return (pos 0))

-- Behind the loop
unfoldable pub run_parsed : Libc → Command → Option Parsing → C ℤ
unfolding dmsg_msg cmd_usage call report
run_parsed libc cmd none = return (negsuc 0)
run_parsed libc cmd (some p) =
    if not (char_at p.next 0 == 0)
    then dmsg_msg (codes "too many arguments\n") >> return (negsuc 0)
    else if not (p.missing == 0)
    then dmsg_msg (codes "usage: " ++ cmd_usage cmd ++ codes "\n") >> return (negsuc 0)
    else (call libc cmd.run p.argv >>= report)

unfoldable pub cmd_arg_parse : Libc → Command → Bytes → C ℤ
unfolding parse_args run_parsed
cmd_arg_parse libc cmd line =
    parse_args libc cmd.args (record { argv = []; next = line; missing = 0 })
    >>= run_parsed libc cmd

unfoldable pub found : Libc → Bytes → Option Command → C ℤ
unfolding dmsg_msg cmd_arg_parse
found libc line none = dmsg_msg (codes "no such command\n") >> return (negsuc 0)
found libc line (some cmd) = cmd_arg_parse libc cmd line

-- val_name sets `*end` to its argument just where it gives NULL.
unfoldable pub named : Libc → Option Bytes × Bytes → C ℤ
unfolding dmsg_msg found cmd_find
named libc (none, end) = dmsg_msg (codes "no such  command\n") >> return (negsuc 0)
named libc (some scmd, end) = found libc end (cmd_find scmd)

unfoldable pub duc_cmd : Libc → Bytes → C ℤ
unfolding skip_space val_name named
duc_cmd libc line = named libc (val_name (skip_space line))
