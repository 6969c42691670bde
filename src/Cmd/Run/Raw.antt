-- ===== src/Cmd/Run/Raw.antt =====
-- cmd/command.c: `open`, `raw` and `status`.
pub mod Faults
use dudlc.Shared.{
  ℕ, zero, suc, Bool, false, Option, none, some, List, [], ◌∷◌, ◌++◌, ◌==◌, if◌then◌else◌, ℤ, pos,
  negsuc, Bytes, codes,
}
use dudlc.Cstring.{c_string}
use dudlc.Sock.Progress.{rounds}
use dudlc.Session.Run.{done, null_pointer, wrong_type, ◌>>=◌, ◌>>◌, return, gets, fail, no_rounds}
use dudlc.Proto.{Next, another, broken, over, rnext}
use dudlc.Proto.{M}
use dudlc.Request.{vsend}
use dudlc.Open.{duc_open}
use dudlc.Command.Player.{status}
use dudlc.Cmd.Console.{Console, Libc, C, lift, dmsg_msg, dmsg_null, dmsg_line}
use dudlc.Cmd.Run.{Value, arg_text, succ_of}

unfoldable pub put : ℕ → Option Bytes → Option Bytes
put c none = none
put c (some t) = some (c ∷ t)

-- A format string that no arguments go with: `%%` is a percent sign, and every other conversion
-- reads an argument that is not there.
unfoldable pub format_of : Bytes → Option Bytes
unfolding put
format_of [] = some []
format_of (c ∷ []) = if c == b'%' then none else some (c ∷ [])
format_of (c ∷ d ∷ s) =
    let rest = format_of (d ∷ s) in
    let behind = format_of s in
    if c == b'%' then if d == b'%' then put b'%' behind else none else put c rest

-- _duc_vsend up to `vsnprintf`, which reads an argument that is not there.
unfoldable pub bad_format : M Bool
unfolding duc_open
bad_format q =
    if q.inreply
    then done false q
    else (duc_open >>= λ open_now. if open_now then fail wrong_type else return false) q

-- _duc_send( dudl, line )
unfoldable pub send_format : Option Bytes → C Bool
unfolding vsend bad_format
send_format none = lift bad_format
send_format (some text) = lift (vsend duc_open text)

unfoldable pub line_text : Option Bytes → Option Bytes
line_text none = none
line_text (some l) = some (c_string l)

-- `while( ! (r = _duc_rnext(dudl)) )`: a line of the reply is shown.
unfoldable pub raw_next : C Next → Next → C Next
unfolding dmsg_line line_text
raw_next again another =
    gets (λ (s : Console). s.dudl.line) >>= λ l. dmsg_line (line_text l) (codes "\n") >> again
raw_next again broken = return broken
raw_next again over = return over

-- The loop: what ends it, -1 or -2.
unfoldable pub raw_loop : ℕ → C Next
unfolding raw_next rnext
raw_loop zero = no_rounds
raw_loop (suc n) = lift rnext >>= raw_next (raw_loop n)

-- The code, which is NULL where no reply has been read.
unfoldable pub code_text : Bytes → Option Bytes
code_text [] = none
code_text (c ∷ cs) = some (c ∷ cs)

unfoldable pub show_code : Option Bytes → C ℤ
unfolding dmsg_msg dmsg_null
show_code none = dmsg_null >> return (pos 0)
show_code (some text) = dmsg_msg (codes "return code: " ++ text ++ codes "\n") >> return (pos 0)

unfoldable pub raw_end : Next → C ℤ
unfolding show_code code_text
raw_end another = return (pos 0)
raw_end broken = return (negsuc 0)
raw_end over = gets (λ (s : Console). code_text s.dudl.code) >>= show_code

unfoldable pub status_text : ℤ → Option Bytes
status_text (pos zero) = some (codes "stopped\n")
status_text (pos (suc zero)) = some (codes "playing\n")
status_text (pos (suc (suc zero))) = some (codes "paused\n")
status_text (pos (suc (suc (suc zero)))) = some (codes "not connected\n")
status_text _ = none

unfoldable pub show_status : Option Bytes → C ℤ
unfolding dmsg_msg
show_status none = return (negsuc 0)
show_status (some text) = dmsg_msg text >> return (pos 0)

module _ (libc : Libc) where
  unfoldable pub run_open : List Value → C ℤ
  unfolding succ_of duc_open
  run_open argv = succ_of duc_open

  unfoldable pub run_raw : List Value → C ℤ
  unfolding arg_text format_of send_format raw_loop raw_end
  run_raw argv = do
    line ← arg_text argv 0
    good ← send_format (format_of line)
    n ← gets (λ (s : Console). suc (suc (rounds s.dudl.con)))
    r ← raw_loop n
    raw_end r

  unfoldable pub run_status : List Value → C ℤ
  unfolding status show_status status_text
  run_status argv = lift (status duc_open) >>= λ n. show_status (status_text n)
