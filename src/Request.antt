-- ===== src/Request.antt =====
-- lib/proto.c and lib/session.c: requests, `_duc_vsend` and the `_duc_cmd` family, `duc_cmd_auth`,
-- `duc_open` and `duc_poll`.
--
-- `_duc_vsend` opens the connection, opening logs in, and logging in sends requests. Requests
-- therefore take the `duc_open` that they call as a parameter: `reopen` for those of the login.
pub mod Idle
pub mod Sending
use dudlc.Shared.{
  ℕ, zero, suc, ◌+◌, ◌-◌, Bool, true, false, not, ◌&&◌, ◌||◌, Option, none, some, List, [], ◌∷◌,
  ◌++◌, ltb, ◌==◌, if◌then◌else◌, ℤ, pos, negsuc, Bytes, codes, length, take, drop,
}
use dudlc.Cstring.{Parsed, got, refused, stray, Parser, c_string, strtol}
use dudlc.Sock.{Sock, sock_connect, sock_disconnect, sock_getline, sock_recv, sock_send}
use dudlc.Event.{Event, connect, char_at}
use dudlc.Session.{Dudlc, connected, emit, duc_close, bcast_line}
use dudlc.Session.Run.{
  Run, done, fault, null_pointer, overread, send_buffer, spent, Action, ◌>>=◌, ◌>>◌, return, update,
  gets,
}
use dudlc.Proto.{M, rlast}

abbrev pub buf_len_line : ℕ
buf_len_line = 2048

-- The end of `_duc_vsend`: what send returned.
unfoldable pub after_send : Bool × Sock → M Bool
after_send (true, con) p = done true (record p { con = con; inreply = true })
after_send (false, con) p = done false (duc_close (record p { con = con }))

-- `text` is what the format gives. vsnprintf writes it if it has less than 2047 bytes; the line
-- break and the 0 then go to the bytes `len` and `len + 1` of a buffer of 2048, whatever was cut.
unfoldable pub send_line : Bytes → M Bool
unfolding after_send
send_line text p =
    if ltb (buf_len_line - 1) (length text)
    then done false p
    else if ltb buf_len_line (length text + 2)
    then fault send_buffer
    else after_send (sock_send p.con (text ++ b'\n' ∷ [])) (record p { code = []; line = none })

-- _duc_vsend
unfoldable pub vsend : M Bool → Bytes → M Bool
unfolding send_line
vsend opener text p =
    if p.inreply
    then done false p
    else (do open_now ← opener; if open_now then send_line text else return false) p

-- _duc_rcode and _duc_rline, where the caller reads through the pointer: NULL is a fault.
unfoldable pub code_digit : M ℕ
code_digit p = elim p.code [ [] ↦ fault null_pointer | c ∷ cs ↦ done c p ]

unfoldable pub rline : M Bytes
rline p = elim p.line [ none ↦ fault null_pointer | some l ↦ done l p ]

-- `if( … ) return failure;`
abbrev pub unless_failed : {A : Type 0} → Bool → M A → A → M A
unless_failed true m failure = m
unless_failed false m failure = return failure

-- The tests on the first byte of the code.
unfoldable pub succeeded : M Bool
unfolding code_digit
succeeded = do d ← code_digit; return (d == b'2' || d == b'3')

unfoldable pub answered : M Bool
unfolding code_digit
answered = do d ← code_digit; return (d == b'2')

-- atoi: 0 where there is no number.
unfoldable pub atoi_result : Parsed ℤ → M ℤ
atoi_result (got n end) p = done n p
atoi_result refused p = done (pos 0) p
atoi_result stray p = fault overread

unfoldable pub atoi_line : Bytes → M ℤ
unfolding atoi_result
atoi_line l p = atoi_result (strtol l) p

-- What a converter gives for the reply's line: a row, or NULL.
unfoldable pub converted : {A : Type 0} → Parsed A → M (Option A)
converted (got row end) p = done (some row) p
converted refused p = done none p
converted stray p = fault overread

unfoldable pub convert : {A : Type 0} → Parser A → Bytes → M (Option A)
unfolding converted
convert conv l p = converted (conv l) p

module _ (opener : M Bool) where
  -- _duc_cmd: a request and its whole reply; `false` is -1.
  unfoldable pub cmd : Bytes → M Bool
  unfolding vsend
  cmd text = do ready ← vsend opener text; unless_failed ready rlast false

  -- _duc_cmd_succ
  unfoldable pub cmd_succ : Bytes → M Bool
  unfolding cmd succeeded
  cmd_succ text = do complete ← cmd text; unless_failed complete succeeded false

  -- _duc_cmd_string
  unfoldable pub cmd_string : Bytes → M (Option Bytes)
  unfolding cmd answered rline
  cmd_string text = do
    complete ← cmd text
    good ← unless_failed complete answered false
    unless_failed good (do l ← rline; return (some (c_string l))) none

  -- _duc_cmd_int
  unfoldable pub cmd_int : Bytes → M ℤ
  unfolding cmd answered rline atoi_line
  cmd_int text = do
    complete ← cmd text
    good ← unless_failed complete answered false
    unless_failed good (do l ← rline; atoi_line l) (negsuc 0)

  -- _duc_cmd_conv
  unfoldable pub cmd_conv : {A : Type 0} → Parser A → Bytes → M (Option A)
  unfolding cmd answered rline convert
  cmd_conv conv text = do
    complete ← cmd text
    good ← unless_failed complete answered false
    unless_failed good (do l ← rline; convert conv l) none

  -- duc_cmd_auth
  unfoldable pub login : Option Bytes → Option Bytes → M Bool
  unfolding cmd_succ
  login (some user) (some pass) = do
    known ← cmd_succ (codes "user " ++ user)
    unless_failed known (cmd_succ (codes "pass " ++ pass)) false
  login _ _ = return false

  unfoldable pub cmd_auth : M Bool
  unfolding login
  cmd_auth p = login p.user p.pass p
