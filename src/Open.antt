-- ===== src/Open.antt =====
-- lib/session.c: `duc_open`, and `duc_poll` of lib/proto.c.
pub mod Ready
pub mod Requests
pub mod Answers
use dudlc.Shared.{
  ℕ, zero, suc, ◌+◌, ◌-◌, Bool, true, false, not, ◌&&◌, ◌||◌, Option, none, some, List, [], ◌∷◌,
  ◌++◌, ltb, ◌==◌, if◌then◌else◌, ℤ, pos, negsuc, Bytes, codes, length, take, drop, ltb_ℤ,
}
use dudlc.Cstring.{Parsed, got, refused, stray, Parser, c_string, strtol}
use dudlc.Sock.{Sock, sock_connect, sock_disconnect, sock_getline, sock_recv, sock_send}
use dudlc.Event.{Event, connect, char_at}
use dudlc.Session.{Dudlc, connected, emit, duc_close, bcast_line}
use dudlc.Session.Run.{
  Run, done, fault, overread, line_buffer, spent, Action, ◌>>=◌, ◌>>◌, return, update, gets,
}
use dudlc.Proto.{M, rlast, bytes_equal}
use dudlc.Sock.Progress.{rounds}
use dudlc.Request.{answered, rline, unless_failed, cmd_auth}

abbrev pub duc_proto_major : ℤ
duc_proto_major = pos 1

abbrev pub duc_proto_minor : ℤ
duc_proto_minor = pos 2

-- The two numbers behind "dudld": vmajor and vminor, 0 where strtol finds none. `none` is a read
-- behind the stored bytes.
unfoldable pub minor_of : Parsed ℤ → Option ℤ
minor_of (got n end) = some n
minor_of refused = some (pos 0)
minor_of stray = none

unfoldable pub version_of : Parsed ℤ → Option (ℤ × ℤ)
unfolding minor_of
version_of (got major end) = elim (minor_of (strtol end)) [
  | none ↦ none
  | some minor ↦ some (major, minor)
]
version_of refused = some (pos 0, pos 0)
version_of stray = none

-- `clean1`: only the socket is closed.
unfoldable pub give_up : M Bool
give_up p = done false (record p { con = sock_disconnect p.con })

-- The last steps: the login where a user is set, and the `connect` handler.
unfoldable pub log_in : M Bool → Option Bytes → M Bool
log_in reopen none = return true
log_in reopen (some user) = cmd_auth reopen

-- `p->vmajor != DUC_PROTO_MAJOR`
unfoldable pub is_major : ℤ → Bool
is_major (pos n) = n == 1
is_major (negsuc n) = false

unfoldable pub greet : M Bool → Option (ℤ × ℤ) → M Bool
unfolding version_of is_major log_in give_up
greet reopen none p = fault overread
greet reopen (some (major, minor)) p =
    let q = record p { vmajor = major; vminor = minor } in
    if is_major major
    then (do
      good ← log_in reopen q.user
      if good then (do update (emit connect); return true) else give_up)
        q
    else give_up q

-- strncmp( "dudld", s, 5 )
unfoldable pub is_dudld : Bytes → Bool
unfolding bytes_equal
is_dudld s = bytes_equal (codes "dudld") (take 5 s)

unfoldable pub hello : M Bool → M Bool
unfolding greet is_dudld give_up
hello reopen = do
  l ← rline
  if is_dudld l then greet reopen (version_of (strtol (drop 5 l))) else give_up

-- `! c || *c != '2'`, turned round
unfoldable pub greeted : M Bool
greeted p = elim p.code [ [] ↦ done false p | c ∷ cs ↦ done (c == b'2') p ]

-- Behind the connect: the server's first line.
unfoldable pub welcome : M Bool → Bool × Sock → M Bool
unfolding hello greeted give_up
welcome reopen (false, con) p = done false (record p { con = con })
welcome reopen (true, con) p =
    (do
      complete ← rlast
      good ← unless_failed complete greeted false
      if good then hello reopen else give_up)
      (record p { con = con; inreply = true })

unfoldable pub open_with : M Bool → M Bool
unfolding welcome
open_with reopen p = if connected p then done true p else welcome reopen (sock_connect p.con) p

-- The `duc_open` that the requests of the login call: the connection is open then.
unfoldable pub open_already : M Bool
open_already p = if connected p then done true p else spent

unfoldable pub duc_open : M Bool
unfolding open_with open_already
duc_open = open_with open_already

-- The loop of `duc_poll` over the lines that are at hand. A line that is no broadcast goes to stderr.
poll_line : Bytes → (Dudlc → Run Dudlc (Unit {0})) → M (Unit {0})
poll_line l again p =
    if ltb (length (c_string l)) 4
    then done tt (duc_close p)
    else if not (char_at l 0 == b'6')
    then again p
    else elim (bcast_line l p) [ none ↦ fault overread | some q ↦ again q ]

poll_round : Option (Option Bytes × Sock) → (Dudlc → Run Dudlc (Unit {0})) → M (Unit {0})
unfolding poll_line
poll_round none again p = fault line_buffer
poll_round (some (none, con)) again p = done tt (record p { con = con })
poll_round (some (some l, con)) again p = poll_line l again (record p { con = con })

unfoldable pub poll_loop : ℕ → M (Unit {0})
unfolding poll_round
poll_loop zero p = spent
poll_loop (suc n) p = poll_round (sock_getline p.con) (poll_loop n) p

poll_recv : Bool × Sock → Dudlc → Dudlc
poll_recv (true, con) p = record p { con = con }
poll_recv (false, con) p = duc_close (record p { con = con })

poll_opened : Bool → M (Unit {0})
unfolding poll_loop poll_recv
poll_opened false p = done tt p
poll_opened true p = let q = poll_recv (sock_recv p.con) p in poll_loop (suc (rounds q.con)) q

unfoldable pub duc_poll : M (Unit {0})
unfolding duc_open poll_opened
duc_poll = do open_now ← duc_open; poll_opened open_now
