-- ===== src/Sock.antt =====
-- lib/sock.c: the connection and its line buffer.
--
-- The system calls are the connection's environment: `connects` lists what the next attempts to
-- connect come to, `script` what the next calls of recv give on the open connection (when it has run
-- out, recv fails), `sendings` what the next calls of send take (when it has run out, all that they
-- are given), and `sent` what was sent.
-- `buf` holds the `ilen` bytes that count; `buf[ilen]` is 0 after each receive.
pub mod Split
pub mod Lines
pub mod Overlong
pub mod Buffer
pub mod Progress
pub mod OneLine
pub mod Arrival
use dudlc.Shared.{
  ℕ, suc, ◌+◌, ◌-◌, Bool, true, false, ◌&&◌, ◌||◌, Option, none, some, List, [], ◌∷◌, ◌++◌, ltb,
  ◌==◌, if◌then◌else◌, Bytes, length, set, take, drop,
}

-- One call of recv: the bytes that have arrived (none at the end of the stream), or an error.
pub data Recv : Type 0 where
  arrived : Bytes → Recv
  failed : Recv

-- One attempt to connect: it fails before connect(2) is called, or in it, or it succeeds.
pub data Attempt : Type 0 where
  unresolved rejected : Attempt
  accepted : List Recv → Attempt

-- One call of send, which does not block: it fails, or it takes that many of the bytes, or all where
-- there are fewer.
pub data Sending : Type 0 where
  blocked : Sending
  took : ℕ → Sending

-- `is_open` is fd != -1.
pub record Sock : Type 0 where
  pub host : Bytes
  pub port : ℕ
  pub is_open : Bool
  pub buf : Bytes
  pub llen : ℕ
  pub script : List Recv
  pub connects : List Attempt
  pub sendings : List Sending
  pub sent : List Bytes

abbrev pub buf_len_rcv : ℕ
buf_len_rcv = 2048

-- duc_sock_open, with the environment that it will meet.
unfoldable pub sock_open : Bytes → ℕ → List Attempt → List Sending → Sock
sock_open h p connects sendings = record {
  host = h;
  port = p;
  is_open = false;
  buf = [];
  llen = 0;
  script = [];
  connects = connects;
  sendings = sendings;
  sent = [];
}

unfoldable pub sock_disconnect : Sock → Sock
sock_disconnect s =
    if s.is_open then record s { is_open = false; buf = []; llen = 0; script = [] } else s

unfoldable pub attempt : Attempt → List Attempt → Sock → Bool × Sock
unfolding sock_disconnect
attempt unresolved later s = (false, record s { connects = later })
attempt rejected later s = (false, sock_disconnect (record s { is_open = true; connects = later }))
attempt (accepted script) later s =
    (true, record s { is_open = true; script = script; connects = later })

unfoldable pub next_attempt : List Attempt → Sock → Bool × Sock
unfolding attempt
next_attempt [] s = (false, s)
next_attempt (a ∷ later) s = attempt a later s

-- `true` is the return value 0, here and below, `false` is -1.
unfoldable pub sock_connect : Sock → Bool × Sock
unfolding next_attempt
sock_connect s = if s.is_open then (true, s) else next_attempt s.connects s

unfoldable pub sock_reconnect : Sock → Bool × Sock
unfolding sock_disconnect sock_connect
sock_reconnect s = sock_connect (sock_disconnect s)

-- Only a failure of send(2) counts: bytes that it leaves unsent are not sent again.
unfoldable pub next_send : List Sending → Bytes → Sock → Bool × Sock
next_send [] cmd s = (true, record s { sent = s.sent ++ cmd ∷ [] })
next_send (took n ∷ later) cmd s =
    (true, record s { sent = s.sent ++ take n cmd ∷ []; sendings = later })
next_send (blocked ∷ later) cmd s = (false, record s { sendings = later })

unfoldable pub sock_send : Sock → Bytes → Bool × Sock
unfolding next_send
sock_send s cmd = if s.is_open then next_send s.sendings cmd s else (false, s)

-- `none` is a memory fault: memmove is called with the count ilen - llen, which must not be negative.
unfoldable pub freeline : Sock → Option Sock
freeline s =
    if s.llen == 0
    then some s
    else if ltb (length s.buf) s.llen
    then none
    else some (record s { buf = drop s.llen s.buf; llen = 0 })

-- What recv leaves in the kernel when there is no room for all of it.
abbrev pub left_over : ℕ → Bytes → List Recv → List Recv
left_over room bs later = if ltb room (length bs) then arrived (drop room bs) ∷ later else later

unfoldable pub receive : Recv → List Recv → Sock → Bool × Sock
unfolding sock_disconnect
receive failed later s = (false, record s { script = later })
receive (arrived bs) later s =
    let room = buf_len_rcv - length s.buf - 1 in
    let chunk = take room bs in
    if length chunk == 0
    then (false, sock_disconnect s)
    else (true, record s { buf = s.buf ++ chunk; script = left_over room bs later })

unfoldable pub next_recv : List Recv → Sock → Bool × Sock
unfolding receive
next_recv [] s = (false, s)
next_recv (r ∷ later) s = receive r later s

unfoldable pub sock_recv : Sock → Bool × Sock
unfolding next_recv
sock_recv s = if s.is_open then next_recv s.script s else (false, s)

unfoldable pub is_break : ℕ → Bool
is_break c = c == b'\n' || c == b'\r'

-- strcspn( buf, "\n\r" ); a 0 ends it too.
unfoldable pub line_span : Bytes → ℕ
unfolding is_break
line_span [] = 0
line_span (c ∷ s) = if is_break c || c == 0 then 0 else suc (line_span s)

-- strspn( …, "\n\r" ); behind the last byte stands a 0.
unfoldable pub break_span : Bytes → ℕ
unfolding is_break
break_span [] = 0
break_span (c ∷ s) = if is_break c then suc (break_span s) else 0

-- The line is cut off by a 0, and it goes together with the line breaks behind it. The pointer that
-- is returned sees the whole buffer. (Behind a line that fills the buffer strspn looks at the byte
-- after it, the first one of `ilen` = 2047, which is no line break.)
unfoldable pub cut_line : ℕ → Sock → Option Bytes × Sock
unfolding break_span
cut_line l s =
    let cut = set s.buf l 0 in
    (some (cut ++ 0 ∷ []), record s { buf = cut; llen = l + 1 + break_span (drop (l + 1) s.buf) })

-- duc_sock_getline behind `freeline`.
unfoldable pub next_line : Sock → Option Bytes × Sock
unfolding line_span cut_line
next_line s =
    let l = line_span s.buf in
    if length s.buf == 0
    then (none, s)
    else if l == length s.buf && ltb l (buf_len_rcv - 1)
    then (none, record s { llen = 0 })
    else cut_line l s

unfoldable pub sock_getline : Sock → Option (Option Bytes × Sock)
unfolding freeline next_line
sock_getline s = elim (freeline s) [ none ↦ none | some t ↦ some (next_line t) ]
