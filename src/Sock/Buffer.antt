-- ===== src/Sock/Buffer.antt =====
-- The invariant of the line buffer, and what `duc_sock_recv` and `duc_sock_getline` make of it.
use dudlc.Shared.{
  ℕ, ◌+◌, ◌-◌, ◌≤◌, ◌<◌, true, false, Option, some, List, [], ◌∷◌, ◌++◌, ◌≡◌, refl, sym, arith, ltb,
  ◌==◌, Bytes, length, take, drop, length-set, length-drop, length-append, length-take, inl, inr,
  Bool-cases,
}
use dudlc.Sock.{
  Sock, Recv, arrived, failed, buf_len_rcv, sock_disconnect, receive, next_recv, sock_recv,
  freeline, line_span, break_span, cut_line, next_line, sock_getline,
}

-- There is room for the 0 behind the bytes, the line that was handed out lies within them, and a
-- closed connection has none.
pub record IsValid (s : Sock) : Type 0 where
  pub fits : length s.buf ≤ buf_len_rcv - 1
  pub line_within : s.llen ≤ length s.buf
  pub closed_empty : s.is_open ≡ false → length s.buf ≡ 0

pub line_span-le-length : (s : Bytes) → line_span s ≤ length s
unfolding line_span
line_span-le-length [] = omega arith
line_span-le-length (c ∷ s) = ground (arith, line_span-le-length s)

pub break_span-le-length : (s : Bytes) → break_span s ≤ length s
unfolding break_span
break_span-le-length [] = omega arith
break_span-le-length (c ∷ s) = ground (arith, break_span-le-length s)

room_for :
    (bs buf : Bytes)
    → length buf ≤ buf_len_rcv - 1
    → length (buf ++ take (buf_len_rcv - length buf - 1) bs) ≤ buf_len_rcv - 1
room_for bs buf h =
    let room = buf_len_rcv - length buf - 1 in
    omega (arith, length-append buf (take room bs), length-take room bs)

length-le-append : (xs ys : Bytes) → length xs ≤ length (xs ++ ys)
length-le-append xs ys = omega (arith, length-append xs ys)

pub sock_disconnect-IsValid : {s : Sock} → IsValid s → IsValid (sock_disconnect s)
unfolding sock_disconnect
sock_disconnect-IsValid {s} v = ground arith

receive-IsValid :
    (r : Recv) (later : List Recv) {s : Sock}
    → IsValid s
    → s.is_open ≡ true
    → IsValid (receive r later s).1
unfolding receive
receive-IsValid failed later {s} v o = ground arith
receive-IsValid (arrived bs) later {s} v o =
    let room = buf_len_rcv - length s.buf - 1 in
    ground (
      arith,
      room_for bs s.buf v.fits,
      length-le-append s.buf (take room bs),
      sock_disconnect-IsValid v,
    )

next_recv-IsValid :
    (l : List Recv) {s : Sock} → IsValid s → s.is_open ≡ true → IsValid (next_recv l s).1
unfolding next_recv
next_recv-IsValid [] v o = v
next_recv-IsValid (r ∷ later) v o = receive-IsValid r later v o

-- Whatever recv gives, the buffer stays in bounds.
pub sock_recv-IsValid : {s : Sock} → IsValid s → IsValid (sock_recv s).1
unfolding sock_recv
sock_recv-IsValid {s} v = ground (arith, next_recv-IsValid s.script v)

le→ltb_false : {a b : ℕ} → a ≤ b → ltb b a ≡ false
le→ltb_false h = ground arith

-- The bytes that are not handed out yet.
unfoldable pub unread : Sock → Bytes
unread s = drop s.llen s.buf

pub unread_start : (s : Sock) → s.llen ≡ 0 → unread s ≡ s.buf
unfolding unread
unread_start s z = rw z refl

-- `freeline` on a valid buffer.
pub freeline_lem :
    {s : Sock} → IsValid s → freeline s ≡ some (record s { buf = unread s; llen = 0 })
unfolding freeline
freeline_lem {s} v = elim (Bool-cases (s.llen == 0)) [
  | inl z ↦
      let e : s.llen ≡ 0 = ground arith in
      rw z (λ i. some (record s { buf = sym (unread_start s e) i; llen = e i }))
  | inr z ↦ rw (z, le→ltb_false v.line_within) (unfold unread in refl)
]

pub freeline-IsValid : {s : Sock} → IsValid s → IsValid (record s { buf = unread s; llen = 0 })
unfolding unread
freeline-IsValid {s} v = record {
  fits = omega (arith, length-drop s.llen s.buf);
  line_within = omega arith;
  closed_empty = λ c. omega (arith, length-drop s.llen s.buf, v.closed_empty c);
}

pub next_line-IsValid :
    {s : Sock}
    → IsValid s
    → s.llen ≡ 0
    → line_span s.buf < buf_len_rcv - 1
    → IsValid (next_line s).1
unfolding next_line cut_line
next_line-IsValid {s} v z h =
    let l = line_span s.buf in
    let behind = drop (l + 1) s.buf in
    ground (
      arith,
      length-set s.buf l 0,
      line_span-le-length s.buf,
      break_span-le-length behind,
      length-drop (l + 1) s.buf,
    )

-- From a valid buffer whose next line is shorter than the buffer, `duc_sock_getline` returns, with
-- no fault, and leaves a valid buffer.
pub sock_getline-IsValid :
    (s : Sock)
    → IsValid s
    → line_span (unread s) < buf_len_rcv - 1
    → (line : Option Bytes) × (t : Sock) × (sock_getline s ≡ some (line, t)) × IsValid t
unfolding sock_getline
sock_getline-IsValid s v h =
    let freed = record s { buf = unread s; llen = 0 } in
    let (line, t) = next_line freed in
    (
      line,
      t,
      rw (freeline_lem v, sock_getline),
      next_line-IsValid {s = freed} (freeline-IsValid v) refl h,
    )
