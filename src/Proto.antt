-- ===== src/Proto.antt =====
-- lib/proto.c: reading a reply, `_duc_rnext` and `_duc_rlast`.
--
-- The loops take the rounds that they may need from what is left to read: each round takes a line
-- out of the buffer or a piece out of the network (`rounds`).
pub mod Replies
pub mod Last
pub mod Whole
pub mod Reply
pub mod Wire
use dudlc.Shared.{
  ℕ, zero, suc, ◌+◌, ◌-◌, ◌*◌, Bool, true, false, not, ◌&&◌, ◌||◌, Option, none, some, List, [],
  ◌∷◌, ◌++◌, ltb, ◌==◌, if◌then◌else◌, ℤ, pos, negsuc, ltb_ℤ, is_negative, Bytes, codes, length,
  take, drop,
}
use dudlc.Cstring.{Parsed, got, refused, stray, Parser, c_string, strtol}
use dudlc.Sock.{Sock, sock_connect, sock_disconnect, sock_getline, sock_recv, sock_send}
use dudlc.Sock.Progress.{rounds}
use dudlc.Event.{Event, connect, char_at}
use dudlc.Session.{Dudlc, connected, emit, duc_close, bcast_line}
use dudlc.Session.Run.{Run, done, fault, overread, line_buffer, spent, Action, ◌>>=◌}

abbrev pub M : Type 0 → Type 0
M = Action Dudlc

-- What `_duc_rnext` returns: 0, -1 and -2.
pub data Next : Type 0 where
  another broken over : Next

-- The loop of `_duc_rnext`: the line that ends it, or `none` after it has closed the connection.
-- The three tests of a round, in order: a line too short, a broadcast, another line.
unfoldable pub sort_line : Bytes → (Dudlc → Run Dudlc (Option Bytes)) → M (Option Bytes)
sort_line l again p =
    if ltb (length (c_string l)) 4
    then done none (duc_close p)
    else if not (char_at l 0 == b'6')
    then done (some l) p
    else elim (bcast_line l p) [ none ↦ fault overread | some q ↦ again q ]

-- No line is at hand: fetch some bytes.
unfoldable pub fetch : Bool × Sock → (Dudlc → Run Dudlc (Option Bytes)) → M (Option Bytes)
fetch (true, con) again p = again (record p { con = con })
fetch (false, con) again p = done none (duc_close (record p { con = con }))

unfoldable pub round :
    Option (Option Bytes × Sock) → (Dudlc → Run Dudlc (Option Bytes)) → M (Option Bytes)
unfolding sort_line fetch
round none again p = fault line_buffer
round (some (some l, con)) again p = sort_line l again (record p { con = con })
round (some (none, con)) again p = fetch (sock_recv con) again (record p { con = con })

unfoldable pub next_loop : ℕ → M (Option Bytes)
unfolding round
next_loop zero p = spent
next_loop (suc n) p = round (sock_getline p.con) (next_loop n) p

-- Behind the loop: the code is remembered, or compared with the one of the reply's first line.
-- `strncmp( p->code, l, 3 )`: the code has three bytes.
unfoldable pub bytes_equal : Bytes → Bytes → Bool
bytes_equal [] [] = true
bytes_equal (x ∷ xs) (y ∷ ys) = x == y && bytes_equal xs ys
bytes_equal _ _ = false

unfoldable pub accept_line : Bytes → M Next
unfolding bytes_equal
accept_line l p =
    let q = record p { line = some (drop 4 l) } in
    let more = char_at l 3 == b'-' in
    elim p.code [
      | [] ↦ done another (record q { code = take 3 l; inreply = more })
      | c ∷ cs ↦
          if bytes_equal (c ∷ cs) (take 3 l)
          then done another (record q { inreply = more })
          else done broken (duc_close q)
    ]

unfoldable pub after_loop : Option Bytes → M Next
unfolding accept_line
after_loop none p = done broken p
after_loop (some l) p = accept_line l p

-- _duc_rnext
unfoldable pub rnext : M Next
unfolding after_loop next_loop
rnext p = if p.inreply then (do l ← next_loop (suc (rounds p.con)); after_loop l) p else done over p

-- The loop of `_duc_rlast`, which reads up to the last line. It returns 0 or -1, `true` and `false`.
unfoldable pub last_loop : ℕ → M Bool
unfolding rnext
last_loop zero p = spent
last_loop (suc n) p = elim (rnext p) [
  | done r q ↦ elim r [ another ↦ last_loop n q | broken ↦ done false q | over ↦ done true q ]
  | fault why ↦ fault why
  | spent ↦ spent
]

unfoldable pub rlast : M Bool
unfolding last_loop
rlast p = last_loop (suc (suc (rounds p.con))) p

-- _duc_rend
abbrev pub rend : Dudlc → Bool
rend p = not p.inreply
