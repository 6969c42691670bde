-- ===== src/Sock/Arrival.antt =====
-- duc_sock_getline and duc_sock_recv of lib/sock.c on a connection that brings a line.
use dudlc.Shared.{
  ℕ, ◌-◌, ◌<◌, true, ◌&&◌, set, Option, none, some, List, [], ◌∷◌, ◌++◌, ◌≡◌, ◌≢◌, refl, sym, ap,
  ◌∙◌, arith, ltb, ◌==◌, Bytes, length, take, All, length-drop, length-take, append-nil, ltb→lt,
  Bool-cases, inl, inr,
}
use mathlib.Core.Path.{subst}
use dudlc.Cstring.{c_string}
use dudlc.Sock.{
  Sock, Recv, arrived, failed, buf_len_rcv, left_over, receive, next_recv, sock_recv, line_span,
  cut_line, next_line, sock_getline, freeline,
}
use dudlc.Sock.Buffer.{IsValid, unread, unread_start, sock_recv-IsValid, sock_getline-IsValid}
use dudlc.Sock.OneLine.{IsFresh, line_span-line, line_span_full, same_line}
use dudlc.Sock.Split.{IsOneLine}
use dudlc.Sock.Lines.{Hands, pending, script_bytes, sock_recv-pending, sock_getline-Hands}
use dudlc.Sock.Progress.{Taken, sock_getline-Outcome, sock_recv-Taken}

-- Every piece that recv is to give has a byte in it, and recv does not fail.
abbrev pub IsPiece : Recv → Type 0
IsPiece (arrived bs) = 0 < length bs
IsPiece failed = ⊥

-- An open connection on which `bytes` are still to be handed out.
pub record Brings (s : Sock) (bytes : Bytes) : Type 0 where
  pub valid : IsValid s
  pub open_now : s.is_open ≡ true
  pub pieces : All IsPiece s.script
  pub to_come : pending s ≡ bytes

sock_getline-script :
    (s : Sock) (r : Option Bytes × Sock) → sock_getline s ≡ some r → r.1.script ≡ s.script
unfolding sock_getline freeline next_line cut_line
sock_getline-script s r h = ground arith

sock_getline-none :
    (s t : Sock) → sock_getline s ≡ some (none, t) → line_span (unread t) ≡ length (unread t)
unfolding sock_getline freeline next_line cut_line unread line_span
sock_getline-none s t h = ground arith

-- The connection behind the line.
Brings-after :
    (s t : Sock) (line l rest : Bytes)
    → Brings s (l ++ b'\n' ∷ rest)
    → IsOneLine l
    → IsFresh rest
    → line_span (unread s) < buf_len_rcv - 1
    → sock_getline s ≡ some (some line, t)
    → Hands s (some line, t)
    → (c_string line ≡ l) × Brings t rest
Brings-after s t line l rest b o f short e (sep, p, is_sep, one, _) =
    let same =
      same_line (c_string line) l sep (pending t) rest one o is_sep f (sym b.to_come ∙ p) in
    let (line', t', e', v) = sock_getline-IsValid s b.valid short in
    let h : t' ≡ t = cc in
    (
      same.0,
      record {
        valid = subst IsValid h v;
        open_now = (sock_getline-Outcome s (some line, t) e).same_open ∙ b.open_now;
        pieces = subst (All IsPiece) (sym (sock_getline-script s (some line, t) e)) b.pieces;
        to_come = same.1;
      },
    )

IsPiece-left_over :
    (room : ℕ) (bs : Bytes) (later : List Recv)
    → All IsPiece later
    → All IsPiece (left_over room bs later)
IsPiece-left_over room bs later h = elim (Bool-cases (ltb room (length bs))) [
  | inl more ↦ rw more (omega (arith, length-drop room bs, ltb→lt room (length bs) more), h)
  | inr all ↦ rw all h
]

-- What a receive comes to while there is room, and a piece with a byte in it to come.
abbrev Received : Sock → Type 0
Received s = (u : Sock) × (sock_recv s ≡ (true, u)) × All IsPiece u.script

receive_some :
    (s : Sock) (l : List Recv)
    → s.is_open ≡ true
    → length s.buf < buf_len_rcv - 1
    → All IsPiece l
    → s.script ≡ l
    → l ≢ []
    → Received s
unfolding sock_recv next_recv receive
receive_some s [] o room h e ne = absurd (ne refl)
receive_some s (failed ∷ later) o room h e ne = absurd h.0
receive_some s (arrived bs ∷ later) o room h e ne =
    let n = buf_len_rcv - length s.buf - 1 in
    let some_bytes : 0 < length (take n bs) = omega (arith, length-take n bs, h.0) in
    let t = record s { buf = s.buf ++ take n bs; script = left_over n bs later } in
    (t, ground arith, IsPiece-left_over n bs later h.1)

-- A line that is handed out ends in a 0.
abbrev IsClosed : Option Bytes × Sock → Type 0
IsClosed (none, t) = Unit
IsClosed (some line, t) = (front : Bytes) × (line ≡ front ++ 0 ∷ [])

next_line-IsClosed : (s : Sock) → IsClosed (next_line s)
unfolding next_line cut_line
next_line-IsClosed s = elim (Bool-cases (length s.buf == 0)) [
  | inl e ↦ rw e tt
  | inr e ↦
      elim (Bool-cases
        (line_span s.buf == length s.buf && ltb (line_span s.buf) (buf_len_rcv - 1))) [
          | inl f ↦ rw (e, f) tt
          | inr f ↦ rw (e, f) (set s.buf (line_span s.buf) 0, refl)
        ]
]

freed_line-IsClosed :
    (freed : Option Sock) (s : Sock) (r : Option Bytes × Sock)
    → freeline s ≡ freed
    → sock_getline s ≡ some r
    → IsClosed r
unfolding sock_getline
freed_line-IsClosed none s r f e = cc
freed_line-IsClosed (some t) s r f e =
    let same : next_line t ≡ r = ground arith in subst IsClosed same (next_line-IsClosed t)

sock_getline-IsClosed : (s : Sock) (r : Option Bytes × Sock) → sock_getline s ≡ some r → IsClosed r
sock_getline-IsClosed s r e = freed_line-IsClosed (freeline s) s r refl e

-- One round of a loop that takes a line out or fetches some bytes: what it makes of a connection that
-- brings the line `l`, and `rest` behind it.
pub data Round (s : Sock) (l rest : Bytes) : Type 0 where
  handed :
      (line : Bytes) (t : Sock)
      → sock_getline s ≡ some (some line, t)
      → c_string line ≡ l
      → (front : Bytes) × (line ≡ front ++ 0 ∷ [])
      → Brings t rest
      → Taken s t
      → Round s l rest
  fetched :
      (t u : Sock)
      → sock_getline s ≡ some (none, t)
      → sock_recv t ≡ (true, u)
      → Brings u (l ++ b'\n' ∷ rest)
      → Taken s u
      → Round s l rest

script-set :
    (t : Sock) (l rest : Bytes)
    → IsOneLine l
    → pending t ≡ l ++ b'\n' ∷ rest
    → line_span (unread t) ≡ length (unread t)
    → t.script ≢ []
script-set t l rest o e none_in empty =
    let whole : unread t ≡ l ++ b'\n' ∷ rest =
      sym (append-nil (unread t)) ∙ ap (λ k. unread t ++ script_bytes k) (sym empty) ∙ e in
    let h = line_span_full l (unread t) rest o whole in omega (arith, h, none_in)

module _ (s t : Sock) (l rest : Bytes) (b : Brings s (l ++ b'\n' ∷ rest)) (o : IsOneLine l)
    (fits : length l < buf_len_rcv - 1) (e : sock_getline s ≡ some (none, t)) (v : IsValid t)
    (same : pending t ≡ pending s) where
  buf_room : length t.buf < buf_len_rcv - 1
  buf_room =
      let k = sock_getline-Outcome s (none, t) e in
      let upto = line_span-line l (unread t) (script_bytes t.script) rest o (same ∙ b.to_come) in
      let whole = sock_getline-none s t e in
      let start : length (unread t) ≡ length t.buf = ap length (unread_start t k.none_out) in
      omega (arith, upto, whole, start, fits)

  getline_then_recv : Round s l rest
  getline_then_recv =
      let k = sock_getline-Outcome s (none, t) e in
      let pieces = subst (All IsPiece) (sym (sock_getline-script s (none, t) e)) b.pieces in
      let set = script-set t l rest o (same ∙ b.to_come) (sock_getline-none s t e) in
      let (u, r, more) =
        receive_some t t.script (k.same_open ∙ b.open_now) buf_room pieces refl set in
      let taken = sock_recv-Taken t u k.none_out r in
      let valid : IsValid (sock_recv t).1 = sock_recv-IsValid v in
      fetched t u e r
        (record {
          valid = subst (λ q. IsValid q.1) r valid;
          open_now = taken.same_open ∙ k.same_open ∙ b.open_now;
          pieces = more;
          to_come = (sock_recv-pending t u v r).0 ∙ same ∙ b.to_come;
        })
        (record {
          fewer = omega (arith, taken.fewer, k.same_rounds);
          same_open = taken.same_open ∙ k.same_open;
        })

module _ (s : Sock) (l rest : Bytes) (b : Brings s (l ++ b'\n' ∷ rest)) (o : IsOneLine l)
    (f : IsFresh rest) (fits : length l < buf_len_rcv - 1) where
  line_short : line_span (unread s) < buf_len_rcv - 1
  line_short =
      omega (arith, fits, line_span-line l (unread s) (script_bytes s.script) rest o b.to_come)

  getline_cases : (r : Option Bytes × Sock) → sock_getline s ≡ some r → Hands s r → Round s l rest
  getline_cases (some line, t) e h =
      let (same, after) = Brings-after s t line l rest b o f line_short e h in
      handed line t e same (sock_getline-IsClosed s (some line, t) e) after
        (sock_getline-Outcome s (some line, t) e)
  getline_cases (none, t) e h =
      let (line', t', e', v) = sock_getline-IsValid s b.valid line_short in
      let same : t' ≡ t = cc in getline_then_recv s t l rest b o fits e (subst IsValid same v) h

  -- A round hands the line out just as it was sent, or it lessens what is left to read.
  pub line_or_piece : Round s l rest
  line_or_piece = let (r, e, h) = sock_getline-Hands s b.valid line_short in getline_cases r e h
