-- ===== src/Proto/Replies.antt =====
-- How the loop of `_duc_rnext` of lib/proto.c ends, and what it leaves in the session.
use dudlc.Shared.{
  ℕ, zero, suc, ◌≤◌, ◌<◌, Bool, true, false, Option, none, some, [], ◌≡◌, ◌≢◌, refl, ◌∙◌, arith,
  ltb, ◌==◌, Bytes, length, Bool-cases, Option-cases, inl, inr,
}
use mathlib.Core.Path.{subst}
use dudlc.Cstring.{c_string}
use dudlc.Sock.{Sock, sock_disconnect, sock_getline, sock_recv}
use dudlc.Sock.Progress.{rounds, sock_getline-Outcome, sock_recv-Taken, Kept, Taken}
use dudlc.Event.{Event, char_at, Reaction, calls, silent, overread, reaction}
use dudlc.Session.{Dudlc, Handlers, emit_to, emit, duc_close, react, bcast_line}
use dudlc.Session.Run.{Run, Ends, returns, faults, Ends-map}
use dudlc.Proto.{sort_line, fetch, round, next_loop}

-- A session with no connection and no reply to wait for.
pub record Closed (q : Dudlc) : Type 0 where
  pub shut : q.con.is_open ≡ false
  pub idle : q.inreply ≡ false
  pub no_code : q.code ≡ []
  pub no_line : q.line ≡ none

-- A session that has read on, in the same reply.
pub record Later (p q : Dudlc) : Type 0 where
  pub left : rounds q.con ≤ rounds p.con
  pub same_open : q.con.is_open ≡ p.con.is_open
  pub same_inreply : q.inreply ≡ p.inreply
  pub same_code : q.code ≡ p.code

emit_to-Later : (h : Option Handlers) (e : Event) (p : Dudlc) → Later p (emit_to h e p)
unfolding emit_to
emit_to-Later none e p = ground arith
emit_to-Later (some handled) e p = ground arith

emit_to-Closed : (h : Option Handlers) (e : Event) (p : Dudlc) → Closed p → Closed (emit_to h e p)
unfolding emit_to
emit_to-Closed none e p c = c
emit_to-Closed (some handled) e p c = ground arith

sock_disconnect-shut : (s : Sock) → (sock_disconnect s).is_open ≡ false
unfolding sock_disconnect
sock_disconnect-shut s = ground arith

pub duc_close-Closed : (p : Dudlc) → Closed (duc_close p)
unfolding duc_close emit
duc_close-Closed p =
    emit_to-Closed p.ev _ _
      (record { shut = sock_disconnect-shut p.con; idle = refl; no_code = refl; no_line = refl })

Later-refl : (p : Dudlc) → Later p p
Later-refl p = record {
  left = omega arith;
  same_open = refl;
  same_inreply = refl;
  same_code = refl;
}

react-Later : (r : Reaction) (p q : Dudlc) → react r p ≡ some q → Later p q
unfolding react emit
react-Later (calls e) p q h =
    let same : emit_to p.ev e p ≡ q = cc in subst (Later p) same (emit_to-Later p.ev e p)
react-Later silent p q h = let same : p ≡ q = cc in subst (Later p) same (Later-refl p)
react-Later overread p q h = cc

-- A broadcast changes nothing of the reply that it comes in between.
pub bcast_line-Later : (l : Bytes) (p q : Dudlc) → bcast_line l p ≡ some q → Later p q
unfolding bcast_line
bcast_line-Later l p q h = react-Later (reaction l) p q h

-- How the loop of `_duc_rnext` may end.
pub record Read (p : Dudlc) (l : Bytes) (q : Dudlc) : Type 0 where
  pub fewer : rounds q.con < rounds p.con
  pub same_open : q.con.is_open ≡ p.con.is_open
  pub same_inreply : q.inreply ≡ p.inreply
  pub same_code : q.code ≡ p.code
  pub long : 4 ≤ length (c_string l)
  pub reply : char_at l 0 ≢ b'6'

abbrev pub LoopEnd : Dudlc → Option Bytes → Dudlc → Type 0
LoopEnd p (some l) q = Read p l q
LoopEnd p none q = Closed q

abbrev pub LoopEnds : Dudlc → Run Dudlc (Option Bytes) → Type 0
LoopEnds p = Ends (LoopEnd p)

Later-LoopEnd :
    (p q : Dudlc) → Later p q → (r : Option Bytes) (t : Dudlc) → LoopEnd q r t → LoopEnd p r t
Later-LoopEnd p q k (some l) t h = record {
  fewer = omega (arith, k.left, h.fewer);
  same_open = h.same_open ∙ k.same_open;
  same_inreply = h.same_inreply ∙ k.same_inreply;
  same_code = h.same_code ∙ k.same_code;
  long = h.long;
  reply = h.reply;
}
Later-LoopEnd p q k none t h = h

Later-LoopEnds :
    (p q : Dudlc) (r : Run Dudlc (Option Bytes)) → Later p q → LoopEnds q r → LoopEnds p r
Later-LoopEnds p q r k h = Ends-map h (Later-LoopEnd p q k)

-- A session that is `p` but for the connection, which has been read from.
Taken-Later : (p : Dudlc) (con : Sock) → Taken p.con con → Later p (record p { con = con })
Taken-Later p con t = record {
  left = omega (arith, t.fewer);
  same_open = t.same_open;
  same_inreply = refl;
  same_code = refl;
}

module _ (p : Dudlc) (again : Dudlc → Run Dudlc (Option Bytes)) where
  -- The rounds that follow end well from every session with less left to read.
  abbrev Onwards : Type 0
  Onwards = (q : Dudlc) → rounds q.con < rounds p.con → LoopEnds q (again q)

  again-LoopEnds :
      (con : Sock) (q : Dudlc)
      → Onwards
      → Taken p.con con
      → Later (record p { con = con }) q
      → LoopEnds p (again q)
  again-LoopEnds con q ends t k =
      let from_con =
        Later-LoopEnds (record p { con = con }) q (again q) k
          (ends q (omega (arith, k.left, t.fewer))) in
      Later-LoopEnds p (record p { con = con }) (again q) (Taken-Later p con t) from_con

  sort_line-LoopEnds :
      (l : Bytes) (con : Sock)
      → Onwards
      → Taken p.con con
      → LoopEnds p (sort_line l again (record p { con = con }))
  unfolding sort_line
  sort_line-LoopEnds l con ends t =
      let q = record p { con = con } in
      elim (Bool-cases (ltb (length (c_string l)) 4)) [
        | inl short ↦ rw short (returns (duc_close-Closed q))
        | inr long ↦ elim (Bool-cases (char_at l 0 == b'6')) [
          | inl six ↦ elim (Option-cases (bcast_line l q)) [
            | inl lost ↦ rw (long, six, lost) (faults (cc))
            | inr (q', e) ↦
                rw (long, six, e) (again-LoopEnds con q' ends t (bcast_line-Later l q q' e))
          ]
          | inr other ↦
              rw (long, other)
                (returns (record {
                  fewer = t.fewer;
                  same_open = t.same_open;
                  same_inreply = refl;
                  same_code = refl;
                  long = ground arith;
                  reply = ground arith;
                }))
        ]
      ]

  fetch-LoopEnds :
      (con : Sock) (r : Bool × Sock)
      → Onwards
      → Kept p.con con
      → sock_recv con ≡ r
      → LoopEnds p (fetch r again (record p { con = con }))
  unfolding fetch
  fetch-LoopEnds con (false, s) ends k e = returns (duc_close-Closed (record p { con = s }))
  fetch-LoopEnds con (true, s) ends k e =
      let t = sock_recv-Taken con s k.none_out e in
      let taken : Taken p.con s = record {
        fewer = omega (arith, t.fewer, k.same_rounds);
        same_open = t.same_open ∙ k.same_open;
      } in
      again-LoopEnds s (record p { con = s }) ends taken (Later-refl (record p { con = s }))

  round-LoopEnds :
      (r : Option (Option Bytes × Sock))
      → Onwards
      → sock_getline p.con ≡ r
      → LoopEnds p (round r again p)
  unfolding round
  round-LoopEnds none ends e = faults (cc)
  round-LoopEnds (some (some l, con)) ends e =
      sort_line-LoopEnds l con ends (sock_getline-Outcome p.con (some l, con) e)
  round-LoopEnds (some (none, con)) ends e =
      fetch-LoopEnds con (sock_recv con) ends (sock_getline-Outcome p.con (none, con) e) refl

pub next_loop-LoopEnds : (n : ℕ) (p : Dudlc) → rounds p.con < n → LoopEnds p (next_loop n p)
unfolding next_loop
next_loop-LoopEnds zero p h = absurd (omega arith)
next_loop-LoopEnds (suc n) p h =
    round-LoopEnds p (next_loop n) (sock_getline p.con)
      (λ q lt. next_loop-LoopEnds n q (omega arith)) refl
