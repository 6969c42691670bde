-- ===== src/Iterate/Whole.antt =====
-- How `_duc_it_newv` of lib/iterate.c ends, and what it leaves in the session.
use dudlc.Shared.{
  ℕ, zero, suc, ◌<◌, Bool, true, false, Option, none, some, [], ◌∷◌, ◌++◌, ◌≡◌, sym, ◌==◌,
  if◌then◌else◌, arith, Bytes, Bool-cases, inl, inr, refl,
}
use mathlib.Core.Path.{subst}
use dudlc.Cstring.{Parsed, got, refused, stray, Parser}
use dudlc.Sock.Progress.{rounds}
use dudlc.Event.{char_at}
use dudlc.Session.{Dudlc}
use dudlc.Session.Run.{Ends, returns, faults, Ends-bind, Ends-map, ◌>>=◌}
use dudlc.Proto.{M, Next, another, broken, over, rnext, rlast}
use dudlc.Proto.Last.{HasReply, LastEnd, last_loop-LastEnds, NextEnd, Advanced, rnext-NextEnds}
use dudlc.Request.{vsend, unless_failed}
use dudlc.Request.Idle.{Sent, vsend-Sent, code_digit_lem, first_digit}
use dudlc.Open.{duc_open}
use dudlc.Open.Ready.{duc_open-Opened}
use dudlc.Iterate.{Rows, abandon, go_on, take_row, row_of, rows_loop, begin_rows, it_newv}

-- No reply is awaited, whatever comes back.
abbrev pub Idle : {A : Type 0} → A → Dudlc → Type 0
Idle a q = q.inreply ≡ false

LastEnd-Idle : (p : Dudlc) (b : Bool) (q : Dudlc) → LastEnd p b q → Idle b q
LastEnd-Idle p true q h = h.idle
LastEnd-Idle p false q h = h.idle

rlast-Idle : (p : Dudlc) → HasReply p → Ends Idle (rlast p)
unfolding rlast
rlast-Idle p h =
    Ends-map (last_loop-LastEnds (suc (suc (rounds p.con))) p (omega arith) (λ _. h))
      (LastEnd-Idle p)

module _ {A : Type 0} where
  abandon-Idle : (p : Dudlc) → HasReply p → Ends (Idle {A = Option (Rows A)}) (abandon p)
  unfolding abandon
  abandon-Idle p h = Ends-bind rlast _ p (rlast-Idle p h) λ b q i. returns i

  -- The loop ends well from every session that has a reply's line and less left to read than `p`.
  abbrev Onwards : Dudlc → (Rows A → M (Option (Rows A))) → Type 0
  Onwards p again = (rows : Rows A) (q : Dudlc) → Advanced p q → Ends Idle (again rows q)

  go_on-Idle :
      (rows : Rows A) (again : Rows A → M (Option (Rows A))) (p : Dudlc)
      → Onwards p again
      → (r : Next) (q : Dudlc) → NextEnd p r q
      → Ends Idle (go_on rows again r q)
  unfolding go_on
  go_on-Idle rows again p ends another q h = ends rows q h
  go_on-Idle rows again p ends broken q h = returns h.idle
  go_on-Idle rows again p ends over q h = returns (subst (Idle tt) (sym h.1) h.0)

  row_kept :
      (rows : Rows A) (again : Rows A → M (Option (Rows A))) (p : Dudlc)
      → HasReply p
      → Onwards p again
      → (b : Bool) → Ends Idle ((if b then rnext >>= go_on rows again else abandon) p)
  row_kept rows again p h ends true =
      Ends-bind rnext (go_on rows again) p (rnext-NextEnds p) (go_on-Idle rows again p ends)
  row_kept rows again p h ends false = abandon-Idle p h

  take_row-Idle :
      (l : Bytes) (r : Parsed A) (rows : Rows A) (again : Rows A → M (Option (Rows A))) (p : Dudlc)
      → HasReply p
      → Onwards p again
      → Ends Idle (take_row l r rows again p)
  unfolding take_row
  take_row-Idle l (got row end) rows again p h ends =
      row_kept (rows ++ some row ∷ []) again p h ends (char_at end 0 == 0)
  take_row-Idle l refused rows again p h ends =
      row_kept (rows ++ none ∷ []) again p h ends (char_at l 0 == 0)
  take_row-Idle l stray rows again p h ends = faults (cc)

  row_of-Idle :
      (conv : Parser A) (l : Option Bytes) (rows : Rows A) (again : Rows A → M (Option (Rows A)))
      (p : Dudlc)
      → HasReply p
      → Onwards p again
      → Ends Idle (row_of conv l rows again p)
  unfolding row_of
  row_of-Idle conv none rows again p h ends = abandon-Idle p h
  row_of-Idle conv (some l) rows again p h ends = take_row-Idle l (conv l) rows again p h ends

  rows_loop-Idle :
      (n : ℕ) (conv : Parser A) (rows : Rows A) (p : Dudlc)
      → rounds p.con < n
      → HasReply p
      → Ends Idle (rows_loop n conv rows p)
  unfolding rows_loop
  rows_loop-Idle zero conv rows p h reply = absurd (omega arith)
  rows_loop-Idle (suc n) conv rows p h reply =
      row_of-Idle conv p.line rows (rows_loop n conv) p reply
        (λ more q a. rows_loop-Idle n conv more q (omega (arith, a.fewer)) a.reply)

  begin_rows-Idle :
      (conv : Parser A) (p : Dudlc) (r : Next) (q : Dudlc)
      → (r ≡ over → q.inreply ≡ false)
      → NextEnd p r q
      → Ends Idle (begin_rows conv r q)
  unfolding begin_rows
  begin_rows-Idle conv p another q _ h =
      rw (code_digit_lem q h.reply, begin_rows, ◌>>=◌)
        (elim (Bool-cases (first_digit q == b'5')) [
          | inl five ↦ rw five (abandon-Idle q h.reply)
          | inr fine ↦ rw fine (rows_loop-Idle (suc (rounds q.con)) conv [] q (omega arith) h.reply)
        ])
  begin_rows-Idle conv p broken q _ h = returns h.idle
  begin_rows-Idle conv p over q idle h = returns (idle refl)

  submitted-Idle :
      (conv : Parser A) (b : Bool) (q : Dudlc)
      → Sent b q
      → Ends (Idle {A = Option (Rows A)}) ((unless_failed b rnext broken >>= begin_rows conv) q)
  unfolding begin_rows
  submitted-Idle conv true q h =
      Ends-bind rnext (begin_rows conv) q (rnext-NextEnds q)
        λ r t n. begin_rows-Idle conv q r t (λ e. next_idle r t n e) n
    where
      next_idle : (r : Next) (t : Dudlc) → NextEnd q r t → r ≡ over → t.inreply ≡ false
      next_idle another t n e = cc
      next_idle broken t n e = n.idle
      next_idle over t n e = subst (Idle tt) (sym n.1) n.0
  submitted-Idle conv false q h = returns h

  -- From a session that awaits no reply, `_duc_it_newv` ends, with any converter, whatever the network
  -- does and the server sends: by a fault that is no read through NULL, or it returns, with no reply
  -- awaited.
  pub it_newv-Idle :
      (conv : Parser A) (p : Dudlc)
      → p.inreply ≡ false
      → (text : Bytes) → Ends (Idle {A = Option (Rows A)}) (it_newv duc_open conv text p)
  unfolding it_newv
  it_newv-Idle conv p i text =
      Ends-bind (vsend duc_open text) _ p
        (vsend-Sent duc_open (λ q. Unit {0}) (λ q h u. duc_open-Opened q h) p i tt text)
        (submitted-Idle conv)
