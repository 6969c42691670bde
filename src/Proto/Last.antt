-- ===== src/Proto/Last.antt =====
-- How `_duc_rnext` and `_duc_rlast` of lib/proto.c end, and what a reply leaves in the session.
use dudlc.Shared.{
  ℕ, zero, suc, ◌+◌, ◌≤◌, ◌<◌, Bool, true, false, Option, none, some, [], ◌∷◌, ◌≡◌, ◌≢◌, refl, sym,
  ◌∙◌, arith, Bytes, length, Bool-cases, inl, inr, take,
}
use mathlib.Core.Path.{subst}
use dudlc.Cstring.{c_string}
use dudlc.Sock.Progress.{rounds}
use dudlc.Session.{Dudlc}
use dudlc.Session.Run.{Run, Ends, returns, faults, Ends-bind, Ends-map}
use dudlc.Proto.{
  next_loop, accept_line, after_loop, rnext, last_loop, rlast, Next, another, broken, over,
  bytes_equal,
}
use dudlc.Proto.Replies.{Closed, duc_close-Closed, Read, LoopEnd, next_loop-LoopEnds}

-- `_duc_rcode` and `_duc_rline` are not NULL.
pub record HasReply (p : Dudlc) : Type 0 where
  pub code_set : p.code ≢ []
  pub line_set : p.line ≢ none

true-ne-false : ¬ (◌≡◌ {A = Bool} true false)
true-ne-false e = cc

-- What `_duc_rnext` may come to: a line, and less is left to read; a closed connection; or, at the
-- end of a reply and only there, nothing.
pub record Advanced (p q : Dudlc) : Type 0 where
  pub fewer : rounds q.con < rounds p.con
  pub same_open : q.con.is_open ≡ p.con.is_open
  pub reply : HasReply q
  pub code_kept : p.code ≢ [] → q.code ≡ p.code

abbrev pub NextEnd : Dudlc → Next → Dudlc → Type 0
NextEnd p another q = Advanced p q
NextEnd p broken q = Closed q
NextEnd p over q = (p.inreply ≡ false) × (q ≡ p)

abbrev pub NextEnds : Dudlc → Run Dudlc Next → Type 0
NextEnds p = Ends (NextEnd p)

code_of_long : (l : Bytes) → 4 ≤ length (c_string l) → take 3 l ≢ []
unfolding c_string
code_of_long [] h = absurd (omega arith)
code_of_long (c ∷ l) h = cc

accept_line-NextEnds :
    (l : Bytes) (p q : Dudlc) (code : Bytes)
    → q.code ≡ code
    → Read p l q
    → NextEnds p (accept_line l q)
unfolding accept_line
accept_line-NextEnds l p q [] e r =
    rw (e, accept_line)
      (returns (record {
        fewer = r.fewer;
        same_open = r.same_open;
        reply = record { code_set = code_of_long l r.long; line_set = cc };
        code_kept = λ set. absurd (set (sym r.same_code ∙ e));
      }))
accept_line-NextEnds l p q (c ∷ cs) e r = elim (Bool-cases (bytes_equal (c ∷ cs) (take 3 l))) [
  | inl same ↦
      rw (e, accept_line, same)
        (returns (record {
          fewer = r.fewer;
          same_open = r.same_open;
          reply = record { code_set = rw e (cc); line_set = cc };
          code_kept = λ set. r.same_code;
        }))
  | inr other ↦ rw (e, accept_line, other) (returns (duc_close-Closed _))
]

after_loop-NextEnds :
    (p : Dudlc) (r : Option Bytes) (q : Dudlc) → LoopEnd p r q → NextEnds p (after_loop r q)
unfolding after_loop
after_loop-NextEnds p (some l) q h = accept_line-NextEnds l p q q.code refl h
after_loop-NextEnds p none q h = returns h

pub rnext-NextEnds : (p : Dudlc) → NextEnds p (rnext p)
unfolding rnext
rnext-NextEnds p = elim (Bool-cases p.inreply) [
  | inl e ↦
      rw (e, rnext)
        (let q = record p { inreply = true } in
          let n = suc (rounds p.con) in
          Ends-bind (next_loop n) after_loop q (next_loop-LoopEnds n q (omega arith))
            (after_loop-NextEnds q))
  | inr e ↦ rw (e, rnext) (returns (refl, refl))
]

-- How reading up to the last line may end: with the whole reply read, its code and its last line at
-- hand, on the same connection; or with the connection closed.
pub record Complete (p q : Dudlc) : Type 0 where
  pub idle : q.inreply ≡ false
  pub reply : HasReply q
  pub same_open : q.con.is_open ≡ p.con.is_open

abbrev pub LastEnd : Dudlc → Bool → Dudlc → Type 0
LastEnd p true q = Complete p q
LastEnd p false q = Closed q

abbrev pub LastEnds : Dudlc → Run Dudlc Bool → Type 0
LastEnds p = Ends (LastEnd p)

Advanced-LastEnd :
    (p q : Dudlc) → Advanced p q → (b : Bool) (t : Dudlc) → LastEnd q b t → LastEnd p b t
Advanced-LastEnd p q a true t h = record {
  idle = h.idle;
  reply = h.reply;
  same_open = h.same_open ∙ a.same_open;
}
Advanced-LastEnd p q a false t h = h

last_loop_step :
    (n : ℕ) (p : Dudlc) {r : Run Dudlc Next}
    → rnext p ≡ r
    → NextEnds p r
    → (p.inreply ≡ false → HasReply p)
    → ((q : Dudlc) → Advanced p q → LastEnds q (last_loop n q))
    → LastEnds p (last_loop (suc n) p)
unfolding last_loop
last_loop_step n p e (returns {a = another} {s = q} h) at_end again =
    rw (e, last_loop) (Ends-map (again q h) (Advanced-LastEnd p q h))
last_loop_step n p e (returns {a = broken} h) at_end again = rw (e, last_loop) (returns h)
last_loop_step n p e (returns {a = over} {s = q} h) at_end again =
    let stays : Complete p p = record { idle = h.0; reply = at_end h.0; same_open = refl } in
    rw (e, last_loop) (returns (subst (Complete p) (sym h.1) stays))
last_loop_step n p e (faults h) at_end again = rw (e, last_loop) (faults h)

pub last_loop-LastEnds :
    (n : ℕ) (p : Dudlc)
    → rounds p.con + 1 < n
    → (p.inreply ≡ false → HasReply p)
    → LastEnds p (last_loop n p)
last_loop-LastEnds zero p h at_end = absurd (omega arith)
last_loop-LastEnds (suc n) p h at_end =
    last_loop_step n p refl (rnext-NextEnds p) at_end
      (λ q a. last_loop-LastEnds n q (omega (arith, a.fewer)) (λ _. a.reply))

-- While a reply is awaited, `_duc_rlast` ends, whatever the server sends and however the bytes are
-- cut into pieces: with the last line read, a code and a line at hand and no reply awaited on the
-- same connection; or with the session closed and reset; or by a fault that is no read through NULL.
pub rlast-LastEnds : (p : Dudlc) → p.inreply ≡ true → LastEnds p (rlast p)
unfolding rlast
rlast-LastEnds p e =
    last_loop-LastEnds (suc (suc (rounds p.con))) p (omega arith)
      (λ f. absurd (true-ne-false (sym e ∙ f)))
