-- ===== src/Proto/Wire.antt =====
-- `_duc_rlast` of lib/proto.c, and what has been put on the wire.
use dudlc.Shared.{
  ℕ, zero, suc, Bool, true, false, not, Option, none, some, List, [], ◌∷◌, ◌≡◌, refl, sym, ap, ◌∙◌,
  arith, ltb, ◌==◌, if◌then◌else◌, Bytes, length, take, drop,
}
use dudlc.Cstring.{c_string}
use dudlc.Sock.{
  Sock, Recv, arrived, failed, sock_disconnect, receive, next_recv, sock_recv, freeline, cut_line,
  next_line, sock_getline,
}
use dudlc.Sock.Progress.{rounds}
use dudlc.Event.{Event, char_at, Reaction, calls, silent, overread, reaction}
use dudlc.Session.{Dudlc, Handlers, emit_to, emit, duc_close, react, bcast_line}
use dudlc.Session.Run.{Run, Fault, done, fault, spent, ◌>>=◌}
use dudlc.Proto.{
  M, Next, another, broken, over, sort_line, fetch, round, next_loop, bytes_equal, accept_line,
  after_loop, rnext, last_loop, rlast,
}

-- Where it returns, `sent` is what has been put on the wire.
data Leaves {A : Type 0} (sent : List Bytes) : Run Dudlc A → Type 0 where
  leaves : (a : A) (q : Dudlc) → q.con.sent ≡ sent → Leaves sent (done a q)
  stops : (why : Fault) → Leaves sent (fault why)
  runs_out : Leaves sent spent

-- An action that puts nothing on the wire.
abbrev Quiet : {A : Type 0} → List Bytes → M A → Type 0
Quiet sent m = (p : Dudlc) → p.con.sent ≡ sent → Leaves sent (m p)

module _ {A B : Type 0} where
  bind_run-Leaves :
      {sent : List Bytes} {r : Run Dudlc A} (f : A → M B) (p : Dudlc)
      → Leaves sent r
      → ((a : A) → Quiet sent (f a))
      → Leaves sent (◌>>=◌ (λ _. r) f p)
  bind_run-Leaves f p (leaves a q e) h = h a q e
  bind_run-Leaves f p (stops why) h = stops why
  bind_run-Leaves f p runs_out h = runs_out

if-Leaves :
    {A : Type 0} {sent : List Bytes} (b : Bool) {x y : Run Dudlc A}
    → Leaves sent x
    → Leaves sent y
    → Leaves sent (if b then x else y)
if-Leaves true hx hy = hx
if-Leaves false hx hy = hy

emit_to-con : (h : Option Handlers) (e : Event) (p : Dudlc) → (emit_to h e p).con ≡ p.con
unfolding emit_to
emit_to-con none e p = refl
emit_to-con (some handled) e p = ground arith

sock_disconnect-sent : (s : Sock) → (sock_disconnect s).sent ≡ s.sent
unfolding sock_disconnect
sock_disconnect-sent s = ground arith

duc_close-sent : (p : Dudlc) → (duc_close p).con.sent ≡ p.con.sent
unfolding duc_close emit
duc_close-sent p = ap (λ (s : Sock). s.sent) (emit_to-con p.ev _ _) ∙ sock_disconnect-sent p.con

next_recv-sent : (l : List Recv) (s : Sock) → (next_recv l s).1.sent ≡ s.sent
unfolding next_recv receive
next_recv-sent [] s = refl
next_recv-sent (failed ∷ later) s = refl
next_recv-sent (arrived bs ∷ later) s = ground (arith, sock_disconnect-sent s)

sock_recv-sent : (s : Sock) → (sock_recv s).1.sent ≡ s.sent
unfolding sock_recv
sock_recv-sent s = ground (arith, next_recv-sent s.script s)

next_line-sent : (s : Sock) → (next_line s).1.sent ≡ s.sent
unfolding next_line cut_line
next_line-sent s = ground arith

freeline-sent : (s t : Sock) → freeline s ≡ some t → t.sent ≡ s.sent
unfolding freeline
freeline-sent s t h = ground arith

freed_line-sent :
    (o : Option Sock) (r : Option Bytes × Sock) (sent : List Bytes)
    → ((t : Sock) → o ≡ some t → t.sent ≡ sent)
    → elim o [ none ↦ none | some t ↦ some (next_line t) ] ≡ some r
    → r.1.sent ≡ sent
freed_line-sent none r sent k h = cc
freed_line-sent (some t) r sent k h =
    let same : next_line t ≡ r = cc in
    ap (λ (q : Option Bytes × Sock). q.1.sent) (sym same) ∙ next_line-sent t ∙ k t refl

sock_getline-sent :
    (s : Sock) (r : Option Bytes × Sock) → sock_getline s ≡ some r → r.1.sent ≡ s.sent
unfolding sock_getline
sock_getline-sent s r h = freed_line-sent (freeline s) r s.sent (λ t e. freeline-sent s t e) h

react-sent : (r : Reaction) (p q : Dudlc) → react r p ≡ some q → q.con.sent ≡ p.con.sent
unfolding react emit
react-sent (calls e) p q h =
    let same : emit_to p.ev e p ≡ q = cc in
    ap (λ (t : Dudlc). t.con.sent) (sym same) ∙ ap (λ (s : Sock). s.sent) (emit_to-con p.ev e p)
react-sent silent p q h = cc
react-sent overread p q h = cc

module _ (sent : List Bytes) where
  closed-Leaves :
      {A : Type 0} (a : A) (p : Dudlc) → p.con.sent ≡ sent → Leaves sent (done a (duc_close p))
  closed-Leaves a p e = leaves a (duc_close p) (duc_close-sent p ∙ e)

  cast-Leaves :
      (o : Option Dudlc) (again : M (Option Bytes))
      → ((q : Dudlc) → o ≡ some q → q.con.sent ≡ sent)
      → Quiet sent again
      → Leaves sent (elim o [ none ↦ fault Fault.overread | some q ↦ again q ])
  cast-Leaves none again h k = stops _
  cast-Leaves (some q) again h k = k q (h q refl)

  sort_line-Quiet :
      (l : Bytes) (again : M (Option Bytes)) → Quiet sent again → Quiet sent (sort_line l again)
  unfolding sort_line bcast_line
  sort_line-Quiet l again k p e = if-Leaves (ltb (length (c_string l)) 4) (closed-Leaves none p e) (
      if-Leaves (not (char_at l 0 == b'6')) (leaves (some l) p e)
        (cast-Leaves (bcast_line l p) again (λ q h. react-sent (reaction l) p q h ∙ e) k))

  fetch-Quiet :
      (r : Bool × Sock) (again : M (Option Bytes))
      → r.1.sent ≡ sent
      → Quiet sent again
      → (p : Dudlc) → Leaves sent (fetch r again p)
  unfolding fetch
  fetch-Quiet (true, con) again e k p = k (record p { con = con }) e
  fetch-Quiet (false, con) again e k p = closed-Leaves none (record p { con = con }) e

  round-Quiet :
      (o : Option (Option Bytes × Sock)) (again : M (Option Bytes))
      → ((r : Option Bytes × Sock) → o ≡ some r → r.1.sent ≡ sent)
      → Quiet sent again
      → (p : Dudlc) → Leaves sent (round o again p)
  unfolding round
  round-Quiet none again h k p = stops _
  round-Quiet (some (some l, con)) again h k p =
      sort_line-Quiet l again k (record p { con = con }) (h (some l, con) refl)
  round-Quiet (some (none, con)) again h k p =
      fetch-Quiet (sock_recv con) again (sock_recv-sent con ∙ h (none, con) refl) k _

  next_loop-Quiet : (n : ℕ) → Quiet sent (next_loop n)
  unfolding next_loop
  next_loop-Quiet zero p e = runs_out
  next_loop-Quiet (suc n) p e =
      round-Quiet (sock_getline p.con) (next_loop n) (λ r h. sock_getline-sent p.con r h ∙ e)
        (next_loop-Quiet n) p

  code-Leaves :
      (code l : Bytes) (q : Dudlc) (more : Bool)
      → q.con.sent ≡ sent
      → Leaves sent (elim code [
        | [] ↦ done another (record q { code = take 3 l; inreply = more })
        | c ∷ cs ↦
            if bytes_equal (c ∷ cs) (take 3 l)
            then done another (record q { inreply = more })
            else done broken (duc_close q)
      ])
  code-Leaves [] l q more e = leaves another (record q { code = take 3 l; inreply = more }) e
  code-Leaves (c ∷ cs) l q more e =
      if-Leaves (bytes_equal (c ∷ cs) (take 3 l)) (leaves another (record q { inreply = more }) e)
        (closed-Leaves broken q e)

  after_loop-Quiet : (l : Option Bytes) → Quiet sent (after_loop l)
  unfolding after_loop accept_line
  after_loop-Quiet none p e = leaves broken p e
  after_loop-Quiet (some l) p e =
      code-Leaves p.code l (record p { line = some (drop 4 l) }) (char_at l 3 == b'-') e

  rnext-Quiet : Quiet sent rnext
  unfolding rnext
  rnext-Quiet p e =
      let n = suc (rounds p.con) in
      if-Leaves p.inreply (bind_run-Leaves after_loop p (next_loop-Quiet n p e) after_loop-Quiet)
        (leaves over p e)

  last_run-Leaves :
      (r : Run Dudlc Next) (again : M Bool)
      → Leaves sent r
      → Quiet sent again
      → Leaves sent (elim r [
        | done r q ↦ elim r [ another ↦ again q | broken ↦ done false q | over ↦ done true q ]
        | fault why ↦ fault why
        | spent ↦ spent
      ])
  last_run-Leaves _ again (leaves another q e) k = k q e
  last_run-Leaves _ again (leaves broken q e) k = leaves false q e
  last_run-Leaves _ again (leaves over q e) k = leaves true q e
  last_run-Leaves _ again (stops why) k = stops why
  last_run-Leaves _ again runs_out k = runs_out

  last_loop-Quiet : (n : ℕ) → Quiet sent (last_loop n)
  unfolding last_loop
  last_loop-Quiet zero p e = runs_out
  last_loop-Quiet (suc n) p e =
      last_run-Leaves (rnext p) (last_loop n) (rnext-Quiet p e) (last_loop-Quiet n)

result_sent :
    {A : Type 0} {r : Run Dudlc A} {sent : List Bytes} (a : A) (q : Dudlc)
    → Leaves sent r
    → r ≡ done a q
    → q.con.sent ≡ sent
result_sent a q (leaves b t e) h =
    let same : t ≡ q = cc in ap (λ (u : Dudlc). u.con.sent) (sym same) ∙ e
result_sent a q (stops why) h = cc
result_sent a q runs_out h = cc

-- Reading a reply puts nothing on the wire.
pub rlast-sent : (p q : Dudlc) (b : Bool) → rlast p ≡ done b q → q.con.sent ≡ p.con.sent
unfolding rlast
rlast-sent p q b h =
    result_sent b q (last_loop-Quiet p.con.sent (suc (suc (rounds p.con))) p refl) h
