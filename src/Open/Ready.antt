-- ===== src/Open/Ready.antt =====
-- How `duc_open` of lib/session.c ends, and what it leaves in the session.
use dudlc.Shared.{
  Bool, true, false, Option, none, some, List, [], ◌∷◌, ◌++◌, ◌≡◌, ◌≢◌, refl, ◌∙◌, arith, ◌==◌,
  if◌then◌else◌, ℤ, Bytes, codes, drop, Bool-cases, inl, inr,
}
use dudlc.Cstring.{strtol}
use dudlc.Sock.{Sock, Attempt, unresolved, rejected, accepted, attempt, next_attempt, sock_connect}
use dudlc.Event.{Event, connect}
use dudlc.Session.{Dudlc, Handlers, emit_to, emit, connected}
use dudlc.Session.Run.{
  done, Ends, returns, faults, Ends-bind, Ends-map, ◌>>=◌, ◌>>◌, update, return,
}
use dudlc.Proto.{rlast}
use dudlc.Proto.Last.{rlast-LastEnds}
use dudlc.Request.{unless_failed, cmd_succ, login, cmd_auth}
use dudlc.Request.Idle.{
  Opened, first_digit, Succeeded, Answered, LastEnd-Answered, cmd_succ-Succeeded, rline_lem,
}
use dudlc.Open.{
  is_major, give_up, log_in, greet, is_dudld, hello, greeted, welcome, version_of, open_already,
  duc_open,
}

attempt-open :
    (a : Attempt) (later : List Attempt) (s con : Sock)
    → attempt a later s ≡ (true, con)
    → con.is_open ≡ true
unfolding attempt
attempt-open unresolved later s con h = cc
attempt-open rejected later s con h = cc
attempt-open (accepted script) later s con h = ground arith

next_attempt-open :
    (l : List Attempt) (s con : Sock) → next_attempt l s ≡ (true, con) → con.is_open ≡ true
unfolding next_attempt
next_attempt-open [] s con h = cc
next_attempt-open (a ∷ later) s con h = attempt-open a later s con h

sock_connect-open : (s con : Sock) → sock_connect s ≡ (true, con) → con.is_open ≡ true
unfolding sock_connect
sock_connect-open s con h = ground (arith, next_attempt-open s.connects s con)

open_already-Opened :
    (p : Dudlc) → p.inreply ≡ false → p.con.is_open ≡ true → Ends Opened (open_already p)
unfolding open_already
open_already-Opened p i o = simp (o, open_already) (returns (i, o))

-- The login, on an open connection.
login_step :
    (p : Dudlc)
    → p.inreply ≡ false
    → p.con.is_open ≡ true
    → (text : Bytes) → Ends Succeeded (cmd_succ open_already text p)
login_step p i o text =
    cmd_succ-Succeeded open_already (λ q. q.con.is_open ≡ true) open_already-Opened p i o text

Succeeded-Opened : (b : Bool) (q : Dudlc) → Succeeded b q → Opened b q
Succeeded-Opened true q h = (h.0, h.1)
Succeeded-Opened false q h = h

login-Opened :
    (user pass : Option Bytes) (p : Dudlc)
    → p.inreply ≡ false
    → p.con.is_open ≡ true
    → Ends Opened (login open_already user pass p)
unfolding login
login-Opened none none p i o = returns i
login-Opened none (some pass) p i o = returns i
login-Opened (some user) none p i o = returns i
login-Opened (some user) (some pass) p i o =
    Ends-bind (cmd_succ open_already (codes "user " ++ user)) _ p
      (login_step p i o (codes "user " ++ user)) after
  where
    after :
        (b : Bool) (q : Dudlc)
        → Succeeded b q
        → Ends Opened (unless_failed b (cmd_succ open_already (codes "pass " ++ pass)) false q)
    after true q h = Ends-map (login_step q h.0 h.1 (codes "pass " ++ pass)) Succeeded-Opened
    after false q h = returns h

log_in-Opened :
    (user : Option Bytes) (p : Dudlc)
    → p.inreply ≡ false
    → p.con.is_open ≡ true
    → Ends Opened (log_in open_already user p)
unfolding log_in cmd_auth
log_in-Opened none p i o = returns (i, o)
log_in-Opened (some user) p i o = login-Opened p.user p.pass p i o

emit_to-same :
    (h : Option Handlers) (e : Event) (p : Dudlc)
    → ((emit_to h e p).inreply ≡ p.inreply) × ((emit_to h e p).con.is_open ≡ p.con.is_open)
unfolding emit_to
emit_to-same none e p = (refl, refl)
emit_to-same (some handled) e p = ground arith

give_up-Opened : (p : Dudlc) → p.inreply ≡ false → Ends Opened (give_up p)
unfolding give_up
give_up-Opened p i = returns i

greet-Opened :
    (v : Option (ℤ × ℤ)) (p : Dudlc)
    → p.inreply ≡ false
    → p.con.is_open ≡ true
    → Ends Opened (greet open_already v p)
unfolding greet emit
greet-Opened none p i o = faults (cc)
greet-Opened (some (major, minor)) p i o =
    let q = record p { vmajor = major; vminor = minor } in
    elim (Bool-cases (is_major major)) [
      | inl good ↦
          rw good (Ends-bind (log_in open_already q.user) _ q (log_in-Opened q.user q i o) after)
      | inr bad ↦ rw bad (give_up-Opened q i)
    ]
  where
    after :
        (b : Bool) (t : Dudlc)
        → Opened b t
        → Ends Opened ((if b then (update (emit connect) >> return true) else give_up) t)
    after true t h = let same = emit_to-same t.ev connect t in returns (same.0 ∙ h.0, same.1 ∙ h.1)
    after false t h = give_up-Opened t h

hello-Opened : (p : Dudlc) → Answered true p → Ends Opened (hello open_already p)
unfolding hello
hello-Opened p (i, h, o) =
    let (l, e) = rline_lem p h in
    rw (e, hello, ◌>>=◌)
      (elim (Bool-cases (is_dudld l)) [
        | inl good ↦ rw good (greet-Opened (version_of (strtol (drop 5 l))) p i o)
        | inr bad ↦ rw bad (give_up-Opened p i)
      ])

greeted_at :
    (p : Dudlc) (code : Bytes)
    → p.code ≡ code
    → code ≢ []
    → greeted p ≡ done (first_digit p == b'2') p
unfolding greeted
greeted_at p [] e h = absurd (h refl)
greeted_at p (c ∷ cs) e h = ground arith

greeted-Answered :
    (b : Bool) (p : Dudlc) → Answered b p → Ends Answered (unless_failed b greeted false p)
greeted-Answered true p (i, h, o) =
    rw (greeted_at p p.code refl h.code_set) (elim (Bool-cases (first_digit p == b'2')) [
      | inl good ↦ rw good (returns (i, h, o))
      | inr bad ↦ rw bad (returns i)
    ])
greeted-Answered false p h = returns h

welcome-Opened :
    (b : Bool) (con : Sock) (p : Dudlc)
    → sock_connect p.con ≡ (b, con)
    → p.inreply ≡ false
    → Ends Opened (welcome open_already (b, con) p)
unfolding welcome
welcome-Opened false con p e i = returns i
welcome-Opened true con p e i =
    let q = record p { con = con; inreply = true } in
    Ends-bind rlast _ q
      (Ends-map (rlast-LastEnds q refl) (LastEnd-Answered q (sock_connect-open p.con con e)))
      λ b t h. Ends-bind (unless_failed b greeted false) _ t (greeted-Answered b t h) after
  where
    after :
        (b : Bool) (t : Dudlc)
        → Answered b t
        → Ends Opened ((if b then hello open_already else give_up) t)
    after true t h = hello-Opened t h
    after false t h = give_up-Opened t h

-- From a session that awaits no reply, `duc_open` ends, whatever the network does and the server
-- sends: by a fault that is no read through NULL, or it returns, with no reply awaited; where it
-- returns 0 the connection is open.
pub duc_open-Opened : (p : Dudlc) → p.inreply ≡ false → Ends Opened (duc_open p)
unfolding duc_open
duc_open-Opened p i = elim (Bool-cases (connected p)) [
  | inl o ↦ simp o (returns (i, o))
  | inr c ↦ simp c (welcome-Opened _ _ p refl i)
]
