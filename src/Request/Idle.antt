-- ===== src/Request/Idle.antt =====
-- How the requests of lib/proto.c end, over any `duc_open`, and what they leave in the session.
use dudlc.Shared.{
  ℕ, ◌+◌, ◌-◌, Bool, true, false, ◌||◌, Option, none, some, List, [], ◌∷◌, ◌++◌, ◌≡◌, ◌≢◌, refl,
  ◌∙◌, arith, ltb, ◌==◌, if◌then◌else◌, ℤ, negsuc, Bytes, length, get_or, Bool-cases, inl, inr, ◌⊎◌,
}
use dudlc.Cstring.{Parsed, got, refused, stray, Parser, strtol}
use dudlc.Sock.{Sock, Sending, took, blocked, sock_send, next_send}
use dudlc.Session.{Dudlc}
use dudlc.Session.Run.{done, Ends, returns, faults, Ends-bind, Ends-map, ◌>>=◌, return}
use dudlc.Proto.{M, rlast}
use dudlc.Proto.Replies.{duc_close-Closed}
use dudlc.Proto.Last.{HasReply, LastEnd, rlast-LastEnds}
use dudlc.Request.{
  buf_len_line, after_send, send_line, vsend, code_digit, rline, unless_failed, succeeded, answered,
  atoi_result, atoi_line, converted, convert, cmd, cmd_succ, cmd_int, cmd_conv,
}

-- How `duc_open` may end.
abbrev pub Opened : Bool → Dudlc → Type 0
Opened true q = (q.inreply ≡ false) × (q.con.is_open ≡ true)
Opened false q = q.inreply ≡ false

-- How `_duc_vsend` may end: a reply is awaited just if the request was sent.
abbrev pub Sent : Bool → Dudlc → Type 0
Sent true q = (q.inreply ≡ true) × (q.con.is_open ≡ true)
Sent false q = q.inreply ≡ false

next_send-open :
    (l : List Sending) (text : Bytes) (s : Sock) → (next_send l text s).1.is_open ≡ s.is_open
unfolding next_send
next_send-open [] text s = refl
next_send-open (took n ∷ l) text s = refl
next_send-open (blocked ∷ l) text s = refl

sock_send-open : (s : Sock) (text : Bytes) → (sock_send s text).1.is_open ≡ s.is_open
unfolding sock_send
sock_send-open s text = ground (arith, next_send-open s.sendings text s)

after_send-Sent : (r : Bool × Sock) (p : Dudlc) → r.1.is_open ≡ true → Ends Sent (after_send r p)
unfolding after_send
after_send-Sent (true, con) p o = returns (refl, o)
after_send-Sent (false, con) p o = returns (duc_close-Closed (record p { con = con })).idle

send_line-Sent :
    (text : Bytes) (p : Dudlc)
    → p.inreply ≡ false
    → p.con.is_open ≡ true
    → Ends Sent (send_line text p)
unfolding send_line
send_line-Sent text p i o = elim (Bool-cases (ltb (buf_len_line - 1) (length text))) [
  | inl long ↦ rw long (returns i)
  | inr short ↦ elim (Bool-cases (ltb buf_len_line (length text + 2))) [
    | inl over ↦ rw (short, over) (faults (cc))
    | inr fits ↦
        let line = text ++ b'\n' ∷ [] in
        rw (short, fits) (after_send-Sent (sock_send p.con line) _ (sock_send-open p.con line ∙ o))
  ]
]

-- The first byte of the code.
abbrev pub first_digit : Dudlc → ℕ
first_digit q = get_or q.code 0 0

-- How `_duc_cmd` may end.
abbrev pub Answered : Bool → Dudlc → Type 0
Answered true q = (q.inreply ≡ false) × HasReply q × (q.con.is_open ≡ true)
Answered false q = q.inreply ≡ false

-- How the requests that look at the code may end: a positive result only behind a good code, on an
-- open connection.
abbrev pub Succeeded : Bool → Dudlc → Type 0
Succeeded true q =
    (q.inreply ≡ false) × (q.con.is_open ≡ true) × ((first_digit q ≡ b'2') ⊎ (first_digit q ≡ b'3'))
Succeeded false q = q.inreply ≡ false

abbrev pub Returned : {A : Type 0} → Option A → Dudlc → Type 0
Returned (some a) q = (q.inreply ≡ false) × (q.con.is_open ≡ true) × (first_digit q ≡ b'2')
Returned none q = q.inreply ≡ false

pub LastEnd-Answered :
    (p : Dudlc) → p.con.is_open ≡ true → (b : Bool) (q : Dudlc) → LastEnd p b q → Answered b q
LastEnd-Answered p o true q c = (c.idle, c.reply, c.same_open ∙ o)
LastEnd-Answered p o false q c = c.idle

code_digit_at :
    (p : Dudlc) (code : Bytes) → p.code ≡ code → code ≢ [] → code_digit p ≡ done (first_digit p) p
unfolding code_digit
code_digit_at p [] e h = absurd (h refl)
code_digit_at p (c ∷ cs) e h = ground arith

pub code_digit_lem : (p : Dudlc) → HasReply p → code_digit p ≡ done (first_digit p) p
code_digit_lem p h = code_digit_at p p.code refl h.code_set

rline_at :
    (p : Dudlc) (line : Option Bytes)
    → p.line ≡ line
    → line ≢ none
    → (l : Bytes) × (rline p ≡ done l p)
unfolding rline
rline_at p none e h = absurd (h refl)
rline_at p (some l) e h = (l, ground arith)

pub rline_lem : (p : Dudlc) → HasReply p → (l : Bytes) × (rline p ≡ done l p)
rline_lem p h = rline_at p p.line refl h.line_set

succeeded-Ends : (p : Dudlc) → Answered true p → Ends Succeeded (succeeded p)
unfolding succeeded
succeeded-Ends p (i, h, o) =
    rw (code_digit_lem p h, succeeded, ◌>>=◌)
      (elim (Bool-cases (first_digit p == b'2' || first_digit p == b'3')) [
        | inl yes_code ↦ rw yes_code (returns (i, o, ground arith))
        | inr no_code ↦ rw no_code (returns i)
      ])

-- A good code, with the line still at hand.
abbrev Good : Bool → Dudlc → Type 0
Good true q = (q.inreply ≡ false) × HasReply q × (q.con.is_open ≡ true) × (first_digit q ≡ b'2')
Good false q = q.inreply ≡ false

answered-Ends : (p : Dudlc) → Answered true p → Ends Good (answered p)
unfolding answered
answered-Ends p (i, h, o) =
    rw (code_digit_lem p h, answered, ◌>>=◌)
      (elim (Bool-cases (first_digit p == b'2')) [
        | inl yes_code ↦ rw yes_code (returns (i, h, o, ground arith))
        | inr no_code ↦ rw no_code (returns i)
      ])

if_answered : (b : Bool) (q : Dudlc) → Answered b q → Ends Good (unless_failed b answered false q)
if_answered true q h = answered-Ends q h
if_answered false q h = returns h

-- How `_duc_cmd_int` may end.
abbrev pub Counted : ℤ → Dudlc → Type 0
Counted n q = (q.inreply ≡ false) × ((n ≡ negsuc 0) ⊎ (first_digit q ≡ b'2'))

atoi_result-Counted : (r : Parsed ℤ) (q : Dudlc) → Good true q → Ends Counted (atoi_result r q)
unfolding atoi_result
atoi_result-Counted (got n end) q h = returns (h.0, inr h.3)
atoi_result-Counted refused q h = returns (h.0, inr h.3)
atoi_result-Counted stray q h = faults (cc)

atoi_counts : (q : Dudlc) → Good true q → Ends Counted (◌>>=◌ rline atoi_line q)
unfolding atoi_line
atoi_counts q h = let (l, e) = rline_lem q h.1 in rw (e, ◌>>=◌) (atoi_result-Counted (strtol l) q h)

module _ {A : Type 0} where
  converted-Returned :
      (r : Parsed A) (q : Dudlc) → Good true q → Ends (Returned {A = A}) (converted r q)
  unfolding converted
  converted-Returned (got row end) q h = returns (h.0, h.2, h.3)
  converted-Returned refused q h = returns h.0
  converted-Returned stray q h = faults (cc)

  convert_returns :
      (conv : Parser A) (q : Dudlc)
      → Good true q
      → Ends (Returned {A = A}) (◌>>=◌ rline (convert conv) q)
  unfolding convert
  convert_returns conv q h =
      let (l, e) = rline_lem q h.1 in rw (e, ◌>>=◌) (converted-Returned (conv l) q h)

-- Requests, over a `duc_open` that ends as it should from the sessions that `Pre` admits.
module _ (opener : M Bool) (Pre : Dudlc → Type 0)
    (opens : (p : Dudlc) → p.inreply ≡ false → Pre p → Ends Opened (opener p)) (p : Dudlc)
    (i : p.inreply ≡ false) (pre : Pre p) (text : Bytes) where
  pub vsend-Sent : Ends Sent (vsend opener text p)
  unfolding vsend
  vsend-Sent = simp (i, vsend) (Ends-bind opener _ p (opens p i pre) after)
    where
      after :
          (b : Bool) (q : Dudlc)
          → Opened b q
          → Ends Sent ((if b then send_line text else return false) q)
      after true q h = send_line-Sent text q h.0 h.1
      after false q h = returns h

  cmd-Answered : Ends Answered (cmd opener text p)
  unfolding cmd
  cmd-Answered = Ends-bind (vsend opener text) _ p vsend-Sent after
    where
      after : (b : Bool) (q : Dudlc) → Sent b q → Ends Answered (unless_failed b rlast false q)
      after true q h = Ends-map (rlast-LastEnds q h.0) (LastEnd-Answered q h.1)
      after false q h = returns h

  -- `_duc_cmd_succ` ends, with no read through NULL and ready for the next request, and returns 0
  -- only behind a reply on an open connection whose code begins with 2 or 3.
  pub cmd_succ-Succeeded : Ends Succeeded (cmd_succ opener text p)
  unfolding cmd_succ
  cmd_succ-Succeeded = Ends-bind (cmd opener text) _ p cmd-Answered after
    where
      after :
          (b : Bool) (q : Dudlc) → Answered b q → Ends Succeeded (unless_failed b succeeded false q)
      after true q h = succeeded-Ends q h
      after false q h = returns h

  -- `_duc_cmd_int` ends ready for the next request, with no read through NULL. It returns -1 unless
  -- the reply's code begins with 2.
  pub cmd_int-Counted : Ends Counted (cmd_int opener text p)
  unfolding cmd_int
  cmd_int-Counted =
      Ends-bind (cmd opener text) _ p cmd-Answered
        λ b q h. Ends-bind (unless_failed b answered false) _ q (if_answered b q h) after
    where
      after :
          (b : Bool) (q : Dudlc)
          → Good b q
          → Ends Counted ((unless_failed b (λ r. ◌>>=◌ rline atoi_line r) (negsuc 0)) q)
      after true q h = atoi_counts q h
      after false q h = returns (h, inl refl)

  -- `_duc_cmd_conv` ends ready for the next request, with no read through NULL. It returns a row only
  -- behind a reply on an open connection whose code begins with 2.
  pub cmd_conv-Returned :
      {A : Type 0} (conv : Parser A) → Ends (Returned {A = A}) (cmd_conv opener conv text p)
  unfolding cmd_conv
  cmd_conv-Returned {A} conv =
      Ends-bind (cmd opener text) _ p cmd-Answered
        λ b q h. Ends-bind (unless_failed b answered false) _ q (if_answered b q h) after
    where
      after :
          (b : Bool) (q : Dudlc)
          → Good b q
          → Ends (Returned {A = A}) ((unless_failed b (λ r. ◌>>=◌ rline (convert conv) r) none) q)
      after true q h = convert_returns conv q h
      after false q h = returns h
