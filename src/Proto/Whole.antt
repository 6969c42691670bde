-- ===== src/Proto/Whole.antt =====
-- `_duc_rnext` on a connection that brings a line of the reply.
use dudlc.Shared.{
  ℕ, zero, suc, ◌-◌, ◌<◌, true, false, Option, some, [], ◌∷◌, ◌++◌, ◌≡◌, refl, ap, ◌∙◌, arith, ltb,
  ◌==◌, Bytes, length, Bool-cases, inl, inr, take, drop,
}
use dudlc.Cstring.{c_string}
use dudlc.Sock.{Sock, buf_len_rcv}
use dudlc.Sock.Split.{IsOneLine}
use dudlc.Sock.Progress.{rounds}
use dudlc.Sock.OneLine.{IsFresh}
use dudlc.Sock.Arrival.{Brings, handed, fetched, line_or_piece}
use dudlc.Event.{char_at}
use dudlc.Session.{Dudlc}
use dudlc.Session.Run.{Run, done, ◌>>=◌}
use dudlc.Proto.{
  sort_line, fetch, round, next_loop, accept_line, after_loop, rnext, bytes_equal, another, Next,
}

is_zero : (c : ℕ) → (c == 0) ≡ true → c ≡ 0
is_zero c e = ground arith

-- A line's bytes are its text, a 0 and what stands behind it.
record Ended (line : Bytes) : Type 0 where
  tail : Bytes
  whole : line ≡ c_string line ++ 0 ∷ tail

line-Ended : (line front : Bytes) → line ≡ front ++ 0 ∷ [] → Ended line
unfolding c_string
line-Ended [] [] h = cc
line-Ended [] (d ∷ front) h = cc
line-Ended (c ∷ s) [] h =
    let zero_first : c ≡ 0 = cc in record { tail = s; whole = rw zero_first refl }
line-Ended (c ∷ s) (d ∷ front) h = elim (Bool-cases (c == 0)) [
  | inl e ↦ record { tail = s; whole = rw (e, c_string) (ap (λ z. z ∷ s) (is_zero c e)) }
  | inr e ↦
      let later = line-Ended s front (ap (drop 1) h) in
      record { tail = later.tail; whole = rw (e, c_string) (ap (λ t. c ∷ t) later.whole) }
]

-- A line with a code `a b c`, a mark behind it, and a text.
record Framed (line : Bytes) (a b c m : ℕ) (text : Bytes) : Type 0 where
  behind : Bytes
  bytes : line ≡ a ∷ b ∷ c ∷ m ∷ behind
  tail : Bytes
  text_is : behind ≡ text ++ 0 ∷ tail

line-Framed :
    (line front : Bytes) (a b c m : ℕ) (text : Bytes)
    → line ≡ front ++ 0 ∷ []
    → c_string line ≡ a ∷ b ∷ c ∷ m ∷ text
    → Framed line a b c m text
line-Framed line front a b c m text h e =
    let l = line-Ended line front h in
    record {
      behind = text ++ 0 ∷ l.tail;
      bytes = l.whole ∙ ap (λ t. t ++ 0 ∷ l.tail) e;
      tail = l.tail;
      text_is = refl;
    }

-- The code of the reply's first line, or none before that.
abbrev pub InReply : ℕ → ℕ → ℕ → Bytes → Type 0
InReply a b c [] = Unit
InReply a b c (x ∷ xs) = x ∷ xs ≡ a ∷ b ∷ c ∷ []

module _ (a b c m : ℕ) (text rest : Bytes) where
  -- What is read of a session whose connection brings the line: the line, from the same session with
  -- the connection moved on.
  record LineRead (p : Dudlc) (r : Run Dudlc (Option Bytes)) : Type 0 where
    line : Bytes
    con : Sock
    result : r ≡ done (some line) (record p { con = con })
    same : c_string line ≡ a ∷ b ∷ c ∷ m ∷ text
    front : Bytes
    closed : line ≡ front ++ 0 ∷ []
    brings : Brings con rest
    fewer : rounds con < rounds p.con

  abbrev pub sent : Bytes
  sent = a ∷ b ∷ c ∷ m ∷ text

  module _ (o : IsOneLine sent) (f : IsFresh rest) (fits : length sent < buf_len_rcv - 1)
      (reply : (a == b'6') ≡ false) where
    sort_line-sent :
        (line : Bytes) (again : Dudlc → Run Dudlc (Option Bytes)) (p : Dudlc)
        → c_string line ≡ sent
        → (front : Bytes) × (line ≡ front ++ 0 ∷ [])
        → sort_line line again p ≡ done (some line) p
    unfolding sort_line
    sort_line-sent line again p e (front, h) =
        let framed = line-Framed line front a b c m text h e in
        let long : ltb (length (c_string line)) 4 ≡ false = rw e (ground arith) in
        let first : char_at line 0 ≡ a = ap (λ t. char_at t 0) framed.bytes in
        let no_broadcast : (char_at line 0 == b'6') ≡ false = rw first reply in
        rw (long, no_broadcast) refl

    next_loop-LineRead :
        (n : ℕ) (p : Dudlc)
        → rounds p.con < n
        → Brings p.con (sent ++ b'\n' ∷ rest)
        → LineRead p (next_loop n p)
    unfolding next_loop round fetch
    next_loop-LineRead zero p h brings = absurd (omega arith)
    next_loop-LineRead (suc n) p h brings = elim (line_or_piece p.con sent rest brings o f fits) [
      | handed line t e same closed after taken ↦ record {
        line = line;
        con = t;
        result =
            rw (e, next_loop)
              (sort_line-sent line (next_loop n) (record p { con = t }) same closed);
        same = same;
        front = closed.0;
        closed = closed.1;
        brings = after;
        fewer = taken.fewer;
      }
      | fetched t u e r more taken ↦
          let q = record p { con = u } in
          let later = next_loop-LineRead n q (omega (arith, taken.fewer)) more in
          record {
            line = later.line;
            con = later.con;
            result = rw (e, next_loop, r) later.result;
            same = later.same;
            front = later.front;
            closed = later.closed;
            brings = later.brings;
            fewer = omega (arith, later.fewer, taken.fewer);
          }
    ]

  -- What `_duc_rnext` makes of the line: its code and text, and whether it is the last one.
  pub record Accepted (p : Dudlc) (r : Run Dudlc Next) : Type 0 where
    pub next : Dudlc
    pub result : r ≡ done another next
    pub code_is : next.code ≡ a ∷ b ∷ c ∷ []
    pub more_is : next.inreply ≡ (m == b'-')
    pub behind : Bytes
    pub line_is : next.line ≡ some behind
    pub tail : Bytes
    pub text_is : behind ≡ text ++ 0 ∷ tail
    pub brings : Brings next.con rest
    pub fewer : rounds next.con < rounds p.con

  accept_line-Accepted :
      (line : Bytes) (p q : Dudlc) (code : Bytes)
      → (front : Bytes) × (line ≡ front ++ 0 ∷ [])
      → c_string line ≡ sent
      → q.code ≡ code
      → InReply a b c code
      → Brings q.con rest
      → rounds q.con < rounds p.con
      → Accepted p (accept_line line q)
  unfolding accept_line
  accept_line-Accepted line p q [] (front, h) e eq same brings fewer =
      let framed = line-Framed line front a b c m text h e in
      record {
        next = record q {
          line = some (drop 4 line);
          code = take 3 line;
          inreply = char_at line 3 == b'-';
        };
        result = rw (eq, accept_line) refl;
        code_is = ap (take 3) framed.bytes;
        more_is = ap (λ t. char_at t 3 == b'-') framed.bytes;
        behind = drop 4 line;
        line_is = refl;
        tail = framed.tail;
        text_is = ap (drop 4) framed.bytes ∙ framed.text_is;
        brings = brings;
        fewer = fewer;
      }
  accept_line-Accepted line p q (x ∷ xs) (front, h) e eq same brings fewer =
      let framed = line-Framed line front a b c m text h e in
      let agrees : bytes_equal (x ∷ xs) (take 3 line) ≡ true =
        rw (same, framed.bytes) (unfold bytes_equal in ground arith) in
      record {
        next = record q { line = some (drop 4 line); inreply = char_at line 3 == b'-' };
        result = simp (eq, accept_line, agrees) refl;
        code_is = eq ∙ same;
        more_is = ap (λ t. char_at t 3 == b'-') framed.bytes;
        behind = drop 4 line;
        line_is = refl;
        tail = framed.tail;
        text_is = ap (drop 4) framed.bytes ∙ framed.text_is;
        brings = brings;
        fewer = fewer;
      }

  pub rnext-Accepted :
      (p : Dudlc)
      → IsOneLine sent
      → IsFresh rest
      → length sent < buf_len_rcv - 1
      → (a == b'6') ≡ false
      → p.inreply ≡ true
      → InReply a b c p.code
      → Brings p.con (sent ++ b'\n' ∷ rest)
      → Accepted p (rnext p)
  unfolding rnext after_loop
  rnext-Accepted p o f fits reply i same brings =
      let q = record p { inreply = true } in
      let read = next_loop-LineRead o f fits reply (suc (rounds p.con)) q (omega arith) brings in
      rw (i, rnext, read.result, ◌>>=◌)
        (accept_line-Accepted read.line q (record q { con = read.con }) q.code
          (read.front, read.closed) read.same refl same read.brings read.fewer)
