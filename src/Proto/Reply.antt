-- ===== src/Proto/Reply.antt =====
-- `_duc_rlast` of lib/proto.c on a connection that brings a whole reply.
use dudlc.Shared.{
  ℕ, zero, suc, ◌+◌, ◌-◌, ◌<◌, true, false, ◌||◌, some, List, [], ◌∷◌, ◌++◌, ◌≡◌, ◌≢◌, refl, sym,
  arith, Bool, ◌==◌, Bytes, length, All,
}
use mathlib.Core.Path.{subst}
use dudlc.Sock.{buf_len_rcv, is_break}
use dudlc.Sock.Split.{IsOneLine}
use dudlc.Sock.Progress.{rounds}
use dudlc.Sock.OneLine.{IsFresh}
use dudlc.Sock.Arrival.{Brings}
use dudlc.Session.{Dudlc}
use dudlc.Session.Run.{Run, done}
use dudlc.Proto.{another, over, rnext, last_loop, rlast}
use dudlc.Proto.Whole.{InReply, rnext-Accepted}

-- The lines of a reply: all but the last have `-` behind the code.
abbrev pub reply_lines : ℕ → ℕ → ℕ → List Bytes → Bytes → Bytes → Bytes
reply_lines a b c [] final rest = a ∷ b ∷ c ∷ b' ' ∷ (final ++ b'\n' ∷ rest)
reply_lines a b c (text ∷ more) final rest =
    a ∷ b ∷ c ∷ b'-' ∷ (text ++ b'\n' ∷ reply_lines a b c more final rest)

-- A text that fits into a line of the buffer, behind the code and the mark.
abbrev pub IsText : Bytes → Type 0
IsText text = IsOneLine text × (length text < buf_len_rcv - 5)

-- A digit may begin a code, but not `6`, which marks a broadcast.
abbrev pub IsCode : ℕ → ℕ → ℕ → Type 0
IsCode a b c = IsOneLine (a ∷ b ∷ c ∷ []) × (a ≢ b'6')

-- What a whole reply leaves: its code and its last line's text, no reply awaited, and what follows
-- the reply still to come.
pub record WholeReply (r : Run Dudlc Bool) (a b c : ℕ) (final rest : Bytes) : Type 0 where
  pub next : Dudlc
  pub result : r ≡ done true next
  pub idle : next.inreply ≡ false
  pub code_is : next.code ≡ a ∷ b ∷ c ∷ []
  pub behind : Bytes
  pub line_is : next.line ≡ some behind
  pub tail : Bytes
  pub text_is : behind ≡ final ++ 0 ∷ tail
  pub brings : Brings next.con rest

rnext-idle : (p : Dudlc) → p.inreply ≡ false → rnext p ≡ done over p
unfolding rnext
rnext-idle p i = simp i refl

-- Another line has been read.
last_loop-another :
    (n : ℕ) (p : Dudlc) {t : Dudlc} → rnext p ≡ done another t → last_loop (suc n) p ≡ last_loop n t
unfolding last_loop
last_loop-another n p e = rw (e, last_loop) refl

module _ (a b c : ℕ) (code : IsCode a b c) (final rest : Bytes) (f : IsFresh rest) where
  line_one :
      (m : ℕ) (text : Bytes)
      → (is_break m || m == 0) ≡ false
      → IsText text
      → IsOneLine (a ∷ b ∷ c ∷ m ∷ text)
  line_one m text h t = (code.0.0, (code.0.1.0, (code.0.1.1.0, (h, t.0))))

  lines-IsFresh : (more : List Bytes) → IsFresh (reply_lines a b c more final rest)
  lines-IsFresh [] = code.0.0
  lines-IsFresh (text ∷ more) = code.0.0

  no_broadcast : (a == b'6') ≡ false
  no_broadcast = let h = code.1 in ground arith

  -- The last line has been read.
  last_loop-over :
      (n : ℕ) (p : Dudlc) {t : Dudlc}
      → rnext p ≡ done another t
      → t.inreply ≡ false
      → last_loop (suc (suc n)) p ≡ done true t
  unfolding last_loop
  last_loop-over n p {t} e i = rw (e, last_loop, rnext-idle t i) refl

  last_loop-WholeReply :
      (n : ℕ) (more : List Bytes) (p : Dudlc)
      → rounds p.con + 1 < n
      → IsText final
      → All IsText more
      → p.inreply ≡ true
      → InReply a b c p.code
      → Brings p.con (reply_lines a b c more final rest)
      → WholeReply (last_loop n p) a b c final rest
  last_loop-WholeReply zero more p h tf tm i code_so_far brings = absurd (omega arith)
  last_loop-WholeReply (suc zero) more p h tf tm i code_so_far brings = absurd (omega arith)
  last_loop-WholeReply (suc (suc n)) [] p h tf tm i code_so_far brings =
      let read =
        rnext-Accepted a b c b' ' final rest p (line_one b' ' final (unfold is_break in refl) tf) f
          (omega (arith, tf.1)) no_broadcast i code_so_far brings in
      record {
        next = read.next;
        result = last_loop-over n p read.result read.more_is;
        idle = read.more_is;
        code_is = read.code_is;
        behind = read.behind;
        line_is = read.line_is;
        tail = read.tail;
        text_is = read.text_is;
        brings = read.brings;
      }
  last_loop-WholeReply (suc (suc n)) (text ∷ more) p h tf tm i code_so_far brings =
      let read =
        rnext-Accepted a b c b'-' text (reply_lines a b c more final rest) p
          (line_one b'-' text (unfold is_break in refl) tm.0) (lines-IsFresh more)
          (omega (arith, tm.0.1)) no_broadcast i code_so_far brings in
      subst (λ r. WholeReply r a b c final rest) (sym (last_loop-another (suc n) p read.result))
        (last_loop-WholeReply (suc n) more read.next (omega (arith, read.fewer)) tf tm.1
          read.more_is (subst (InReply a b c) (sym read.code_is) refl) read.brings)

-- While a reply of which nothing has been read is awaited, on an open connection with a valid buffer
-- to which recv brings, in pieces of any size, the lines of a reply and what follows it: `_duc_rlast`
-- returns 0, with the reply's code, the text of its last line, no reply awaited, and what follows
-- still to come. The lines fit into the buffer, have no line break or 0 in them and all the same
-- code, which does not begin with 6, and what follows begins with no line break or 0.
pub rlast-WholeReply :
    (a b c : ℕ) (more : List Bytes) (final rest : Bytes) (p : Dudlc)
    → IsCode a b c
    → All IsText more
    → IsText final
    → IsFresh rest
    → p.inreply ≡ true
    → p.code ≡ []
    → Brings p.con (reply_lines a b c more final rest)
    → WholeReply (rlast p) a b c final rest
unfolding rlast
rlast-WholeReply a b c more final rest p code tm tf f i none_yet brings =
    last_loop-WholeReply a b c code final rest f (suc (suc (rounds p.con))) more p (omega arith) tf
      tm i (subst (InReply a b c) (sym none_yet) tt) brings
