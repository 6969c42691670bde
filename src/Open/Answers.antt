-- ===== src/Open/Answers.antt =====
-- A request and its answer, on a connection that is open: what `_duc_cmd_int` and `_duc_cmd_conv` of
-- lib/proto.c return for the reply that the network brings.
use dudlc.Shared.{
  ◌≤◌, true, false, none, some, [], ◌∷◌, ◌++◌, ◌≡◌, refl, ap, ◌∙◌, Bytes, ℤ, length, arith, ℕ, List,
}
use dudlc.Cstring.{Parser, got, is_digit}
use dudlc.Cstring.Decimal.{print_int}
use dudlc.Cstring.Scan.{IsInt, strtol-print_int}
use dudlc.Sock.{Sock}
use dudlc.Sock.Buffer.{unread}
use dudlc.Sock.OneLine.{IsFresh}
use dudlc.Sock.Arrival.{Brings}
use dudlc.Session.{Dudlc}
use dudlc.Session.Run.{Run, done, ◌>>=◌}
use dudlc.Proto.{rlast}
use dudlc.Proto.Reply.{reply_lines, IsText, IsCode, WholeReply, rlast-WholeReply}
use dudlc.Proto.Wire.{rlast-sent}
use dudlc.Request.{
  cmd, cmd_conv, cmd_int, answered, code_digit, rline, convert, converted, atoi_line, atoi_result,
}
use dudlc.Request.Sending.{vsend_sent}
use dudlc.Open.{duc_open}

-- A session that can send: no reply is awaited, and the next send on the open connection takes the
-- whole request.
pub record CanSend (p : Dudlc) : Type 0 where
  pub idle : p.inreply ≡ false
  pub open_now : p.con.is_open ≡ true
  pub accepts : p.con.sendings ≡ []

-- What has been put on the wire when a session has sent one more request.
abbrev pub wire_with : Dudlc → Bytes → List Bytes
wire_with p text = p.con.sent ++ (text ++ b'\n' ∷ []) ∷ []

-- A request that has returned `v`: `sent` is what has been put on the wire by then, no reply is
-- awaited, and `rest` is still to come.
pub record Answer {A : Type 0} (r : Run Dudlc A) (v : A) (sent : List Bytes) (rest : Bytes)
    : Type 0 where
  pub next : Dudlc
  pub result : r ≡ done v next
  pub sends : next.con.sent ≡ sent
  pub idle : next.inreply ≡ false
  pub brings : Brings next.con rest

Brings-sent :
    (s : Sock) (more : List Bytes) (bytes : Bytes)
    → Brings s bytes
    → Brings (record s { sent = more }) bytes
unfolding unread
Brings-sent s more bytes b = record {
  valid = record {
    fits = b.valid.fits;
    line_within = b.valid.line_within;
    closed_empty = b.valid.closed_empty;
  };
  open_now = b.open_now;
  pieces = b.pieces;
  to_come = b.to_come;
}

code_digit_is : (q : Dudlc) (x : ℕ) (xs : Bytes) → q.code ≡ x ∷ xs → code_digit q ≡ done x q
unfolding code_digit
code_digit_is q x xs e = ground arith

answered_two : (q : Dudlc) (b c : ℕ) → q.code ≡ b'2' ∷ b ∷ c ∷ [] → answered q ≡ done true q
unfolding answered
answered_two q b c e = rw (code_digit_is q b'2' (b ∷ c ∷ []) e, answered, ◌>>=◌) refl

rline_is : (q : Dudlc) (l : Bytes) → q.line ≡ some l → rline q ≡ done l q
unfolding rline
rline_is q l e = ground arith

module _ (p : Dudlc) (can : CanSend p) (text : Bytes) (short : length text ≤ 2046) (b c : ℕ)
    (code : IsCode b'2' b c) (final rest : Bytes) (fits : IsText final) (f : IsFresh rest)
    (brings : Brings p.con (reply_lines b'2' b c [] final rest)) where
  abbrev asked : Dudlc
  asked = record p {
    con = record p.con { sent = wire_with p text };
    inreply = true;
    code = [];
    line = none;
  }

  reply : WholeReply (rlast asked) b'2' b c final rest
  reply =
      rlast-WholeReply b'2' b c [] final rest asked code tt fits f refl refl
        (Brings-sent p.con _ _ brings)

  reply_sends : reply.next.con.sent ≡ wire_with p text
  reply_sends = rlast-sent asked reply.next true reply.result

  cmd_done : cmd duc_open text p ≡ done true reply.next
  unfolding cmd
  cmd_done = rw (vsend_sent p can.idle can.open_now can.accepts text short, cmd, ◌>>=◌) reply.result

  answered_done : answered reply.next ≡ done true reply.next
  answered_done = answered_two reply.next b c reply.code_is

  rline_done : rline reply.next ≡ done (final ++ 0 ∷ reply.tail) reply.next
  rline_done = rline_is reply.next (final ++ 0 ∷ reply.tail) (reply.line_is ∙ ap some reply.text_is)

  -- On a session that can send, a request of at most 2046 bytes that is answered with one line, of a
  -- code that begins with 2, is sent, with a line break behind it, and gives the row that the
  -- converter makes of the line's text; no reply is awaited then, and what follows the reply is still to come. The line fits into the
  -- buffer and has no line break or 0 in it, what follows it begins with neither, and the converter
  -- takes the text, whatever stands behind the 0 at its end, and stops at that 0. The network brings
  -- the reply in any pieces.
  pub cmd_conv-Answer :
      {A : Type 0} (conv : Parser A) (v : A)
      → ((z : Bytes) → conv (final ++ 0 ∷ z) ≡ got v (0 ∷ z))
      → Answer (cmd_conv duc_open conv text p) (some v) (wire_with p text) rest
  unfolding cmd_conv convert converted
  cmd_conv-Answer conv v reads = record {
    next = reply.next;
    result = rw (cmd_done, cmd_conv, ◌>>=◌, answered_done, rline_done, reads reply.tail) refl;
    sends = reply_sends;
    idle = reply.idle;
    brings = reply.brings;
  }

  -- On a session that can send, a request of at most 2046 bytes that is answered with one line, of a
  -- code that begins with 2 and with the digits of an int, is sent, with a line break behind it, and
  -- gives that int; no reply is
  -- awaited then, and what follows the reply is still to come. The line fits into the buffer, and what
  -- follows it begins with no line break or 0. The network brings the reply in any pieces.
  pub cmd_int-Answer :
      (n : ℤ)
      → IsInt n
      → final ≡ print_int n
      → Answer (cmd_int duc_open text p) n (wire_with p text) rest
  unfolding cmd_int atoi_line atoi_result is_digit
  cmd_int-Answer n small e = record {
    next = reply.next;
    result =
        rw
          (
            cmd_done,
            cmd_int,
            ◌>>=◌,
            answered_done,
            rline_done,
            e,
            strtol-print_int n 0 reply.tail small refl,
          )
          refl;
    sends = reply_sends;
    idle = reply.idle;
    brings = reply.brings;
  }
