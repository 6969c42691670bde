-- ===== src/Cmd/Line/Count.antt =====
-- The whole way of a line: `trackcount`, from the text that is typed to the text that is shown.
use dudlc.Shared.{
  ℕ, ◌<◌, ◌^◌, true, false, All, [], ◌∷◌, ◌++◌, ◌≡◌, refl, sym, ap, ◌∙◌, Bytes, codes, ℤ, pos,
  negsuc, is_negative, if◌then◌else◌, arith,
}
use mathlib.Core.Path.{subst}
use dudlc.Cstring.{is_space, skip_space}
use dudlc.Cstring.Decimal.{print_int}
use dudlc.Sock.OneLine.{IsFresh}
use dudlc.Sock.Arrival.{Brings}
use dudlc.Session.{Dudlc}
use dudlc.Session.Run.{Run, done, ◌>>=◌, ◌>>◌, return}
use dudlc.Proto.Reply.{reply_lines, IsText, IsCode}
use dudlc.Request.{cmd_int}
use dudlc.Open.{duc_open}
use dudlc.Open.Answers.{CanSend, Answer, wire_with, cmd_int-Answer}
use dudlc.Command.Track.{tracks}
use dudlc.Cmd.Console.{Console, Libc, lift, lift_run, dmsg_msg}
use dudlc.Cmd.Run.{shown_int}
use dudlc.Cmd.Run.Track.{run_trackcount}
use dudlc.Cmd.Value.{val_name}
use dudlc.Cmd.Table.Call.{cmd_find}
use dudlc.Cmd.Line.{duc_cmd, named, report}

skip_space-front :
    (front rest : Bytes)
    → All (λ c. is_space c ≡ true) front
    → skip_space (front ++ rest) ≡ skip_space rest
unfolding skip_space
skip_space-front [] rest h = refl
skip_space-front (c ∷ front) rest (h, k) = rw h (skip_space-front front rest k)

-- The command has returned 0, sent the one request and shown one text; no reply is awaited, and
-- `rest` is still to come.
pub record Shows (s : Console) (r : Run Console ℤ) (request text rest : Bytes) : Type 0 where
  pub next : Dudlc
  pub result : r ≡ done (pos 0) (record s { dudl = next; shown = s.shown ++ text ∷ [] })
  pub asks : next.con.sent ≡ s.dudl.con.sent ++ (request ++ b'\n' ∷ []) ∷ []
  pub idle : next.inreply ≡ false
  pub brings : Brings next.con rest

dmsg_msg-shown :
    (text : Bytes) (s : Console)
    → s.msg_cb ≡ true
    → dmsg_msg text s ≡ done tt (record s { shown = s.shown ++ text ∷ [] })
unfolding dmsg_msg
dmsg_msg-shown text s on =
    ap (λ b. done tt (if b then record s { shown = s.shown ++ text ∷ [] } else s)) on

-- Behind the answer
count_behind :
    (s : Console) (n : ℕ) (next : Dudlc) {r : Run Dudlc ℤ}
    → s.msg_cb ≡ true
    → r ≡ done (pos n) next
    → ◌>>=◌
        (λ (s : Console).
          ◌>>=◌
            (lift_run r)
            (λ n.
              if is_negative n
              then return (negsuc 0)
              else (dmsg_msg (codes "available tracks: " ++ print_int n ++ codes "\n")
                  >> return (pos 0)))
            s)
        report
        s
      ≡ done (pos 0) (record s {
        dudl = next;
        shown = s.shown ++ (codes "available tracks: " ++ print_int (pos n) ++ codes "\n") ∷ [];
      })
unfolding lift_run report
count_behind s n next on e =
    let some_left : is_negative (pos n) ≡ false = ground arith in
    let there = record s { dudl = next } in
    let text = codes "available tracks: " ++ print_int (pos n) ++ codes "\n" in
    rw (e, lift_run, ◌>>=◌, some_left)
      (ap
        (λ (r : Run Console (Unit {0})).
          ◌>>=◌ (λ (t : Console). ◌>>=◌ (λ (u : Console). r) (λ _. return (pos 0)) t) report there)
        (dmsg_msg-shown text there on))

count_shown :
    (libc : Libc) (s : Console) (n : ℕ) (rest : Bytes)
    → s.msg_cb ≡ true
    → Answer
        (cmd_int duc_open (codes "trackcount") s.dudl)
        (pos n)
        (wire_with s.dudl (codes "trackcount"))
        rest
    → Shows s
        ((run_trackcount libc [] >>= report) s)
        (codes "trackcount")
        (codes "available tracks: " ++ print_int (pos n) ++ codes "\n")
        rest
unfolding run_trackcount shown_int tracks lift lift_run dmsg_msg report
count_shown libc s n rest on answer = record {
  next = answer.next;
  result = count_behind s n answer.next on answer.result;
  asks = answer.sends;
  idle = answer.idle;
  brings = answer.brings;
}

count_named :
    (libc : Libc) (s : Console)
    → named libc (val_name (skip_space (codes "trackcount" ++ 0 ∷ []))) s
      ≡ (run_trackcount libc [] >>= report) s
unfolding named val_name skip_space cmd_find dudlc.Cstring.is_alpha
count_named libc s = refl

-- On a session that can send, with a callback set, `duc_cmd` runs a line of blanks and `trackcount`:
-- where the reply is one line that fits into the buffer, of a code that begins with 2 and with the
-- digits of an int that is not negative, and what follows it begins with no line break or 0, it sends
-- the request `trackcount`, with a line break behind it, and no other, shows "available tracks: ",
-- that int and a line break, and returns 0. No reply is awaited then, and what follows the reply is still to come. The network
-- brings the reply in any pieces.
pub duc_cmd-trackcount :
    (libc : Libc) (blanks : Bytes) (s : Console) (b c n : ℕ) (rest : Bytes)
    → All (λ d. is_space d ≡ true) blanks
    → s.msg_cb ≡ true
    → CanSend s.dudl
    → n < 2 ^ 31
    → IsCode b'2' b c
    → IsText (print_int (pos n))
    → IsFresh rest
    → Brings s.dudl.con (reply_lines b'2' b c [] (print_int (pos n)) rest)
    → Shows s
        (duc_cmd libc (blanks ++ (codes "trackcount" ++ 0 ∷ [])) s)
        (codes "trackcount")
        (codes "available tracks: " ++ print_int (pos n) ++ codes "\n")
        rest
unfolding duc_cmd
duc_cmd-trackcount libc blanks s b c n rest h on can small code fits fresh brings =
    let answer =
      cmd_int-Answer s.dudl can (codes "trackcount") (omega arith) b c code (print_int (pos n)) rest
        fits fresh brings (pos n) small refl in
    let text = codes "available tracks: " ++ print_int (pos n) ++ codes "\n" in
    let line = codes "trackcount" ++ 0 ∷ [] in
    let same : duc_cmd libc (blanks ++ line) s ≡ (run_trackcount libc [] >>= report) s =
      ap (λ t. named libc (val_name t) s) (skip_space-front blanks line h) ∙ count_named libc s in
    subst (λ r. Shows s r (codes "trackcount") text rest) (sym same)
      (count_shown libc s n rest on answer)
