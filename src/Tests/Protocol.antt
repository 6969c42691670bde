-- ===== src/Tests/Protocol.antt =====
-- Examples for the theorems on sockets, replies and requests.
use dudlc.Shared.{
  ◌-◌, ◌<◌, true, false, none, some, Option, [], ◌∷◌, ◌≡◌, refl, arith, pos, codes, Bytes,
}
use dudlc.Sock.{took, Sock, sock_getline, sock_recv, line_span, buf_len_rcv}
use dudlc.Sock.Buffer.{IsValid, unread, sock_recv-IsValid, sock_getline-IsValid}
use dudlc.Sock.Lines.{Hands, pending, sock_recv-pending, sock_getline-Hands}
use dudlc.Sock.Overlong.{sock_recv_full}
use dudlc.Session.{Dudlc}
use dudlc.Session.Run.{Ends, done, fault, send_buffer}
use dudlc.Proto.{rlast}
use dudlc.Sock.{arrived, is_break}
use dudlc.Sock.Split.{IsOneLine}
use dudlc.Sock.Arrival.{Brings}
use dudlc.Proto.Reply.{reply_lines, IsText, IsCode, WholeReply, rlast-WholeReply}
use dudlc.Shared.{Bool, not, ◌&&◌, ◌||◌, ◌==◌, length}
use dudlc.Proto.Last.{LastEnds, rlast-LastEnds}
use dudlc.Row.{artist_parse, Track, track_parse}
use dudlc.Request.{cmd_succ, cmd_int, cmd_conv, vsend}
use dudlc.Request.Idle.{Opened, Succeeded, Counted, Returned}
use dudlc.Request.Sending.{vsend_cut, vsend_overflow}
use dudlc.Open.{duc_open}
use dudlc.Open.Answers.{Answer, cmd_int-Answer, cmd_conv-Answer}
use dudlc.Cstring.{strtol, advance}
use dudlc.Cstring.Decimal.{print_int}
use dudlc.Field.{fielddup}
use dudlc.Shared.{◌++◌}
use dudlc.Open.Ready.{duc_open-Opened}
use dudlc.Open.Requests.{cmd_succ-duc_open, cmd_int-duc_open, cmd_conv-duc_open}
use dudlc.Iterate.{Rows, it_newv}
use dudlc.Iterate.Whole.{Idle, it_newv-Idle}
use dudlc.Command.Queue.{queuealbum}
use dudlc.Command.Queue.Ends.{queuealbum-Idle}
use dudlc.Tests.Samples.{
  idle_sock, some_artist, fresh, half_read, connected_session, awaiting, letters, length-letters,
  full_sock,
}

half_read-IsValid : IsValid half_read
half_read-IsValid = record { fits = omega arith; line_within = omega arith; closed_empty = λ e. cc }

half_read_short : line_span (unread half_read) < buf_len_rcv - 1
unfolding line_span unread
half_read_short = omega arith

rlast-LastEnds_example : LastEnds awaiting (rlast awaiting)
rlast-LastEnds_example = rlast-LastEnds awaiting refl

duc_open-Opened_example : Ends Opened (duc_open fresh)
duc_open-Opened_example = duc_open-Opened fresh refl

sock_getline-Hands_example :
    (r : Option Bytes × Sock) × (sock_getline half_read ≡ some r) × Hands half_read r
sock_getline-Hands_example = sock_getline-Hands half_read half_read-IsValid half_read_short

sock_recv-pending_example :
    (pending (sock_recv half_read).1 ≡ pending half_read)
    × ((chunk : Bytes) × (unread (sock_recv half_read).1 ≡ unread half_read ++ chunk)
        × (0 < length chunk))
unfolding sock_recv
sock_recv-pending_example =
    sock_recv-pending half_read (sock_recv half_read).1 half_read-IsValid refl

cmd_succ-duc_open_example : Ends Succeeded (cmd_succ duc_open (codes "play") fresh)
cmd_succ-duc_open_example = cmd_succ-duc_open fresh refl (codes "play")

cmd_int-duc_open_example : Ends Counted (cmd_int duc_open (codes "trackcount") fresh)
cmd_int-duc_open_example = cmd_int-duc_open fresh refl (codes "trackcount")

cmd_conv-duc_open_example :
    Ends (Returned {A = Track}) (cmd_conv duc_open track_parse (codes "curtrack") fresh)
cmd_conv-duc_open_example = cmd_conv-duc_open track_parse fresh refl (codes "curtrack")

it_newv-Idle_example :
    Ends
      (Idle {A = Option (Rows Track)})
      (it_newv duc_open track_parse (codes "tracksalbum 3") fresh)
it_newv-Idle_example = it_newv-Idle track_parse fresh refl (codes "tracksalbum 3")

queuealbum-Idle_example : Ends Idle (queuealbum duc_open (pos 3) fresh)
queuealbum-Idle_example = queuealbum-Idle (pos 3) fresh refl

-- The next send takes two bytes.
abbrev halting : Dudlc
halting = record connected_session { con = record half_read { sendings = took 2 ∷ [] } }

vsend_cut_example :
    vsend duc_open (codes "play") halting
    ≡ done true (record halting {
      con = record half_read { sent = codes "pl" ∷ []; sendings = [] };
      inreply = true;
      code = [];
      line = none;
    })
vsend_cut_example = vsend_cut halting refl refl 2 [] refl (codes "play") (omega arith) (omega arith)

vsend_overflow_example : vsend duc_open (letters 2047) connected_session ≡ fault send_buffer
vsend_overflow_example =
    vsend_overflow connected_session refl refl (letters 2047) (length-letters 2047)

sock_recv-IsValid_example : IsValid (sock_recv half_read).1
sock_recv-IsValid_example = sock_recv-IsValid half_read-IsValid

sock_getline-IsValid_example :
    (line : Option Bytes) × (t : Sock) × (sock_getline half_read ≡ some (line, t)) × IsValid t
sock_getline-IsValid_example = sock_getline-IsValid half_read half_read-IsValid half_read_short

sock_recv_full_example :
    sock_recv full_sock
    ≡ (false, record full_sock { is_open = false; buf = []; llen = 0; script = [] })
sock_recv_full_example = sock_recv_full full_sock (codes "y\n") [] refl (length-letters 2047) refl

-- A reply of two lines, of which the first piece stands in the buffer and holds half a line.
abbrev replying : Dudlc
replying = record awaiting {
  con = record half_read {
    buf = codes "641 stopped\n230-on";
    script = arrived (codes "e\n23") ∷ arrived (codes "0 two\n641 x") ∷ [];
  };
}

-- A test for line breaks and 0 bytes, which evaluates on a literal.
abbrev is_one_line : Bytes → Bool
is_one_line [] = true
is_one_line (c ∷ s) = not (is_break c || c == 0) && is_one_line s

is_one_line-IsOneLine : (s : Bytes) → is_one_line s ≡ true → IsOneLine s
is_one_line-IsOneLine [] h = tt
is_one_line-IsOneLine (c ∷ s) h = (ground arith, is_one_line-IsOneLine s (ground arith))

pub one_line-IsText : (s : Bytes) → is_one_line s ≡ true → length s < 2043 → IsText s
one_line-IsText s h l = (is_one_line-IsOneLine s h, l)

replying-Brings :
    Brings replying.con
      (reply_lines b'2' b'3' b'0' (codes "one" ∷ []) (codes "two") (codes "641 x"))
unfolding unread
replying-Brings = record {
  valid = record { fits = omega arith; line_within = omega arith; closed_empty = λ e. cc };
  open_now = refl;
  pieces = (omega arith, omega arith);
  to_come = refl;
}

rlast-WholeReply_example : WholeReply (rlast replying) b'2' b'3' b'0' (codes "two") (codes "641 x")
unfolding is_break
rlast-WholeReply_example =
    rlast-WholeReply b'2' b'3' b'0' (codes "one" ∷ []) (codes "two") (codes "641 x") replying
      (is_one_line-IsOneLine (codes "230") refl, λ e. cc)
      (one_line-IsText (codes "one") refl (omega arith), tt)
      (one_line-IsText (codes "two") refl (omega arith)) refl refl refl replying-Brings

-- An idle session to which the answer to a request comes in two pieces.
abbrev pub asking : Bytes → Bytes → Dudlc
asking front back = record connected_session {
  con = record idle_sock { is_open = true; script = arrived front ∷ arrived back ∷ [] };
}

pub asking-Brings :
    (front back : Bytes)
    → 0 < length front
    → 0 < length back
    → Brings (asking front back).con (front ++ (back ++ []))
unfolding unread
asking-Brings front back hf hb = record {
  valid = record { fits = omega arith; line_within = omega arith; closed_empty = λ e. cc };
  open_now = refl;
  pieces = (hf, (hb, tt));
  to_come = refl;
}

pub good-IsCode : IsCode b'2' b'2' b'0'
unfolding is_break
good-IsCode = (is_one_line-IsOneLine (codes "220") refl, λ e. cc)

cmd_int-Answer_example :
    Answer
      (cmd_int duc_open (codes "trackcount") (asking (codes "220 12") (codes "345\n")))
      (pos 12345)
      (codes "trackcount\n" ∷ [])
      []
unfolding is_break print_int
cmd_int-Answer_example =
    cmd_int-Answer (asking (codes "220 12") (codes "345\n"))
      (record { idle = refl; open_now = refl; accepts = refl }) (codes "trackcount") (omega arith)
      b'2' b'0' good-IsCode (codes "12345") [] (one_line-IsText (codes "12345") refl (omega arith))
      tt (asking-Brings (codes "220 12") (codes "345\n") (omega arith) (omega arith)) (pos 12345)
      (omega arith) refl

cmd_conv-Answer_example :
    Answer
      (cmd_conv duc_open artist_parse
        (codes "artistget 7")
        (asking (codes "220 7\tL") (codes "ow\n")))
      (some some_artist)
      (codes "artistget 7\n" ∷ [])
      []
unfolding is_break artist_parse strtol fielddup advance
cmd_conv-Answer_example =
    cmd_conv-Answer (asking (codes "220 7\tL") (codes "ow\n"))
      (record { idle = refl; open_now = refl; accepts = refl }) (codes "artistget 7") (omega arith)
      b'2' b'0' good-IsCode (codes "7\tLow") []
      (one_line-IsText (codes "7\tLow") refl (omega arith)) tt
      (asking-Brings (codes "220 7\tL") (codes "ow\n") (omega arith) (omega arith)) artist_parse
      some_artist (λ z. refl)
