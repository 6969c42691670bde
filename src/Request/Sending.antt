-- ===== src/Request/Sending.antt =====
-- What `_duc_vsend` of lib/proto.c puts on the wire, by the length of the request.
use dudlc.Shared.{
  ℕ, zero, suc, List, take, ap, if◌then◌else◌, ◌+◌, ◌≤◌, Bool, true, false, none, [], ◌∷◌, ◌++◌,
  ◌≡◌, ltb, Bytes, length, arith, ◌∙◌, ◌-◌, refl,
}
use dudlc.Sock.{Sending, took, sock_send, next_send}
use dudlc.Session.{Dudlc}
use dudlc.Session.Run.{Run, done, fault, send_buffer, ◌>>=◌, return}
use dudlc.Proto.{M}
use dudlc.Request.{buf_len_line, after_send, send_line, vsend}
use dudlc.Open.{duc_open, open_with}

duc_open_lem : (p : Dudlc) → p.con.is_open ≡ true → duc_open p ≡ done true p
unfolding duc_open open_with
duc_open_lem p o = rw o refl

bind_done :
    (m : M Bool) (f : Bool → M Bool) (p : Dudlc) (b : Bool) → m p ≡ done b p → (m >>= f) p ≡ f b p
bind_done m f p b h = rw (h, ◌>>=◌) refl

if_false : {b : Bool} (x y : Run Dudlc Bool) → b ≡ false → (if b then x else y) ≡ y
if_false x y e = rw e refl

vsend_lem :
    (p : Dudlc)
    → p.inreply ≡ false
    → p.con.is_open ≡ true
    → (text : Bytes) → vsend duc_open text p ≡ send_line text p
unfolding vsend
vsend_lem p i o text =
    if_false _ _ i
    ∙ (bind_done duc_open (λ b. if b then send_line text else return false) p true
        (duc_open_lem p o))

-- A request of at most 2046 bytes, on an open connection of which no reply is awaited and whose next
-- send takes all that it is given, is sent once, with a line break behind it; a reply is awaited then,
-- and the last reply's code and line are gone.
pub vsend_sent :
    (p : Dudlc)
    → p.inreply ≡ false
    → p.con.is_open ≡ true
    → p.con.sendings ≡ []
    → (text : Bytes) → length text ≤ 2046
    → vsend duc_open text p
      ≡ done true (record p {
        con = record p.con { sent = p.con.sent ++ (text ++ b'\n' ∷ []) ∷ [] };
        inreply = true;
        code = [];
        line = none;
      })
unfolding send_line after_send sock_send next_send
vsend_sent p i o r text h =
    let short : ltb (buf_len_line - 1) (length text) ≡ false = ground arith in
    let fits : ltb buf_len_line (length text + 2) ≡ false = ground arith in
    vsend_lem p i o text ∙ rw (short, fits, o, r) refl

take_front : (n : ℕ) (xs ys : Bytes) → n ≤ length xs → take n (xs ++ ys) ≡ take n xs
take_front zero xs ys h = refl
take_front (suc n) [] ys h = absurd (omega arith)
take_front (suc n) (x ∷ xs) ys h = ap (λ t. x ∷ t) (take_front n xs ys (omega arith))

-- Where send takes only a part of a request of at most 2046 bytes that ends before its line break, on
-- an open connection of which no reply is awaited, `_duc_vsend` returns 0 all the same and a reply is
-- awaited: just that part is on the wire, and the rest is not sent again.
pub vsend_cut :
    (p : Dudlc)
    → p.inreply ≡ false
    → p.con.is_open ≡ true
    → (n : ℕ) (later : List Sending) → p.con.sendings ≡ took n ∷ later
    → (text : Bytes) → length text ≤ 2046
    → n ≤ length text
    → vsend duc_open text p
      ≡ done true (record p {
        con = record p.con { sent = p.con.sent ++ take n text ∷ []; sendings = later };
        inreply = true;
        code = [];
        line = none;
      })
unfolding send_line after_send sock_send next_send
vsend_cut p i o n later r text h part =
    let short : ltb (buf_len_line - 1) (length text) ≡ false = ground arith in
    let fits : ltb buf_len_line (length text + 2) ≡ false = ground arith in
    vsend_lem p i o text ∙ rw (short, fits, o, r, take_front n text (b'\n' ∷ []) part) refl

-- A request of exactly 2047 bytes, on an open connection of which no reply is awaited, writes a byte
-- behind the end of the buffer of 2048.
pub vsend_overflow :
    (p : Dudlc)
    → p.inreply ≡ false
    → p.con.is_open ≡ true
    → (text : Bytes) → length text ≡ 2047
    → vsend duc_open text p ≡ fault send_buffer
unfolding send_line
vsend_overflow p i o text h =
    let short : ltb (buf_len_line - 1) (length text) ≡ false = ground arith in
    let over : ltb buf_len_line (length text + 2) ≡ true = ground arith in
    vsend_lem p i o text ∙ rw (short, over) refl
