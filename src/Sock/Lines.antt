-- ===== src/Sock/Lines.antt =====
-- What the network brings, and the lines that duc_sock_getline of lib/sock.c makes of it.
use dudlc.Shared.{
  ℕ, suc, ◌+◌, ◌-◌, ◌≤◌, ◌<◌, true, ◌&&◌, Option, none, some, List, [], ◌∷◌, ◌++◌, ◌≡◌, refl, sym,
  ap, ◌∙◌, append_assoc, arith, ltb, ◌==◌, Bytes, length, set, take, drop, take-append-drop,
  take_all, drop-append, drop_add, drop-set_behind, Bool-cases, inl, inr,
}
use dudlc.Cstring.{c_string}
use dudlc.Sock.{
  Sock, Recv, arrived, failed, buf_len_rcv, left_over, receive, next_recv, sock_recv, line_span,
  break_span, cut_line, next_line, sock_getline,
}
use dudlc.Sock.Buffer.{IsValid, unread, freeline_lem, line_span-le-length}
use dudlc.Sock.Split.{IsSeparator, IsOneLine, IsPastBreaks, split}

-- What recv has yet to give on this connection.
abbrev pub script_bytes : List Recv → Bytes
script_bytes [] = []
script_bytes (arrived bs ∷ later) = bs ++ script_bytes later
script_bytes (failed ∷ later) = script_bytes later

-- The bytes that are still to be handed out: those in the buffer, then those that will arrive.
abbrev pub pending : Sock → Bytes
pending s = unread s ++ script_bytes s.script

pub left_over_lem :
    (room : ℕ) (bs : Bytes) (later : List Recv)
    → take room bs ++ script_bytes (left_over room bs later) ≡ bs ++ script_bytes later
left_over_lem room bs later = elim (Bool-cases (ltb room (length bs))) [
  | inl more ↦ rw more (
      sym (append_assoc (take room bs) (drop room bs) (script_bytes later))
      ∙ ap (λ t. t ++ script_bytes later) (take-append-drop room bs))
  | inr all ↦ rw all (ap (λ t. t ++ script_bytes later) (take_all room bs (ground arith)))
]

receive-pending :
    (bs : Bytes) (later : List Recv) (s : Sock)
    → s.llen ≤ length s.buf
    → (room : ℕ)
    → drop s.llen (s.buf ++ take room bs) ++ script_bytes (left_over room bs later)
      ≡ drop s.llen s.buf ++ (bs ++ script_bytes later)
receive-pending bs later s h room =
    rw (drop-append s.llen s.buf (take room bs) h)
      (rw append_assoc (ap (λ t. drop s.llen s.buf ++ t) (left_over_lem room bs later)))

next_recv-pending :
    (l : List Recv) (s t : Sock)
    → s.llen ≤ length s.buf
    → next_recv l s ≡ (true, t)
    → pending t ≡ unread s ++ script_bytes l
unfolding next_recv receive unread
next_recv-pending [] s t v h = cc
next_recv-pending (failed ∷ later) s t v h = cc
next_recv-pending (arrived bs ∷ later) s t v h =
    ground (arith, receive-pending bs later s v (buf_len_rcv - length s.buf - 1))

next_recv-unread :
    (l : List Recv) (s t : Sock)
    → s.llen ≤ length s.buf
    → next_recv l s ≡ (true, t)
    → (chunk : Bytes) × (unread t ≡ unread s ++ chunk) × (0 < length chunk)
unfolding next_recv receive unread
next_recv-unread [] s t v h = cc
next_recv-unread (failed ∷ later) s t v h = cc
next_recv-unread (arrived bs ∷ later) s t v h =
    let chunk = take (buf_len_rcv - length s.buf - 1) bs in
    (chunk, ground (arith, drop-append s.llen s.buf chunk v), ground arith)

-- From a valid buffer, a receive that succeeds puts a byte or more behind what the buffer has yet to
-- hand out, and changes nothing of what is to come in all.
pub sock_recv-pending :
    (s t : Sock)
    → IsValid s
    → sock_recv s ≡ (true, t)
    → (pending t ≡ pending s)
      × ((chunk : Bytes) × (unread t ≡ unread s ++ chunk) × (0 < length chunk))
unfolding sock_recv
sock_recv-pending s t v h = (
  ground (arith, next_recv-pending s.script s t v.line_within),
  ground (arith, next_recv-unread s.script s t v.line_within),
)

-- What `duc_sock_getline` may give: no line, and everything is still to come; or the line that
-- stands first in what is to come, which is now what stands behind the line's separator, and the
-- buffer does not begin with a line break then.
abbrev pub Hands : Sock → Option Bytes × Sock → Type 0
Hands s (none, t) = pending t ≡ pending s
Hands s (some line, t) =
    (separator : Bytes) × (pending s ≡ c_string line ++ (separator ++ pending t))
    × IsSeparator separator
    × IsOneLine (c_string line)
    × IsPastBreaks (unread t)

behind_cut :
    (s rest : Bytes) (l : ℕ)
    → drop (break_span (drop (suc l) s)) (drop (suc l) s) ≡ rest
    → drop (l + 1 + break_span (drop (l + 1) s)) (set s l 0) ≡ rest
behind_cut s rest l h =
    let e : l + 1 ≡ suc l = omega arith in
    let k = break_span (drop (suc l) s) in
    rw e (drop_add (suc l) k (suc l + k) (set s l 0) refl ∙ ap (drop k) (drop-set_behind l s 0) ∙ h)

cut_line-Hands :
    (s : Sock)
    → s.llen ≡ 0
    → line_span s.buf < length s.buf
    → Hands s (cut_line (line_span s.buf) s)
unfolding cut_line unread
cut_line-Hands s z h =
    let cut = split s.buf h in
    let l = line_span s.buf in
    let later = script_bytes s.script in
    let behind = behind_cut s.buf cut.rest l cut.rest_is in
    (
      cut.separator,
      (rw (cut.text_is (0 ∷ []), behind)
          (ap (λ n. drop n s.buf ++ later) z ∙ ap (λ b. b ++ later) cut.whole ∙ simp append_assoc)),
      cut.is_separator,
      (rw (cut.text_is (0 ∷ [])) cut.one_line),
      (rw behind cut.past_breaks),
    )

next_line-Hands :
    (s : Sock) → s.llen ≡ 0 → line_span s.buf < buf_len_rcv - 1 → Hands s (next_line s)
unfolding next_line unread
next_line-Hands s z h = elim (Bool-cases (length s.buf == 0)) [
  | inl e ↦ rw e refl
  | inr e ↦
      elim (Bool-cases
        (line_span s.buf == length s.buf && ltb (line_span s.buf) (buf_len_rcv - 1))) [
          | inl f ↦ rw (e, f) (sym (ap (λ n. drop n s.buf ++ script_bytes s.script) z))
          | inr f ↦ rw (e, f) (cut_line-Hands s z (ground (arith, line_span-le-length s.buf)))
        ]
]

Hands-pending :
    (s u : Sock) → pending u ≡ pending s → (r : Option Bytes × Sock) → Hands u r → Hands s r
Hands-pending s u e (none, t) h = h ∙ e
Hands-pending s u e (some line, t) (separator, p, q, o, n) = (separator, sym e ∙ p, q, o, n)

-- From a valid buffer whose next line is shorter than the buffer, `duc_sock_getline` hands out just
-- the text in front of the first line break or 0 of what is to come, and takes that text away from it
-- with that byte and all the line breaks right behind it that are in the buffer; or it hands out no
-- line and takes nothing away.
pub sock_getline-Hands :
    (s : Sock)
    → IsValid s
    → line_span (unread s) < buf_len_rcv - 1
    → (r : Option Bytes × Sock) × (sock_getline s ≡ some r) × Hands s r
unfolding sock_getline
sock_getline-Hands s v h =
    let freed = record s { buf = unread s; llen = 0 } in
    (
      next_line freed,
      rw (freeline_lem v, sock_getline),
      Hands-pending s freed (unfold unread in refl) _ (next_line-Hands freed refl h),
    )
