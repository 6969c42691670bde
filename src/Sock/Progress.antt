-- ===== src/Sock/Progress.antt =====
-- How much is left to read from a connection of lib/sock.c.
use dudlc.Shared.{
  ℕ, ◌+◌, ◌-◌, ◌*◌, ◌≤◌, ◌<◌, true, ◌&&◌, Option, none, some, List, [], ◌∷◌, ◌++◌, ◌≡◌, refl, ap,
  ◌∙◌, arith, ltb, ◌==◌, Bytes, length, set, take, drop, length-append, length-set, length-drop,
  Bool-cases, inl, inr,
}
use dudlc.Sock.{
  Sock, Recv, arrived, failed, buf_len_rcv, left_over, receive, next_recv, sock_recv, freeline,
  line_span, break_span, cut_line, next_line, sock_getline,
}
use dudlc.Sock.Buffer.{unread, unread_start}
use mathlib.Core.Path.{subst}
use dudlc.Sock.Lines.{script_bytes, left_over_lem}

-- An upper bound of the lines and pieces that are left.
unfoldable pub rounds : Sock → ℕ
unfolding unread
rounds s = length (unread s) + 2 * length (script_bytes s.script)

-- `freeline` moves the buffer up, or leaves it alone.
record Freed (s t : Sock) : Type 0 where
  within : s.llen ≤ length s.buf
  moved : t.buf ≡ unread s
  pub none_out : t.llen ≡ 0
  same_script : t.script ≡ s.script
  same_open : t.is_open ≡ s.is_open

freeline-Freed : (s t : Sock) → freeline s ≡ some t → Freed s t
unfolding freeline unread
freeline-Freed s t h = ground (arith, unread_start s, unread_start t)

rounds_start :
    (t : Sock) → t.llen ≡ 0 → rounds t ≡ length t.buf + 2 * length (script_bytes t.script)
unfolding rounds
rounds_start t z = rw (unread_start t z)

Freed-rounds : (s t : Sock) → Freed s t → rounds t ≡ rounds s
Freed-rounds s t f = rounds_start t f.none_out ∙ rw (f.moved, f.same_script) (unfold rounds in refl)

-- What `next_line` hands out of a buffer that begins with the next line.
pub record Taken (s t : Sock) : Type 0 where
  pub fewer : rounds t < rounds s
  pub same_open : t.is_open ≡ s.is_open

pub record Kept (s t : Sock) : Type 0 where
  pub same_rounds : rounds t ≡ rounds s
  pub none_out : t.llen ≡ 0
  pub same_open : t.is_open ≡ s.is_open

abbrev pub Outcome : Sock → Option Bytes × Sock → Type 0
Outcome s (none, t) = Kept s t
Outcome s (some l, t) = Taken s t

cut_line_fewer :
    (s : Sock) → s.llen ≡ 0 → 0 < length s.buf → rounds (cut_line (line_span s.buf) s).1 < rounds s
unfolding cut_line rounds unread
cut_line_fewer s z h =
    let l = line_span s.buf in
    let n = l + 1 + break_span (drop (l + 1) s.buf) in
    rw z (omega (arith, length-drop n (set s.buf l 0), length-set s.buf l 0))

next_line-Outcome : (s : Sock) → s.llen ≡ 0 → Outcome s (next_line s)
unfolding next_line
next_line-Outcome s z = elim (Bool-cases (length s.buf == 0)) [
  | inl e ↦ rw e (record { same_rounds = refl; none_out = z; same_open = refl })
  | inr e ↦
      elim (Bool-cases
        (line_span s.buf == length s.buf && ltb (line_span s.buf) (buf_len_rcv - 1))) [
          | inl f ↦
              rw (e, f)
                (record {
                  same_rounds = rw (rounds_start s z) (rounds_start _ refl);
                  none_out = refl;
                  same_open = refl;
                })
          | inr f ↦
              rw (e, f)
                (record {
                  fewer = cut_line_fewer s z (ground arith);
                  same_open = unfold cut_line in refl;
                })
        ]
]

Outcome-Freed : (s u : Sock) (r : Option Bytes × Sock) → Freed s u → Outcome u r → Outcome s r
Outcome-Freed s u (none, t) f o = record {
  same_rounds = o.same_rounds ∙ Freed-rounds s u f;
  none_out = o.none_out;
  same_open = o.same_open ∙ f.same_open;
}
Outcome-Freed s u (some l, t) f o = record {
  fewer = omega (arith, o.fewer, Freed-rounds s u f);
  same_open = o.same_open ∙ f.same_open;
}

getline_cases :
    (s : Sock) (freed : Option Sock) (r : Option Bytes × Sock)
    → freeline s ≡ freed
    → sock_getline s ≡ some r
    → Outcome s r
unfolding sock_getline
getline_cases s none r e h =
    let bad : ◌≡◌ {A = Option (Option Bytes × Sock)} none (some r) = rw (e, sock_getline) at h in cc
getline_cases s (some u) r e h =
    let f = freeline-Freed s u e in
    let handed : some (next_line u) ≡ some r = rw (e, sock_getline) at h in
    let same : next_line u ≡ r = cc in
    subst (Outcome s) same (Outcome-Freed s u (next_line u) f (next_line-Outcome u f.none_out))

-- A line that is handed out leaves fewer rounds; where there is none the rounds stay.
pub sock_getline-Outcome :
    (s : Sock) (r : Option Bytes × Sock) → sock_getline s ≡ some r → Outcome s r
sock_getline-Outcome s r = getline_cases s (freeline s) r refl

receive_fewer :
    (bs : Bytes) (later : List Recv) (s : Sock)
    → s.llen ≡ 0
    → (room : ℕ) → 0 < length (take room bs)
    → rounds (record s { buf = s.buf ++ take room bs; script = left_over room bs later })
      < length s.buf + 2 * length (bs ++ script_bytes later)
receive_fewer bs later s z room h =
    let t = record s { buf = s.buf ++ take room bs; script = left_over room bs later } in
    omega (
      arith,
      rounds_start t z,
      length-append s.buf (take room bs),
      length-append (take room bs) (script_bytes (left_over room bs later)),
      ap length (left_over_lem room bs later),
    )

next_recv-Taken :
    (l : List Recv) (s t : Sock)
    → s.llen ≡ 0
    → next_recv l s ≡ (true, t)
    → (rounds t < length s.buf + 2 * length (script_bytes l)) × (t.is_open ≡ s.is_open)
unfolding next_recv receive
next_recv-Taken [] s t z h = cc
next_recv-Taken (failed ∷ later) s t z h = cc
next_recv-Taken (arrived bs ∷ later) s t z h =
    ground (arith, receive_fewer bs later s z (buf_len_rcv - length s.buf - 1))

-- Behind a call of `duc_sock_getline` that handed out nothing, a receive leaves fewer rounds.
pub sock_recv-Taken : (s t : Sock) → s.llen ≡ 0 → sock_recv s ≡ (true, t) → Taken s t
unfolding sock_recv
sock_recv-Taken s t z h =
    let moved : (rounds t < length s.buf + 2 * length (script_bytes s.script))
        × (t.is_open ≡ s.is_open) =
      ground (arith, next_recv-Taken s.script s t z) in
    record { fewer = omega (arith, moved.0, rounds_start s z); same_open = moved.1 }
