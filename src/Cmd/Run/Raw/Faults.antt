-- ===== src/Cmd/Run/Raw/Faults.antt =====
-- cmd/command.c: where C does not define what `raw` does.
use dudlc.Shared.{
  ℕ, suc, true, false, All, none, some, [], ◌∷◌, ◌++◌, ◌≡◌, refl, ap, ◌∙◌, ◌==◌, if◌then◌else◌,
  Bytes,
}
use dudlc.Session.{Dudlc}
use dudlc.Session.Run.{done, fault, wrong_type, null_pointer, ◌>>=◌, return, fail}
use dudlc.Sock.Progress.{rounds}
use dudlc.Proto.{over, next_loop, after_loop, rnext}
use dudlc.Request.{vsend}
use dudlc.Open.{duc_open}
use dudlc.Cmd.Console.{Console, Libc, lift, lift_run, dmsg_null}
use dudlc.Cmd.Run.{text, arg_text}
use dudlc.Cmd.Run.Raw.{
  put, format_of, bad_format, send_format, raw_loop, raw_next, raw_end, show_code, code_text,
  run_raw,
}

format_of-none :
    (front : Bytes) (d : ℕ) (rest : Bytes)
    → All (λ c. (c == b'%') ≡ false) front
    → (d == b'%') ≡ false
    → format_of (front ++ b'%' ∷ d ∷ rest) ≡ none
unfolding format_of put
format_of-none [] d rest h other = rw other refl
format_of-none (c ∷ []) d rest (h, k) other = rw (h, other) refl
format_of-none (c ∷ e ∷ front) d rest (h, k) other =
    let later = format_of-none (e ∷ front) d rest k other in rw (h, later) refl

bad_format_lem :
    (p q : Dudlc) → p.inreply ≡ false → duc_open p ≡ done true q → bad_format p ≡ fault wrong_type
unfolding bad_format
bad_format_lem p q i o =
    let read : (duc_open >>= λ b. if b then fail wrong_type else return false) p
        ≡ fault wrong_type =
      rw (o, ◌>>=◌) refl in
    ap
      (λ b.
        if b
        then done false p
        else (duc_open >>= λ c. if c then fail wrong_type else return false) p)
      i
    ∙ read

-- `raw` hands its argument to `_duc_send` as the format: where no reply is awaited, `duc_open` succeeds
-- and the first `%` of the argument is followed by a byte that is not another, a conversion reads an
-- argument that is not there.
pub raw_format :
    (libc : Libc) (front : Bytes) (d : ℕ) (rest : Bytes) (s : Console) (q : Dudlc)
    → All (λ c. (c == b'%') ≡ false) front
    → (d == b'%') ≡ false
    → s.dudl.inreply ≡ false
    → duc_open s.dudl ≡ done true q
    → run_raw libc (text (front ++ b'%' ∷ d ∷ rest) ∷ []) s ≡ fault wrong_type
unfolding run_raw send_format arg_text lift lift_run
raw_format libc front d rest s q h other i o =
    let none_of = format_of-none front d rest h other in
    rw (none_of, ◌>>=◌, bad_format_lem s.dudl q i o) refl

idle_rnext : (q : Dudlc) → q.inreply ≡ false → rnext q ≡ done over q
unfolding rnext
idle_rnext q i =
    ap (λ b. if b then (next_loop (suc (rounds q.con)) >>= after_loop) q else done over q) i

null_code : (s : Console) → s.msg_cb ≡ true → show_code none s ≡ fault null_pointer
unfolding show_code dmsg_null
null_code s on = rw (on, ◌>>=◌) refl

-- Where the line of `raw` asks for no conversion, a message callback is set, the request is not sent,
-- and the attempt leaves no reply awaited and no code, the code that is shown is read through NULL.
pub raw_unsent :
    (libc : Libc) (line out : Bytes) (q : Dudlc) (s : Console)
    → format_of line ≡ some out
    → vsend duc_open out s.dudl ≡ done false q
    → q.inreply ≡ false
    → q.code ≡ []
    → s.msg_cb ≡ true
    → run_raw libc (text line ∷ []) s ≡ fault null_pointer
unfolding run_raw send_format arg_text raw_loop raw_next raw_end code_text lift lift_run
raw_unsent libc line out q s fmt unsent idle no_code on =
    let shown = record s { dudl = q } in
    rw (fmt, ◌>>=◌, unsent, idle_rnext q idle)
      (ap (λ c. show_code (code_text c) shown) no_code ∙ null_code shown on)
