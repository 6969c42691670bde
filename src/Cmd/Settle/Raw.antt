-- ===== src/Cmd/Settle/Raw.antt =====
-- How `open`, `raw` and `status` end.
use dudlc.Shared.{
  ℕ, zero, suc, ◌<◌, Bool, true, false, Bool-cases, inl, inr, Option, none, some, List, ◌≡◌, ℤ, pos,
  negsuc, Bytes, codes, arith, ◌++◌, refl, ap, ◌∙◌, if◌then◌else◌,
}
use dudlc.Sock.Progress.{rounds}
use dudlc.Session.{Dudlc, connected}
use dudlc.Session.Run.{
  Run, done, ◌>>=◌, ◌>>◌, gets, Ends, returns, faults, Ends-bind, fail, return, wrong_type, fault,
  null_pointer,
}
use dudlc.Proto.{Next, another, broken, over}
use dudlc.Proto.Last.{NextEnd, rnext-NextEnds}
use dudlc.Request.{vsend, cmd_int}
use dudlc.Request.Idle.{Sent, vsend-Sent}
use dudlc.Open.{duc_open}
use dudlc.Open.Ready.{duc_open-Opened}
use dudlc.Command.Player.{status}
use dudlc.Cmd.Console.{Console, Libc, C, lift, lift_run, dmsg_line, dmsg_msg, dmsg_null}
use dudlc.Cmd.Console.Ends.{
  Settles, settled, stopped, Settling, bind-Settling, return-Settling, lift-Settling,
  bind_lift-Settles, bind_run-Settles, dmsg_msg-Settling, dmsg_null-Settling,
}
use dudlc.Cmd.Settle.{arg_text-Settling, int-Settling}
use dudlc.Cmd.Run.{Value, succ_of}
use dudlc.Cmd.Run.Raw.{
  format_of, bad_format, send_format, raw_next, raw_loop, show_code, raw_end, line_text, code_text,
  status_text, show_status, run_open, run_raw, run_status,
}

Opened-idle : (b : Bool) (q : Dudlc) → dudlc.Request.Idle.Opened b q → q.inreply ≡ false
Opened-idle true q h = h.0
Opened-idle false q h = h

pub run_open-Settling : (libc : Libc) (argv : List Value) → Settling (run_open libc argv)
unfolding run_open succ_of
run_open-Settling libc argv =
    bind-Settling (lift-Settling duc_open-Opened Opened-idle) (λ good. return-Settling _)

show_status-Settling : (t : Option Bytes) → Settling (show_status t)
unfolding show_status
show_status-Settling none = return-Settling (negsuc 0)
show_status-Settling (some text) =
    bind-Settling (dmsg_msg-Settling text) (λ _. return-Settling (pos 0))

status_at-Settles :
    (b : Bool) (s : Console)
    → s.dudl.inreply ≡ false
    → Settles
        (lift_run (if b then cmd_int duc_open (codes "status") s.dudl else done (pos 3) s.dudl) s)
unfolding lift_run
status_at-Settles true s i = unfold lift in int-Settling (codes "status") s i
status_at-Settles false s i = settled (pos 3) s i

status-Settling : Settling (lift (status duc_open))
unfolding status lift
status-Settling s i = status_at-Settles (connected s.dudl) s i

pub run_status-Settling : (libc : Libc) (argv : List Value) → Settling (run_status libc argv)
unfolding run_status
run_status-Settling libc argv =
    bind-Settling status-Settling (λ n. show_status-Settling (status_text n))

show_code-Settling : (code : Option Bytes) → Settling (show_code code)
unfolding show_code
show_code-Settling none s i = bind-Settling dmsg_null-Settling (λ _. return-Settling (pos 0)) s i
show_code-Settling (some text) s i =
    bind-Settling (dmsg_msg-Settling (codes "return code: " ++ text ++ codes "\n"))
      (λ _. return-Settling (pos 0)) s i

raw_end-Settling : (r : Next) → Settling (raw_end r)
unfolding raw_end
raw_end-Settling another s i = settled (pos 0) s i
raw_end-Settling broken s i = settled (negsuc 0) s i
raw_end-Settling over s i = show_code-Settling (code_text s.dudl.code) s i

null-Settles :
    (b : Bool) (m : C Next) (s : Console)
    → Settles (m s)
    → Settles (◌>>=◌ (λ _. if b then fault null_pointer else done tt s) (λ _. m) s)
null-Settles true m s h = stopped _
null-Settles false m s h = h

shown_line-Settles :
    (l : Option Bytes) {again : C Next} (s : Console)
    → ((t : Console) → rounds t.dudl.con ≡ rounds s.dudl.con → Settles (again t))
    → Settles ((dmsg_line (line_text l) (codes "\n") >> again) s)
unfolding dmsg_line dmsg_msg dmsg_null line_text
shown_line-Settles none {again} s h = null-Settles s.msg_cb again s (h s refl)
shown_line-Settles (some l) s again = elim (Bool-cases s.msg_cb) [
  | inl e ↦ rw e (again _ refl)
  | inr e ↦ rw e (again _ refl)
]

raw_next-Settles :
    (again : C Next) (s : Console) (r : Next) (q : Dudlc)
    → NextEnd s.dudl r q
    → ((t : Console) → rounds t.dudl.con < rounds s.dudl.con → Settles (again t))
    → Settles (raw_next again r (record s { dudl = q }))
unfolding raw_next
raw_next-Settles again s another q h k =
    shown_line-Settles q.line (record s { dudl = q }) (λ t e. k t (omega (arith, e, h.fewer)))
raw_next-Settles again s broken q h k = settled broken (record s { dudl = q }) h.idle
raw_next-Settles again s over q h k =
    settled over (record s { dudl = q }) (ap (λ t. t.inreply) h.1 ∙ h.0)

raw_loop-Settles : (n : ℕ) (s : Console) → rounds s.dudl.con < n → Settles (raw_loop n s)
unfolding raw_loop lift
raw_loop-Settles zero s h = absurd (omega arith)
raw_loop-Settles (suc n) s h =
    bind_lift-Settles (raw_next (raw_loop n)) s (rnext-NextEnds s.dudl)
      λ r q e. raw_next-Settles (raw_loop n) s r q e λ t fewer. raw_loop-Settles n t (omega arith)

-- Behind the request.
reply_shown : C ℤ
reply_shown = gets (λ (s : Console). suc (suc (rounds s.dudl.con))) >>= λ n. raw_loop n >>= raw_end

reply_shown-Settles : (s : Console) → Settles (reply_shown s)
unfolding reply_shown
reply_shown-Settles s =
    bind_run-Settles raw_end s (raw_loop-Settles (suc (suc (rounds s.dudl.con))) s (omega arith))
      raw_end-Settling

-- Behind `duc_open`, where the format is read.
read_format-Ends :
    (b : Bool) (q : Dudlc)
    → dudlc.Request.Idle.Opened b q
    → Ends (λ _ (p : Dudlc). p.inreply ≡ false) ((if b then fail wrong_type else return false) q)
read_format-Ends true q h = faults (cc)
read_format-Ends false q h = returns h

idle_if :
    {P : Bool → Dudlc → Type 0} (awaited : Bool) (r : Run Dudlc Bool) {m : Run Dudlc Bool}
    → awaited ≡ false
    → Ends P m
    → Ends P (if awaited then r else m)
idle_if true r e h = absurd (cc)
idle_if false r e h = h

bad_format-Ends :
    (q : Dudlc) → q.inreply ≡ false → Ends (λ b (p : Dudlc). p.inreply ≡ false) (bad_format q)
unfolding bad_format
bad_format-Ends q i =
    idle_if q.inreply _ i (Ends-bind duc_open _ q (duc_open-Opened q i) read_format-Ends)

raw_sent-Settling : (text : Option Bytes) → Settling (send_format text >>= λ good. reply_shown)
unfolding send_format lift
raw_sent-Settling none s i =
    bind_lift-Settles (λ good. reply_shown) s (bad_format-Ends s.dudl i)
      (λ b q h. reply_shown-Settles (record s { dudl = q }))
raw_sent-Settling (some text) s i =
    bind_lift-Settles (λ good. reply_shown) s
      (vsend-Sent duc_open (λ q. Unit {0}) (λ q h u. duc_open-Opened q h) s.dudl i tt text)
      (λ b q h. reply_shown-Settles (record s { dudl = q }))

pub run_raw-Settling : (libc : Libc) (argv : List Value) → Settling (run_raw libc argv)
unfolding run_raw reply_shown
run_raw-Settling libc argv =
    bind-Settling (arg_text-Settling argv 0) (λ line. raw_sent-Settling (format_of line))
