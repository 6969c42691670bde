-- ===== src/Cmd/Console/Ends.antt =====
-- How runs of libdudlccmd end: with a result and no reply awaited, or by a fault.
use dudlc.Shared.{
  Bool, true, false, Bool-cases, Option, none, some, ◌≡◌, inl, inr, Bytes, if◌then◌else◌,
}
use dudlc.Session.{Dudlc}
use dudlc.Session.Run.{Run, done, fault, null_pointer, Fault, Ends, returns, faults, ◌>>=◌}
use dudlc.Proto.{M}
use dudlc.Cmd.Console.{Console, C, lift, lift_run, dmsg_msg, dmsg_null, dmsg_line}

-- A run that ends: it returns with no reply awaited, or C does not define what it does.
pub data Settles {A : Type 0} : Run Console A → Type 0 where
  settled : (a : A) (s : Console) → s.dudl.inreply ≡ false → Settles (done a s)
  stopped : (why : Fault) → Settles (fault why)

-- From every session that awaits no reply.
abbrev pub Settling : {A : Type 0} → C A → Type 0
Settling m = (s : Console) → s.dudl.inreply ≡ false → Settles (m s)

module _ {A B : Type 0} where
  pub bind_run-Settles :
      {r : Run Console A} (f : A → C B) (s : Console)
      → Settles r
      → ((a : A) → Settling (f a))
      → Settles (◌>>=◌ (λ _. r) f s)
  bind_run-Settles f s (settled a t i) h = h a t i
  bind_run-Settles f s (stopped why) h = stopped why

  -- The rule for a sequence of two steps.
  pub bind-Settling :
      {m : C A} {f : A → C B} → Settling m → ((a : A) → Settling (f a)) → Settling (m >>= f)
  bind-Settling {m} {f} hm hf s i = bind_run-Settles {r = m s} f s (hm s i) hf

module _ {A : Type 0} where
  pub return-Settling : (a : A) → Settling (λ (s : Console). done a s)
  return-Settling a s i = settled a s i

  pub if-Settling : (b : Bool) {m n : C A} → Settling m → Settling n → Settling (if b then m else n)
  if-Settling true hm hn = hm
  if-Settling false hm hn = hn

  lift_run-Settles :
      {P : A → Dudlc → Type 0} {r : Run Dudlc A} (s : Console)
      → Ends P r
      → ((a : A) (q : Dudlc) → P a q → q.inreply ≡ false)
      → Settles (lift_run r s)
  unfolding lift_run
  lift_run-Settles s (returns {a} {s = q} h) k = settled a (record s { dudl = q }) (k a q h)
  lift_run-Settles s (faults {why} h) k = stopped why

  -- A call of the library, of which it is known how it ends.
  pub lift-Settling :
      {P : A → Dudlc → Type 0} {m : M A}
      → ((q : Dudlc) → q.inreply ≡ false → Ends P (m q))
      → ((a : A) (q : Dudlc) → P a q → q.inreply ≡ false)
      → Settling (lift m)
  unfolding lift
  lift-Settling h k s i = lift_run-Settles s (h s.dudl i) k

pub dmsg_msg-Settling : (text : Bytes) → Settling (dmsg_msg text)
unfolding dmsg_msg
dmsg_msg-Settling text s i = elim (Bool-cases s.msg_cb) [
  | inl e ↦ rw e (settled _ _ i)
  | inr e ↦ rw e (settled _ _ i)
]

if_run-Settles :
    {A : Type 0} (b : Bool) {x y : Run Console A}
    → Settles x
    → Settles y
    → Settles (if b then x else y)
if_run-Settles true hx hy = hx
if_run-Settles false hx hy = hy

pub dmsg_null-Settling : Settling dmsg_null
unfolding dmsg_null
dmsg_null-Settling s i = if_run-Settles s.msg_cb (stopped null_pointer) (settled tt s i)

pub dmsg_line-Settling : (text : Option Bytes) (behind : Bytes) → Settling (dmsg_line text behind)
unfolding dmsg_line
dmsg_line-Settling (some text) behind s i = dmsg_msg-Settling _ s i
dmsg_line-Settling none behind s i = dmsg_null-Settling s i

module _ {A B : Type 0} where
  -- A call of the library behind which a reply may be awaited, and what follows it.
  pub bind_lift-Settles :
      {P : A → Dudlc → Type 0} {r : Run Dudlc A} (k : A → C B) (s : Console)
      → Ends P r
      → ((a : A) (q : Dudlc) → P a q → Settles (k a (record s { dudl = q })))
      → Settles (◌>>=◌ (lift_run r) k s)
  unfolding lift_run
  bind_lift-Settles k s (returns {a} {s = q} h) f = f a q h
  bind_lift-Settles k s (faults {why} h) f = stopped why
