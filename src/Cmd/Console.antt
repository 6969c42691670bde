-- ===== src/Cmd/Console.antt =====
-- cmd/msg.c: `dmsg_msg`, and the state of libdudlccmd: the session, the globals, and what has been
-- shown. The callback is client code: a call of it is an entry of `shown`.
pub mod Ends
use dudlc.Shared.{Bool, Option, none, some, List, [], ◌∷◌, ◌++◌, if◌then◌else◌, ℤ, ℕ, Bytes}
use dudlc.Session.{Dudlc}
use dudlc.Session.Run.{Run, done, fault, spent, null_pointer, Action}
use dudlc.Proto.{M}

-- `dfmt_bf` and `dfmt_nf`: what is put around the names of albums and artists, NULL for nothing.
pub record Look : Type 0 where
  pub bf : Option Bytes
  pub nf : Option Bytes

-- `msg_cb` is `dmsg_msg_cb != NULL`.
pub record Console : Type 0 where
  pub dudl : Dudlc
  pub look : Look
  pub msg_cb : Bool
  pub shown : List Bytes

-- What is used of the C library and not defined by the code: the time in the local zone, and
-- floating point, where a double is its bits. A double that has no int has none as its int.
pub record Libc : Type 0 where
  pub local_time : ℤ → Bytes
  pub local_stamp : ℤ → Bytes
  pub strtod : Bytes → ℕ × Bytes
  pub print_f : ℕ → Bytes
  pub double_of_int : ℤ → ℕ
  pub below_zero : ℕ → Bool
  pub int_of_double : ℕ → Option ℤ

abbrev pub C : Type 0 → Type 0
C = Action Console

-- A call of the library.
unfoldable pub lift_run : {A : Type 0} → Run Dudlc A → C A
lift_run (done a q) s = done a (record s { dudl = q })
lift_run (fault why) s = fault why
lift_run spent s = spent

unfoldable pub lift : {A : Type 0} → M A → C A
unfolding lift_run
lift m s = lift_run (m s.dudl) s

-- dmsg_msg, with the text that the format gives
unfoldable pub dmsg_msg : Bytes → C (Unit {0})
dmsg_msg text s = done tt (if s.msg_cb then record s { shown = s.shown ++ text ∷ [] } else s)

-- dmsg_msg with a NULL behind `%s`: without a callback it returns before it reads anything.
unfoldable pub dmsg_null : C (Unit {0})
dmsg_null s = if s.msg_cb then fault null_pointer else done tt s

-- `%s` for a pointer that may be NULL
unfoldable pub dmsg_line : Option Bytes → Bytes → C (Unit {0})
unfolding dmsg_msg dmsg_null
dmsg_line (some text) behind s = dmsg_msg (text ++ behind) s
dmsg_line none behind s = dmsg_null s
