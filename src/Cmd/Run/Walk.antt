-- ===== src/Cmd/Run/Walk.antt =====
-- cmd/command.c: `idl_iterate`, against a walk over the list itself.
use dudlc.Shared.{
  ℕ, zero, suc, ◌+◌, ◌≤◌, ◌<◌, Bool, true, false, Option, none, some, List, [], ◌∷◌, ◌++◌, ◌≡◌,
  refl, ◌∙◌, arith, ◌⊎◌, inl, inr, Bytes, codes, if◌then◌else◌, ℤ, pos, negsuc, is_negative, length,
  drop,
}
use dudlc.Cstring.{c_string}
use dudlc.Cstring.Decimal.{print_int}
use dudlc.Session.{connected}
use dudlc.Session.Run.{Run, done, fault, spent, null_pointer, ◌>>=◌, ◌>>◌, return}
use dudlc.Cmd.Idlist.{Idlist, id_at, idl_cur, idl_begin, idl_next}
use dudlc.Cmd.Console.{Console, C, dmsg_msg, dmsg_null}
use dudlc.Cmd.Run.{dmsg_rmsg, id_done, iterate_loop, idl_iterate}

-- The message for an id of which the function has failed, by whether a callback is set and by the
-- last line of a reply: without a callback there is none, and without a line it is read through NULL.
unfoldable pub told : ℤ → Bool → Option Bytes → C (Unit {0})
told id false line s = done tt s
told id true none s = fault null_pointer
told id true (some l) s =
    let text = codes "id=" ++ print_int id ++ codes " failed: " ++ c_string l ++ codes "\n" in
    done tt (record s { shown = s.shown ++ text ∷ [] })

-- What follows an id: -1 ends the walk where the connection is lost, and is told of where it is
-- not; whatever else the function has returned, the walk goes on.
unfoldable pub step_behind : ℤ → C ℤ → ℤ → C ℤ
unfolding told
step_behind id rest (negsuc zero) s =
    if s.dudl.con.is_open then (told id s.msg_cb s.dudl.line >> rest) s else done (negsuc 0) s
step_behind id rest (negsuc (suc n)) s = rest s
step_behind id rest (pos n) s = rest s

-- The ids one after the other, up to the first negative one or up to a lost connection.
unfoldable pub each_of : List ℤ → (ℤ → C ℤ) → C ℤ
unfolding step_behind
each_of [] func = return (pos 0)
each_of (id ∷ ids) func =
    let rest = each_of ids func in
    if is_negative id then return (pos 0) else (func id >>= step_behind id rest)

-- The same walk, with the code's own step behind an id.
unfoldable walk_of : List ℤ → (ℤ → C ℤ) → C ℤ
unfolding id_done
walk_of [] func = return (pos 0)
walk_of (id ∷ ids) func =
    let rest = walk_of ids func in
    if is_negative id
    then return (pos 0)
    else (do code ← func id; again ← id_done id code; if again then rest else return (negsuc 0))

module _ {A B : Type 0} {f g : A → C B} (h : (a : A) (s : Console) → f a s ≡ g a s) where
  bind_run_same : (r : Run Console A) (s : Console) → ◌>>=◌ (λ _. r) f s ≡ ◌>>=◌ (λ _. r) g s
  bind_run_same (done a t) s = h a t
  bind_run_same (fault why) s = refl
  bind_run_same spent s = refl

  bind_same : (m : C A) (s : Console) → (m >>= f) s ≡ (m >>= g) s
  bind_same m s = bind_run_same (m s) s

if_same :
    {A : Type 0} (b : Bool) (m f g : C A) (s : Console)
    → f s ≡ g s
    → (if b then m else f) s ≡ (if b then m else g) s
if_same true m f g s h = refl
if_same false m f g s h = h

-- The list from an index on is empty, and there is no id there, or begins with the id there.
drop_cases :
    (list : List ℤ) (i : ℕ)
    → ((drop i list ≡ []) × (id_at list i ≡ negsuc 0))
      ⊎ ((drop i list ≡ id_at list i ∷ drop (suc i) list) × (i < length list))
drop_cases [] zero = inl (refl, refl)
drop_cases [] (suc i) = inl (refl, refl)
drop_cases (id ∷ list) zero = inr (refl, omega arith)
drop_cases (id ∷ list) (suc i) = elim (drop_cases list i) [
  | inl h ↦ inl h
  | inr (e, h) ↦ inr (e, omega (arith, h))
]

-- The two continuations of a step are the same where the walks behind it are.
again_same :
    (m f g : C ℤ) (again : Bool) (s : Console)
    → ((t : Console) → f t ≡ g t)
    → (if again then f else m) s ≡ (if again then g else m) s
again_same m f g true s h = h s
again_same m f g false s h = refl

told_null :
    (id : ℤ) (b : Bool) (s : Console)
    → (if b then fault null_pointer else done tt s) ≡ told id b none s
unfolding told
told_null id true s = refl
told_null id false s = refl

told_line :
    (id : ℤ) (b : Bool) (l : Bytes) (s : Console)
    → done tt (
        if b
        then record s {
          shown =
              s.shown
              ++ (codes "id=" ++ print_int id ++ codes " failed: " ++ c_string l ++ codes "\n")
                ∷ [];
        }
        else s)
      ≡ told id b (some l) s
unfolding told
told_line id true l s = refl
told_line id false l s = refl

dmsg_rmsg-told :
    (id : ℤ) (line : Option Bytes) (s : Console)
    → dmsg_rmsg (codes "id=" ++ print_int id ++ codes " failed: ") line s ≡ told id s.msg_cb line s
unfolding dmsg_rmsg dmsg_msg dmsg_null
dmsg_rmsg-told id none s = told_null id s.msg_cb s
dmsg_rmsg-told id (some l) s = told_line id s.msg_cb l s

goes_on :
    (r : Run Console (Unit {0})) (rest m : C ℤ) (s : Console)
    → ◌>>=◌ (λ _. ◌>>=◌ (λ _. r) (λ _. return true) s) (λ again. if again then rest else m) s
      ≡ ◌>>=◌ (λ _. r) (λ _. rest) s
goes_on (done a t) rest m s = refl
goes_on (fault why) rest m s = refl
goes_on spent rest m s = refl

-- The code's step for an id of which the function has failed.
failed_step :
    (id : ℤ) (rest : C ℤ) (b : Bool) (s : Console)
    → ((if b
            then (dmsg_rmsg (codes "id=" ++ print_int id ++ codes " failed: ") s.dudl.line
                >> return true)
            else return false)
          >>= λ again. if again then rest else return (negsuc 0))
        s
      ≡ (if b then (told id s.msg_cb s.dudl.line >> rest) s else done (negsuc 0) s)
failed_step id rest false s = refl
failed_step id rest true s =
    rw (dmsg_rmsg-told id s.dudl.line s, ◌>>=◌)
      (goes_on (told id s.msg_cb s.dudl.line s) rest (return (negsuc 0)) s)

step-step_behind :
    (id : ℤ) (rest : C ℤ) (code : ℤ) (s : Console)
    → (id_done id code >>= λ again. if again then rest else return (negsuc 0)) s
      ≡ step_behind id rest code s
unfolding id_done step_behind connected
step-step_behind id rest (negsuc zero) s = failed_step id rest s.dudl.con.is_open s
step-step_behind id rest (negsuc (suc n)) s = refl
step-step_behind id rest (pos n) s = refl

walk_of-each_of :
    (list : List ℤ) (func : ℤ → C ℤ) (s : Console) → walk_of list func s ≡ each_of list func s
unfolding walk_of each_of
walk_of-each_of [] func s = refl
walk_of-each_of (id ∷ list) func s = if_same (is_negative id) (return (pos 0)) _ _ s (
    bind_same
      (λ code t.
        bind_same
          (λ again u. again_same (return (negsuc 0)) _ _ again u (λ v. walk_of-each_of list func v))
          (id_done id code) t
        ∙ step-step_behind id (each_of list func) code t)
      (func id) s)

module _ (func : ℤ → C ℤ) where
  -- A round, where the rounds behind it walk over the rest.
  round-walk_of :
      (n : ℕ) (l : Idlist) (s : Console)
      → (l.cur < length l.ids
          → (t : Console)
          → iterate_loop n func (idl_next l) t ≡ walk_of (drop (suc l.cur) l.ids) func t)
      → iterate_loop (suc n) func (id_at l.ids l.cur, l) s ≡ walk_of (drop l.cur l.ids) func s
  unfolding iterate_loop walk_of
  round-walk_of n l s later = elim (drop_cases l.ids l.cur) [
    | inl (e, f) ↦ rw (e, f) refl
    | inr (e, h) ↦
        let id = id_at l.ids l.cur in
        rw e (
          if_same (is_negative id) (return (pos 0)) _ _ s (
            bind_same
              (λ code t.
                bind_same (λ again u. again_same (return (negsuc 0)) _ _ again u (later h))
                  (id_done id code) t)
              (func id) s))
  ]

  loop-walk_of :
      (n : ℕ) (l : Idlist) (s : Console)
      → length l.ids ≤ n + l.cur
      → iterate_loop (suc n) func (id_at l.ids l.cur, l) s ≡ walk_of (drop l.cur l.ids) func s
  unfolding idl_next idl_cur
  loop-walk_of zero l s fuel = round-walk_of zero l s (λ h t. absurd (omega (arith, fuel, h)))
  loop-walk_of (suc n) l s fuel =
      round-walk_of (suc n) l s
        (λ h t. loop-walk_of n (record l { cur = suc l.cur }) t (omega (arith, fuel)))

-- `idl_iterate` calls its function on the ids of the list one after the other, in their order,
-- wherever an earlier walk has stopped: up to the first negative id, which ends the walk with 0, or
-- up to a -1 of the function that finds the connection lost, which ends it with -1. A -1 that finds it
-- open is told of where a message callback is set, with the id and the last line of a reply, which is
-- read through NULL where there is none, and the walk goes on.
pub idl_iterate-each_of :
    (list : Idlist) (func : ℤ → C ℤ) (s : Console)
    → idl_iterate list func s ≡ each_of list.ids func s
unfolding idl_iterate idl_begin idl_cur
idl_iterate-each_of list func s =
    loop-walk_of func (length list.ids) (record list { cur = 0 }) s (omega arith)
    ∙ walk_of-each_of list.ids func s
