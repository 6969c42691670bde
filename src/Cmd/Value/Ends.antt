-- ===== src/Cmd/Value/Ends.antt =====
-- How the functions that read the arguments of commands end.
use dudlc.Shared.{
  ℕ, zero, suc, ◌+◌, ◌<◌, ◌≤◌, Bool, true, false, Option, none, some, List, [], ◌∷◌, ◌≡◌, arith,
  ◌==◌, leb_ℤ, int_gap, if◌then◌else◌, ℤ, Bytes, length, drop,
}
use dudlc.Cstring.{Parsed, got, refused, stray, Parser, strtoul, is_digit}
use dudlc.Cstring.Shorter.{Shorter, strtoul-Shorter}
use dudlc.Event.{char_at}
use dudlc.Session.{Dudlc}
use dudlc.Session.Run.{
  done, fault, int_overflow, overread, Ends, returns, faults, Ends-bind, Ends-map, ◌>>=◌,
}
use dudlc.Proto.{M}
use dudlc.Request.{cmd_int, cmd_conv}
use dudlc.Request.Idle.{Returned}
use dudlc.Iterate.{it_newv}
use dudlc.Iterate.Whole.{it_newv-Idle}
use dudlc.Open.{duc_open}
use dudlc.Open.Requests.{cmd_int-duc_open, cmd_conv-duc_open}
use dudlc.Cmd.Idlist.{
  Idlist, Later, idl_new, is_countable, int_max, skip_comma, give_back, range_to, item,
  addlist_loop, idl_addlist,
}
use dudlc.Cmd.Value.{int_value, val_idlist}

-- From a session that awaits no reply: it ends, awaits none, and what it gives is as it should be.
abbrev pub Idling : {A : Type 0} → (A → Type 0) → M A → Type 0
Idling P m = (q : Dudlc) → q.inreply ≡ false → Ends (λ a t. (t.inreply ≡ false) × P a) (m q)

abbrev pub Whatever : {A : Type 0} → A → Type 0
Whatever a = Unit {0}

-- `*end` does not lie in front of the start.
abbrev pub Within : {A : Type 0} → Bytes → A × Bytes → Type 0
Within s r = length r.1 ≤ length s

module _ {A B : Type 0} {P : A → Type 0} {Q : B → Type 0} where
  pub bind-Idling :
      {m : M A} {f : A → M B} → Idling P m → ((a : A) → P a → Idling Q (f a)) → Idling Q (m >>= f)
  bind-Idling {m} {f} hm hf q i = Ends-bind m f q (hm q i) (λ a t h. hf a h.1 t h.0)

module _ {A : Type 0} {P : A → Type 0} where
  pub return-Idling : (a : A) → P a → Idling P (λ (q : Dudlc). done a q)
  return-Idling a h q i = returns (i, h)

  pub overread-Idling : Idling P (λ (q : Dudlc). fault overread)
  overread-Idling q i = faults (cc)

  pub overflow-Idling : Idling P (λ (q : Dudlc). fault int_overflow)
  overflow-Idling q i = faults (cc)

  pub if-Idling : (b : Bool) {m n : M A} → Idling P m → Idling P n → Idling P (if b then m else n)
  if-Idling true hm hn = hm
  if-Idling false hm hn = hn

-- The calls of the library.
pub int-Idling : (line : Bytes) → Idling Whatever (cmd_int duc_open line)
int-Idling line q i = Ends-map (cmd_int-duc_open q i line) (λ n t h. (h.0, tt))

Returned-Whatever :
    {A : Type 0} (r : Option A) (t : Dudlc) → Returned r t → (t.inreply ≡ false) × Unit {0}
Returned-Whatever (some a) t h = (h.0, tt)
Returned-Whatever none t h = (h, tt)

pub conv-Idling :
    {A : Type 0} (conv : Parser A) (line : Bytes) → Idling Whatever (cmd_conv duc_open conv line)
conv-Idling conv line q i = Ends-map (cmd_conv-duc_open conv q i line) Returned-Whatever

pub rows-Idling :
    {A : Type 0} (conv : Parser A) (line : Bytes) → Idling Whatever (it_newv duc_open conv line)
rows-Idling conv line q i = Ends-map (it_newv-Idle conv q i line) (λ r t h. (h, tt))

int_value-Idling : (s : Bytes) (r : Parsed ℤ) → Shorter s r → Idling (Within s) (int_value s r)
unfolding int_value
int_value-Idling s (got n end) h q i = returns (i, omega (arith, h))
int_value-Idling s refused h q i = returns (i, omega arith)
int_value-Idling s stray h q i = faults (cc)

-- val_uint, val_user, val_year and val_time
pub strtoul-Idling : (s : Bytes) → Idling (Within s) (int_value s (strtoul s))
strtoul-Idling s = int_value-Idling s (strtoul s) (strtoul-Shorter s)

pub drop-length : {A : Type 0} (n : ℕ) (s : List A) → length (drop n s) ≤ length s
drop-length zero s = omega arith
drop-length (suc n) [] = omega arith
drop-length (suc n) (c ∷ s) = let h = drop-length n s in omega (arith, h)

skip_comma-length : (s : Bytes) → length (skip_comma s) ≤ length s
unfolding skip_comma
skip_comma-length [] = omega arith
skip_comma-length (c ∷ s) = ground arith

-- The loop goes on with less text than `n` rounds need.
abbrev Goes : ℕ → Later → Type 0
Goes n again =
    (added : ℕ) (idl : Idlist) (tok : Bytes)
    → length tok < n
    → Idling Whatever (again added idl tok)

range_to-Idling :
    (n : ℕ) (list : Bytes) (id1 : ℤ) (r : Parsed ℤ) (again : Later) (added : ℕ) (idl : Idlist)
    (s : Bytes)
    → Shorter s r
    → length s < n + 1
    → Goes n again
    → Idling Whatever (range_to list id1 r again added idl)
unfolding range_to give_back
range_to-Idling n list id1 (got id2 e) again added idl s h fits goes q i =
    let later = skip_comma-length e in
    if-Idling (leb_ℤ id2 id1) (return-Idling _ tt)
      (if-Idling (leb_ℤ int_max id2) overflow-Idling (
        if-Idling (is_countable (added + suc (int_gap id1 id2)))
          (goes _ _ (skip_comma e) (omega (arith, later, h, fits))) overflow-Idling))
      q i
range_to-Idling n list id1 refused again added idl s h fits goes q i = returns (i, tt)
range_to-Idling n list id1 stray again added idl s h fits goes q i = faults (cc)

item-Idling :
    (n : ℕ) (list : Bytes) (r : Parsed ℤ) (again : Later) (added : ℕ) (idl : Idlist) (s : Bytes)
    → Shorter s r
    → length s < n + 1
    → Goes n again
    → Idling Whatever (item list r again added idl)
unfolding item give_back
item-Idling n list (got id1 e) again added idl s h fits goes q i =
    let later = skip_comma-length e in
    let short = drop-length 1 e in
    if-Idling (char_at e 0 == b'-')
      (range_to-Idling n list id1 (strtoul (drop 1 e)) again added idl (drop 1 e)
        (strtoul-Shorter (drop 1 e)) (omega (arith, short, h, fits)) goes)
      (if-Idling (is_countable (suc added))
        (goes _ _ (skip_comma e) (omega (arith, later, h, fits))) overflow-Idling)
      q i
item-Idling n list refused again added idl s h fits goes q i = returns (i, tt)
item-Idling n list stray again added idl s h fits goes q i = faults (cc)

addlist_loop-Idling : (n : ℕ) (list : Bytes) → Goes n (addlist_loop n list)
unfolding addlist_loop
addlist_loop-Idling zero list added idl tok h = absurd (omega arith)
addlist_loop-Idling (suc n) list added idl tok h =
    if-Idling (is_digit (char_at tok 0))
      (item-Idling n list (strtoul tok) (addlist_loop n list) added idl tok (strtoul-Shorter tok)
        (omega arith) (addlist_loop-Idling n list))
      (return-Idling _ tt)

pub val_idlist-Idling : (s : Bytes) → Idling Whatever (val_idlist s)
unfolding val_idlist idl_addlist
val_idlist-Idling s =
    bind-Idling (addlist_loop-Idling (suc (length s)) s 0 (idl_new none) s (omega arith))
      (λ r h. return-Idling _ tt)
