-- ===== src/Session/Run.antt =====
-- Runs of the code on a session: a result and the session behind it, a fault, or rounds that have run
-- out in the model.

use mathlib.Core.Logic.{◌≢◌}

-- Where the behaviour of the C code is not defined: a read through NULL, a line buffer whose line does
-- not lie within it, a read behind the stored bytes of a line, a write behind a buffer for a
-- request or for a text, an int that overflows, a pointer that is taken for a number or a number for a pointer.
pub data Fault : Type 0 where
  null_pointer line_buffer overread send_buffer text_buffer int_overflow wrong_type : Fault

pub data Run {ℓ} (S A : Type ℓ) : Type ℓ where
  done : A → S → Run S A
  fault : Fault → Run S A
  spent : Run S A

abbrev pub Action : Type 0 → Type 0 → Type 0
Action S A = S → Run S A

infixl 5 ◌>>=◌ ◌>>◌
abbrev pub ◌>>=◌ : {S A B : Type 0} → Action S A → (A → Action S B) → Action S B
◌>>=◌ m f s = elim (m s) [ done a t ↦ f a t | fault why ↦ fault why | spent ↦ spent ]

abbrev pub ◌>>◌ : {S B : Type 0} → Action S (Unit {0}) → Action S B → Action S B
m >> n = m >>= λ _. n

abbrev pub return : {S A : Type 0} → A → Action S A
return a s = done a s

abbrev pub fail : {S A : Type 0} → Fault → Action S A
fail why s = fault why

-- The rounds have run out.
abbrev pub no_rounds : {S A : Type 0} → Action S A
no_rounds s = spent

abbrev pub update : {S : Type 0} → (S → S) → Action S (Unit {0})
update f s = done tt (f s)

abbrev pub gets : {S A : Type 0} → (S → A) → Action S A
gets f s = done (f s) s

-- A run that ends, not by a read through NULL, and with a result and a session of which `P` holds.
pub data Ends {S A : Type 0} (P : A → S → Type 0) : Run S A → Type 0 where
  returns : {a : A} {s : S} → P a s → Ends P (done a s)
  faults : {why : Fault} → why ≢ null_pointer → Ends P (fault why)

module _ {S A B : Type 0} {P : A → S → Type 0} {Q : B → S → Type 0} where
  bind_run :
      {r : Run S A} (f : A → Action S B) (s : S)
      → Ends P r
      → ((a : A) (t : S) → P a t → Ends Q (f a t))
      → Ends Q (◌>>=◌ (λ _. r) f s)
  bind_run f s (returns {a} {s = t} h) k = k a t h
  bind_run f s (faults h) k = faults h

  -- The rule for a sequence of two steps.
  pub Ends-bind :
      (m : Action S A) (f : A → Action S B) (s : S)
      → Ends P (m s)
      → ((a : A) (t : S) → P a t → Ends Q (f a t))
      → Ends Q ((m >>= f) s)
  Ends-bind m f s h k = bind_run {r = m s} f s h k

-- A weaker account of the end.
pub Ends-map :
    {S A : Type 0} {P Q : A → S → Type 0} {r : Run S A}
    → Ends P r
    → ((a : A) (s : S) → P a s → Q a s)
    → Ends Q r
Ends-map (returns {a} {s} h) k = returns (k a s h)
Ends-map (faults h) k = faults h
