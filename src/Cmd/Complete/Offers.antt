-- ===== src/Cmd/Complete/Offers.antt =====
-- cmd/command.c: what the calls of `lst_cmd` give up to the first NULL.
use dudlc.Shared.{
  ℕ, zero, suc, ◌<◌, Bool, true, false, Bool-cases, inl, inr, Option, none, some, List, [], ◌∷◌,
  ◌++◌, ◌≡◌, refl, arith, if◌then◌else◌, Bytes, length,
}
use dudlc.Cmd.Value.{begins}
use dudlc.Cmd.Table.{Command}
use dudlc.Cmd.Table.Top.{cmds_top}
use dudlc.Cmd.Complete.{Offer, offer_start, first_alias, or_later, offer_loop, offer_next, matching}

-- What `n` calls give, where the last of them gives NULL.
unfoldable pub offers : ℕ → Offer → Bytes → Option (List Bytes)
unfolding offer_next
offers zero o text = none
offers (suc n) o text = given (offer_next o text).0 (offers n (offer_next o text).1 text)
  where
    given : Option Bytes → Option (List Bytes) → Option (List Bytes)
    given none l = some []
    given (some w) none = none
    given (some w) (some l) = some (w ∷ l)

-- The alias of an entry, if it has one, and its name.
abbrev alias_word : Option Bytes → List Bytes
alias_word none = []
alias_word (some a) = a ∷ []

unfoldable pub words : List Command → List Bytes
words [] = []
words (cmd ∷ cmds) = alias_word cmd.alias ++ cmd.name ∷ words cmds

next_alias : List Command → List Bytes
next_alias [] = []
next_alias (cmd ∷ cmds) = alias_word cmd.alias

-- The words that are to come: from an entry's name on, and from the word behind it on.
names_from : List Command → List Bytes
unfolding next_alias
names_from [] = []
names_from (cmd ∷ cmds) = cmd.name ∷ next_alias cmds ++ names_from cmds

to_come : List Command → Bool → List Bytes
unfolding names_from
to_come cmds true = names_from cmds
to_come [] false = []
to_come (cmd ∷ cmds) false = next_alias cmds ++ names_from cmds

-- What a call gives: NULL where no word that is to come fits, else the first that does.
data Offered (text : Bytes) (l : List Bytes) : Option Bytes × Offer → Type 0 where
  over : (o : Offer) → matching text l ≡ [] → Offered text l (none, o)
  gives :
      (w : Bytes) (o : Offer)
      → matching text l ≡ w ∷ matching text (to_come o.next o.nname)
      → length (to_come o.next o.nname) < length l
      → Offered text l (some w, o)

-- A word in front that does not fit
skipped :
    (text w : Bytes) {l : List Bytes} {r : Option Bytes × Offer}
    → begins text w ≡ false
    → Offered text l r
    → Offered text (w ∷ l) r
skipped text w e (over o h) = over o (unfold matching in rw e h)
skipped text w e (gives v o h k) = gives v o (unfold matching in rw e h) (omega (arith, k))

alias_step :
    (text : Bytes) (cmds : List Command) (a : Option Bytes) (later : Option Bytes × Offer)
    → Offered text (names_from cmds) later
    → Offered text (alias_word a ++ names_from cmds) (
        or_later
          (elim a [ none ↦ none | some b ↦ if begins text b then some b else none ])
          cmds
          later)
unfolding to_come
alias_step text cmds none later h = h
alias_step text cmds (some a) later h = elim (Bool-cases (begins text a)) [
  | inl e ↦
      rw e (
        gives a (record { next = cmds; nname = true }) (unfold matching in rw e refl) (omega arith))
  | inr e ↦ rw e (skipped text a e h)
]

alias_next :
    (text : Bytes) (cmds : List Command) (later : Option Bytes × Offer)
    → Offered text (names_from cmds) later
    → Offered text
        (next_alias cmds ++ names_from cmds)
        (or_later (first_alias cmds text) cmds later)
unfolding next_alias
alias_next text [] later h = h
alias_next text (cmd ∷ cmds) later h = alias_step text (cmd ∷ cmds) cmd.alias later h

offer_loop-Offered :
    (cmds : List Command) (nname : Bool) (text : Bytes)
    → Offered text (to_come cmds nname) (offer_loop cmds nname text)
unfolding to_come offer_loop names_from
offer_loop-Offered [] true text = over _ (unfold matching in refl)
offer_loop-Offered [] false text = over _ (unfold matching in refl)
offer_loop-Offered (cmd ∷ cmds) false text =
    alias_next text cmds (offer_loop cmds true text) (offer_loop-Offered cmds true text)
offer_loop-Offered (cmd ∷ cmds) true text = elim (Bool-cases (begins text cmd.name)) [
  | inl e ↦ rw e (
      gives cmd.name (record { next = cmd ∷ cmds; nname = false }) (unfold matching in rw e refl)
        (omega arith))
  | inr e ↦ rw e (
      skipped text cmd.name e
        (alias_next text cmds (offer_loop cmds true text) (offer_loop-Offered cmds true text)))
]

offers_given :
    (n : ℕ) (text : Bytes) (l : List Bytes) {r : Option Bytes × Offer} (o : Offer)
    → offer_next o text ≡ r
    → Offered text l r
    → ((p : Offer)
        → length (to_come p.next p.nname) < length l
        → offers n p text ≡ some (matching text (to_come p.next p.nname)))
    → offers (suc n) o text ≡ some (matching text l)
unfolding offers
offers_given n text l o e (over p h) k = rw (e, offers, h) refl
offers_given n text l o e (gives w p h fewer) k = rw (e, offers, k p fewer, h) refl

offers-matching :
    (n : ℕ) (o : Offer) (text : Bytes)
    → length (to_come o.next o.nname) < n
    → offers n o text ≡ some (matching text (to_come o.next o.nname))
offers-matching zero o text h = absurd (omega arith)
offers-matching (suc n) o text h =
    offers_given n text (to_come o.next o.nname) o refl
      (unfold offer_next in offer_loop-Offered o.next o.nname text)
      (λ p fewer. offers-matching n p text (omega (arith, h, fewer)))

-- The calls of `lst_cmd` from the first on, which has `state` 0, give one after the other the
-- words of the table that begin with the text in either case, entry by entry with the alias in
-- front of the name; then NULL.
pub lst_cmd-words :
    (text : Bytes)
    → offers (suc (length (words cmds_top))) offer_start text
      ≡ some (matching text (words cmds_top))
unfolding words to_come cmds_top
lst_cmd-words text = offers-matching (suc (length (words cmds_top))) offer_start text (omega arith)
