-- ===== src/Cmd/Table/Names.antt =====
-- cmd/command.c: what `cmd_find` finds.
use dudlc.Shared.{
  and_left, and_right, Bool, true, not, ◌&&◌, Option, none, some, List, [], ◌∷◌, ◌++◌, append_assoc,
  ◌≡◌, refl, ◌∙◌, ap, arith, Bytes, All,
}
use mathlib.Core.Path.{subst}
use dudlc.Proto.{bytes_equal}
use dudlc.Cmd.Table.{Command}
use dudlc.Cmd.Table.Top.{cmds_top}
use dudlc.Cmd.Table.Call.{is_alias, find_in, cmd_find}

-- No command of the list has the word as its name or its alias.
free : Bytes → List Command → Bool
unfolding bytes_equal is_alias
free w [] = true
free w (cmd ∷ cmds) = not (bytes_equal cmd.name w) && not (is_alias cmd.alias w) && free w cmds

free_alias : Option Bytes → List Command → Bool
unfolding free
free_alias none cmds = true
free_alias (some a) cmds = free a cmds

-- The words of each command are free in front of it.
spread : List Command → List Command → Bool
unfolding free free_alias
spread front [] = true
spread front (cmd ∷ cmds) =
    free cmd.name front && free_alias cmd.alias front && spread (front ++ cmd ∷ []) cmds

-- The command is found under a word that it may not have.
abbrev FoundAs : List Command → Command → Option Bytes → Type 0
FoundAs cmds cmd none = Unit {0}
FoundAs cmds cmd (some a) = find_in cmds a ≡ some cmd

abbrev Found : List Command → Command → Type 0
Found cmds cmd = (find_in cmds cmd.name ≡ some cmd) × FoundAs cmds cmd cmd.alias

bytes_equal_refl : (s : Bytes) → bytes_equal s s ≡ true
unfolding bytes_equal
bytes_equal_refl [] = refl
bytes_equal_refl (c ∷ s) = let h = bytes_equal_refl s in ground (arith, h)

find_in-free :
    (w : Bytes) (front cmds : List Command)
    → free w front ≡ true
    → find_in (front ++ cmds) w ≡ find_in cmds w
unfolding free find_in
find_in-free w [] cmds h = refl
find_in-free w (cmd ∷ front) cmds h = let later = find_in-free w front cmds in ground (arith, later)

found_here :
    (w : Bytes) (cmd : Command) (cmds : List Command)
    → cmd.name ≡ w
    → find_in (cmd ∷ cmds) w ≡ some cmd
unfolding find_in
found_here w cmd cmds e = rw⁻¹ e (rw (bytes_equal_refl cmd.name) refl)

found_alias :
    (a : Bytes) (cmd : Command) (cmds : List Command)
    → cmd.alias ≡ some a
    → find_in (cmd ∷ cmds) a ≡ some cmd
unfolding find_in is_alias
found_alias a cmd cmds e =
    let same : is_alias cmd.alias a ≡ true = ap (λ o. is_alias o a) e ∙ bytes_equal_refl a in
    ground (arith, same)

found_as :
    (front : List Command) (cmd : Command) (cmds : List Command) (o : Option Bytes)
    → cmd.alias ≡ o
    → free_alias o front ≡ true
    → FoundAs (front ++ cmd ∷ cmds) cmd o
unfolding free_alias
found_as front cmd cmds none e h = tt
found_as front cmd cmds (some a) e h =
    find_in-free a front (cmd ∷ cmds) h ∙ found_alias a cmd cmds e

spread-All :
    (front cmds : List Command) → spread front cmds ≡ true → All (Found (front ++ cmds)) cmds
unfolding spread
spread-All front [] h = tt
spread-All front (cmd ∷ cmds) h =
    let both = and_left (free cmd.name front && free_alias cmd.alias front) _ h in
    (
      (
        find_in-free cmd.name front (cmd ∷ cmds) (and_left (free cmd.name front) _ both)
            ∙ found_here cmd.name cmd cmds refl,
        found_as front cmd cmds cmd.alias refl (and_right (free cmd.name front) _ both),
      ),
      subst (λ l. All (Found l) cmds) (append_assoc front (cmd ∷ []) cmds)
          (spread-All (front ++ cmd ∷ []) cmds
            (and_right (free cmd.name front && free_alias cmd.alias front) _ h)),
    )

-- `cmd_find` finds the command under its name, and under its alias where it has one.
abbrev pub KnownAs : Command → Option Bytes → Type 0
KnownAs cmd none = Unit {0}
KnownAs cmd (some a) = cmd_find a ≡ some cmd

abbrev pub Known : Command → Type 0
Known cmd = (cmd_find cmd.name ≡ some cmd) × KnownAs cmd cmd.alias

-- `cmd_find` finds every command of the table under its name, and under its alias where it has one:
-- no entry is hidden by an entry in front of it.
pub cmds_top-Known : All Known cmds_top
unfolding cmds_top spread cmd_find
cmds_top-Known = spread-All [] cmds_top refl
