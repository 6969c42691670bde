-- ===== src/Cmd/Complete.antt =====
-- cmd/command.c: completion, `duc_cgen_find`, `lst_cmd` and `lst_rcmd`. A generator's static
-- variables are a record that its calls pass on. `malloc`, `realloc` and `strdup` are taken to succeed.
pub mod Offers
use dudlc.Shared.{
  ℕ, ◌+◌, ◌-◌, ◌%◌, ◌^◌, Bool, true, false, not, ◌&&◌, ◌||◌, Option, none, some, List, [], ◌∷◌,
  ◌==◌, ltb, leb_ℤ, if◌then◌else◌, ℤ, pos, negsuc, Bytes, codes, length, take,
}
use dudlc.Cstring.{Parser, got, c_string, skip_space}
use dudlc.Event.{char_at}
use dudlc.Row.{help_parse}
use dudlc.Session.Run.{◌>>=◌, ◌>>◌, return}
use dudlc.Proto.{M}
use dudlc.Iterate.{Rows, visited, it_newv}
use dudlc.Open.{duc_open}
use dudlc.Cmd.Console.{Libc, C}
use dudlc.Cmd.Value.{begins, same_place, val_name}
use dudlc.Cmd.Run.{Value}
use dudlc.Cmd.Table.{Generator, lst_cmd, Arg, Command}
use dudlc.Cmd.Table.Top.{cmds_top}
use dudlc.Cmd.Table.Args.{parse_arg}
use dudlc.Cmd.Table.Call.{cmd_find}
use dudlc.Cmd.Line.{in_word}

-- The static variables of lst_cmd; `nname` is `nname != 0`. `text` is a C string, and `len` its length.
pub record Offer : Type 0 where
  pub next : List Command
  pub nname : Bool

-- `state == 0`
abbrev pub offer_start : Offer
offer_start = record { next = cmds_top; nname = true }

-- `next->alias && 0 == strncasecmp(…)`, for the entry behind `next++`
abbrev pub first_alias : List Command → Bytes → Option Bytes
first_alias [] text = none
first_alias (cmd ∷ cmds) text = elim cmd.alias [
  | none ↦ none
  | some a ↦ if begins text a then some a else none
]

-- The alias is offered, or the loop goes on.
abbrev pub or_later : Option Bytes → List Command → Option Bytes × Offer → Option Bytes × Offer
or_later none cmds later = later
or_later (some a) cmds later = (some a, record { next = cmds; nname = true })

-- The loop, at an entry whose name is next or has been looked at.
unfoldable pub offer_loop : List Command → Bool → Bytes → Option Bytes × Offer
unfolding begins
offer_loop [] nname text = (none, record { next = []; nname = nname })
offer_loop (cmd ∷ cmds) nname text =
    let later = offer_loop cmds true text in
    if nname && begins text cmd.name
    then (some cmd.name, record { next = cmd ∷ cmds; nname = false })
    else or_later (first_alias cmds text) cmds later

-- A call of lst_cmd behind the first
unfoldable pub offer_next : Offer → Bytes → Option Bytes × Offer
unfolding offer_loop
offer_next o text = offer_loop o.next o.nname text

-- duc_cmd_help
unfoldable pub help : M (Option (Rows Bytes))
unfolding it_newv
help = it_newv duc_open help_parse (codes "help")

unfoldable pub matching : Bytes → List Bytes → List Bytes
unfolding begins
matching text [] = []
matching text (s ∷ l) = let rest = matching text l in if begins text s then s ∷ rest else rest

-- The rows of an iterator that may be NULL
abbrev pub rows_or_none : Option (Rows Bytes) → List Bytes
rows_or_none none = []
rows_or_none (some it) = visited it

-- get_commands
unfoldable pub get_commands : Bytes → M (List Bytes)
unfolding help matching visited
get_commands text = do it ← help; return (matching text (rows_or_none it))

-- lst_rcmd: `hnext` is what is left to offer.
abbrev pub next_remote : List Bytes → Option Bytes × List Bytes
next_remote [] = (none, [])
next_remote (s ∷ hnext) = (some s, hnext)

unfoldable pub first_remote : Bytes → M (Option Bytes × List Bytes)
unfolding get_commands
first_remote text = do helpv ← get_commands text; return (next_remote helpv)

-- An unsigned int, and `(int)pos`
abbrev pub minus_uint : ℕ → ℕ → ℕ
minus_uint a b = (a + 2 ^ 32 - b) % 2 ^ 32

abbrev pub int_of_uint : ℕ → ℤ
int_of_uint p = if ltb p (2 ^ 31) then pos p else negsuc (2 ^ 32 - 1 - p)

-- A value has been read, of which only `*end` is of use.
unfoldable pub behind_value :
    Bytes → (Bytes → C (Option Generator)) → Value × Bytes → C (Option Generator)
unfolding same_place
behind_value next again r = if same_place r.1 next || in_word r.1 then return none else again r.1

-- The loop of cmd_find_arg_genc. `line` and `next` are pointers into one text.
unfoldable pub arg_genc : Libc → List Arg → Bytes → ℕ → Bytes → C (Option Generator)
unfolding skip_space parse_arg behind_value
arg_genc libc [] line p next = return none
arg_genc libc (arg ∷ args) line p next =
    let here = skip_space next in
    let rest = arg_genc libc args line p in
    if char_at here 0 == 0
    then return arg.genc
    else if leb_ℤ (int_of_uint p) (pos (length line - length here))
    then return arg.genc
    else (parse_arg libc arg.parse here >>= behind_value here rest)

unfoldable pub cmd_find_arg_genc : Libc → Command → Bytes → ℕ → C (Option Generator)
unfolding arg_genc
cmd_find_arg_genc libc cmd line p = arg_genc libc cmd.args line p line

unfoldable pub genc_found : Libc → Bytes → ℕ → Option Command → C (Option Generator)
unfolding cmd_find_arg_genc
genc_found libc line p none = return none
genc_found libc line p (some cmd) = cmd_find_arg_genc libc cmd line p

unfoldable pub genc_named : Libc → Bytes → ℕ → Option Bytes × Bytes → C (Option Generator)
unfolding genc_found cmd_find
genc_named libc start p (none, end) = return none
genc_named libc start p (some scmd, end) =
    genc_found libc end (minus_uint p (length start - length end)) (cmd_find scmd)

unfoldable pub duc_cgen_find : Libc → Bytes → ℕ → C (Option Generator)
unfolding skip_space val_name genc_named
duc_cgen_find libc line p =
    let start = skip_space line in
    let here = minus_uint p (length line - length start) in
    if here == 0 then return (some lst_cmd) else genc_named libc start here (val_name start)
