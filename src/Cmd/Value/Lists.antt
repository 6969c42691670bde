-- ===== src/Cmd/Value/Lists.antt =====
-- cmd/parseval.c: the arguments of commands that are read with the help of the server: tracks, tags,
-- saved filters and lists of them.
use dudlc.Shared.{
  ℕ, zero, suc, Bool, ◌&&◌, ◌||◌, Option, none, some, List, [], ◌∷◌, ◌==◌, leb, leb_ℤ,
  if◌then◌else◌, ℤ, negsuc, is_negative, Bytes, length, take, drop,
}
use dudlc.Cstring.{Parsed, got, refused, stray, strtoul}
use dudlc.Event.{char_at}
use dudlc.Row.{Track}
use dudlc.Session.Run.{overread, int_overflow, return, fail, no_rounds, ◌>>=◌}
use dudlc.Proto.{M}
use dudlc.Iterate.{Rows, visited}
use dudlc.Open.{duc_open}
use dudlc.Command.Player.{curtrack}
use dudlc.Command.Track.{track2id, tracksalbum}
use dudlc.Command.Tag.{tag2id}
use dudlc.Command.Sfilter.{sfilter2id}
use dudlc.Cmd.Idlist.{Idlist, Added, is_countable, idl_new, idl_add}
use dudlc.Cmd.Value.{same_place, val_user}

-- The loop of idl_addclist; each round that goes on takes a byte or more and a comma.
unfoldable pub addclist_loop : ℕ → Bytes → (Bytes → M (ℤ × Bytes)) → ℕ → Idlist → Bytes → M Added
unfolding same_place idl_add
addclist_loop zero list conv added idl ntok = no_rounds
addclist_loop (suc n) list conv added idl ntok = do
  r ← conv ntok
  if same_place ntok r.1
      then return (record { added = 0; idl = idl; end = list })
      else if char_at r.1 0 == b','
      then if is_countable (suc added)
        then addclist_loop n list conv (suc added) (idl_add idl r.0) (drop 1 r.1)
        else fail int_overflow
      else if is_countable (suc added)
      then return (record { added = suc added; idl = idl_add idl r.0; end = r.1 })
      else fail int_overflow

unfoldable pub idl_addclist : Idlist → Bytes → (Bytes → M (ℤ × Bytes)) → M Added
unfolding addclist_loop
idl_addclist idl list conv = addclist_loop (suc (length list)) list conv 0 idl list

-- A track of an album whose number lies between two bounds; a negative bound is none.
unfoldable pub in_range : ℤ → ℤ → Track → Bool
in_range first last t =
    (is_negative first || leb_ℤ first t.albumnr) && (is_negative last || leb_ℤ t.albumnr last)

unfoldable pub add_tracks : ℤ → ℤ → Idlist → List Track → Idlist
unfolding in_range idl_add
add_tracks first last idl [] = idl
add_tracks first last idl (t ∷ ts) =
    add_tracks first last (if in_range first last t then idl_add idl t.id else idl) ts

unfoldable pub add_rows : ℤ → ℤ → Idlist → Option (Rows Track) → Idlist
unfolding add_tracks visited
add_rows first last idl none = idl
add_rows first last idl (some rows) = add_tracks first last idl (visited rows)

unfoldable pub album_of : Option Track → Option ℤ
album_of none = none
album_of (some t) = some t.album.id

unfoldable pub add_album : Idlist → Option ℤ → ℤ → ℤ → M Idlist
unfolding add_rows tracksalbum
add_album idl none first last = return idl
add_album idl (some album) first last = do
  rows ← tracksalbum duc_open album
  return (add_rows first last idl rows)

-- idl_addalbum, whose result is not used
unfoldable pub idl_addalbum : Idlist → ℤ → ℤ → ℤ → M Idlist
unfolding add_album album_of curtrack
idl_addalbum idl album first last =
    if is_negative album
    then (do t ← curtrack duc_open; add_album idl (album_of t) first last)
    else add_album idl (some album) first last

unfoldable pub val_userlist : Bytes → M (Idlist × Bytes)
unfolding idl_addclist val_user
val_userlist s = do r ← idl_addclist (idl_new none) s val_user; return (r.idl, r.end)

-- `<aid>/<pos>`
unfoldable pub track_at : Bytes → ℤ → Parsed ℤ → M (ℤ × Bytes)
unfolding track2id
track_at s a (got b end) = do id ← track2id duc_open a b; return (id, end)
track_at s a refused = return (negsuc 0, s)
track_at s a stray = fail overread

unfoldable pub track_number : Bytes → Parsed ℤ → M (ℤ × Bytes)
unfolding track_at
track_number s (got a end) =
    if char_at end 0 == b'/' then track_at s a (strtoul (drop 1 end)) else return (a, end)
track_number s refused = return (negsuc 0, s)
track_number s stray = fail overread

unfoldable pub current_track : Bytes → Option Track → M (ℤ × Bytes)
current_track s none = return (negsuc 0, s)
current_track s (some t) = return (t.id, drop 1 s)

unfoldable pub val_track : Bytes → M (ℤ × Bytes)
unfolding current_track track_number curtrack
val_track s =
    if char_at s 0 == b'c'
    then (do t ← curtrack duc_open; current_track s t)
    else track_number s (strtoul s)

-- One item of a track list: the list behind it and the rest of the text, or NULL.
abbrev pub Item : Type 0
Item = Option (Idlist × Bytes)

-- Behind `<id1>/<pos1>-`
unfoldable pub positions_to : Idlist → ℤ → ℤ → Bytes → Parsed ℤ → M Item
unfolding idl_addalbum
positions_to idl id1 pos1 tok (got pos2 e) = do
  more ← idl_addalbum idl id1 pos1 pos2
  return (some (more, e))
positions_to idl id1 pos1 tok refused =
    if char_at tok 0 == b'*'
    then (do more ← idl_addalbum idl id1 pos1 (negsuc 0); return (some (more, drop 1 tok)))
    else return none
positions_to idl id1 pos1 tok stray = fail overread

-- Behind `<id1>/`
unfoldable pub position : Idlist → ℤ → Bytes → Parsed ℤ → M Item
unfolding positions_to idl_addalbum track2id idl_add
position idl id1 tok (got pos1 e) =
    if char_at e 0 == b'-' then positions_to idl id1 pos1 (drop 1 e) (strtoul (drop 1 e)) else (do
      tid ← track2id duc_open id1 pos1
      return (some (if is_negative tid then idl else idl_add idl tid, e)))
position idl id1 tok refused =
    if char_at tok 0 == b'*'
    then (do more ← idl_addalbum idl id1 (negsuc 0) (negsuc 0); return (some (more, drop 1 tok)))
    else return none
position idl id1 tok stray = fail overread

unfoldable pub add_current : Idlist → Bytes → Option Track → M Item
unfolding idl_add
add_current idl tok none = return none
add_current idl tok (some t) = return (some (idl_add idl t.id, tok))

-- Behind `<id1>`, which is -1 for `c`
unfoldable pub behind_id : Idlist → ℤ → Bytes → M Item
unfolding position add_current curtrack idl_add
behind_id idl id1 tok =
    if char_at tok 0 == b'/'
    then position idl id1 (drop 1 tok) (strtoul (drop 1 tok))
    else if is_negative id1
    then (do t ← curtrack duc_open; add_current idl tok t)
    else return (some (idl_add idl id1, tok))

unfoldable pub track_item : Idlist → Bytes → Parsed ℤ → M Item
unfolding behind_id
track_item idl tok (got id1 e) = behind_id idl id1 e
track_item idl tok refused =
    if char_at tok 0 == b'c' then behind_id idl (negsuc 0) (drop 1 tok) else return none
track_item idl tok stray = fail overread

-- Behind an item: a comma goes on; NULL and the start of the text are given where it is refused.
unfoldable pub after_item :
    Bytes → (Idlist → Bytes → M (Option Idlist × Bytes)) → Item → M (Option Idlist × Bytes)
after_item s again none = return (none, s)
after_item s again (some item) =
    if char_at item.1 0 == b',' then again item.0 (drop 1 item.1) else return (some item.0, item.1)

-- The loop of val_tracklist; each round that goes on takes a byte or more and a comma.
unfoldable pub tracklist_loop : ℕ → Bytes → Idlist → Bytes → M (Option Idlist × Bytes)
unfolding track_item after_item
tracklist_loop zero s idl tok = no_rounds
tracklist_loop (suc n) s idl tok = do
  r ← track_item idl tok (strtoul tok)
  after_item s (tracklist_loop n s) r

unfoldable pub val_tracklist : Bytes → M (Option Idlist × Bytes)
unfolding tracklist_loop
val_tracklist s = tracklist_loop (suc (length s)) s (idl_new none) s

-- strcspn( in, "\t " )
unfoldable pub word_span : Bytes → ℕ
word_span [] = 0
word_span (c ∷ s) = let n = word_span s in if c == 0 || c == b'\t' || c == b' ' then 0 else suc n

-- A name of less than ten bytes, which the server turns into an id.
unfoldable pub named_id : (Bytes → M ℤ) → Bytes → M (ℤ × Bytes)
unfolding word_span
named_id lookup s = if leb 10 (word_span s) then return (negsuc 0, s) else (do
  id ← lookup (take (word_span s) s)
  if is_negative id then return (negsuc 0, s) else return (id, drop (word_span s) s))

unfoldable pub id_or_name : (Bytes → M ℤ) → Bytes → Parsed ℤ → M (ℤ × Bytes)
unfolding named_id
id_or_name lookup s (got id e) = return (id, e)
id_or_name lookup s refused = named_id lookup s
id_or_name lookup s stray = fail overread

unfoldable pub val_tag : Bytes → M (ℤ × Bytes)
unfolding id_or_name tag2id
val_tag s = id_or_name (tag2id duc_open) s (strtoul s)

unfoldable pub val_taglist : Bytes → M (Idlist × Bytes)
unfolding idl_addclist val_tag
val_taglist s = do r ← idl_addclist (idl_new none) s val_tag; return (r.idl, r.end)

unfoldable pub val_sfilter : Bytes → M (ℤ × Bytes)
unfolding id_or_name sfilter2id
val_sfilter s = id_or_name (sfilter2id duc_open) s (strtoul s)
