-- ===== src/Cmd/Value/TrackEnds.antt =====
-- How the functions end that read a track or a list of tracks.
use dudlc.Shared.{
  ℕ, zero, suc, ◌+◌, ◌<◌, ◌≤◌, Option, none, some, [], ◌∷◌, arith, ◌==◌, if◌then◌else◌, ℤ, negsuc,
  is_negative, Bytes, length, drop, codes, ◌++◌,
}
use dudlc.Cstring.{Parsed, got, refused, stray, strtoul}
use dudlc.Cstring.Shorter.{Shorter, strtoul-Shorter}
use dudlc.Cstring.Decimal.{print_int}
use dudlc.Event.{char_at}
use dudlc.Row.{Track, track_parse}
use dudlc.Session.Run.{Ends-map, returns, faults}
use dudlc.Proto.{M}
use dudlc.Command.Player.{curtrack}
use dudlc.Command.Track.{track2id, tracksalbum}
use dudlc.Cmd.Idlist.{Idlist, idl_new, idl_add}
use dudlc.Cmd.Value.Lists.{
  add_rows, album_of, add_album, idl_addalbum, track_at, track_number, current_track, val_track,
  Item, positions_to, position, add_current, behind_id, track_item, after_item, tracklist_loop,
  val_tracklist,
}
use dudlc.Cmd.Value.Ends.{
  Idling, Whatever, Within, bind-Idling, return-Idling, if-Idling, int-Idling, conv-Idling,
  rows-Idling, drop-length,
}

add_album-Idling :
    (idl : Idlist) (album : Option ℤ) (first last : ℤ)
    → Idling Whatever (add_album idl album first last)
unfolding add_album tracksalbum
add_album-Idling idl none first last = return-Idling idl tt
add_album-Idling idl (some album) first last =
    bind-Idling (rows-Idling track_parse (codes "tracksalbum " ++ print_int album))
      (λ rows h. return-Idling (add_rows first last idl rows) tt)

idl_addalbum-Idling :
    (idl : Idlist) (album first last : ℤ) → Idling Whatever (idl_addalbum idl album first last)
unfolding idl_addalbum curtrack
idl_addalbum-Idling idl album first last =
    if-Idling (is_negative album)
      (bind-Idling (conv-Idling track_parse (codes "curtrack"))
        (λ t h. add_album-Idling idl (album_of t) first last))
      (add_album-Idling idl (some album) first last)

track_at-Idling : (s : Bytes) (a : ℤ) (r : Parsed ℤ) → Idling Whatever (track_at s a r)
unfolding track_at track2id
track_at-Idling s a (got b end) q i =
    bind-Idling (int-Idling (codes "track2id " ++ print_int a ++ codes " " ++ print_int b))
      (λ id h. return-Idling (id, end) tt) q i
track_at-Idling s a refused q i = returns (i, tt)
track_at-Idling s a stray q i = faults (cc)

track_number-Idling : (s : Bytes) (r : Parsed ℤ) → Idling Whatever (track_number s r)
unfolding track_number
track_number-Idling s (got a end) q i =
    if-Idling (char_at end 0 == b'/') (track_at-Idling s a (strtoul (drop 1 end)))
      (return-Idling (a, end) tt) q i
track_number-Idling s refused q i = returns (i, tt)
track_number-Idling s stray q i = faults (cc)

current_track-Idling : (s : Bytes) (t : Option Track) → Idling Whatever (current_track s t)
unfolding current_track
current_track-Idling s none q i = returns (i, tt)
current_track-Idling s (some t) q i = returns (i, tt)

pub val_track-Idling : (s : Bytes) → Idling Whatever (val_track s)
unfolding val_track curtrack
val_track-Idling s =
    if-Idling (char_at s 0 == b'c')
      (bind-Idling (conv-Idling track_parse (codes "curtrack")) (λ t h. current_track-Idling s t))
      (track_number-Idling s (strtoul s))

-- `tok` behind an item does not lie in front of the item.
abbrev ItemWithin : Bytes → Item → Type 0
ItemWithin s none = Unit {0}
ItemWithin s (some r) = Within s r

ItemWithin-le : (s t : Bytes) (r : Item) → length s ≤ length t → ItemWithin s r → ItemWithin t r
ItemWithin-le s t none h k = tt
ItemWithin-le s t (some r) h k = omega (arith, h, k)

weaker :
    (s t : Bytes) {m : M Item}
    → length s ≤ length t
    → Idling (ItemWithin s) m
    → Idling (ItemWithin t) m
weaker s t h k q i = Ends-map (k q i) (λ r u w. (w.0, ItemWithin-le s t r h w.1))

positions_to-Idling :
    (idl : Idlist) (id1 pos1 : ℤ) (tok : Bytes) (r : Parsed ℤ)
    → Shorter tok r
    → Idling (ItemWithin tok) (positions_to idl id1 pos1 tok r)
unfolding positions_to
positions_to-Idling idl id1 pos1 tok (got pos2 e) h q i =
    bind-Idling (idl_addalbum-Idling idl id1 pos1 pos2)
      (λ more k. return-Idling (some (more, e)) (omega (arith, h))) q i
positions_to-Idling idl id1 pos1 tok refused h q i =
    if-Idling (char_at tok 0 == b'*')
      (bind-Idling (idl_addalbum-Idling idl id1 pos1 (negsuc 0))
        (λ more k. return-Idling (some (more, drop 1 tok)) (drop-length 1 tok)))
      (return-Idling none tt) q i
positions_to-Idling idl id1 pos1 tok stray h q i = faults (cc)

position-Idling :
    (idl : Idlist) (id1 : ℤ) (tok : Bytes) (r : Parsed ℤ)
    → Shorter tok r
    → Idling (ItemWithin tok) (position idl id1 tok r)
unfolding position track2id
position-Idling idl id1 tok (got pos1 e) h q i =
    if-Idling (char_at e 0 == b'-')
      (weaker (drop 1 e) tok (let d = drop-length 1 e in omega (arith, h, d)) (
        positions_to-Idling idl id1 pos1 (drop 1 e) (strtoul (drop 1 e))
          (strtoul-Shorter (drop 1 e))))
      (bind-Idling (int-Idling (codes "track2id " ++ print_int id1 ++ codes " " ++ print_int pos1))
        (λ tid k.
          return-Idling (some (if is_negative tid then idl else idl_add idl tid, e))
            (omega (arith, h))))
      q i
position-Idling idl id1 tok refused h q i =
    if-Idling (char_at tok 0 == b'*')
      (bind-Idling (idl_addalbum-Idling idl id1 (negsuc 0) (negsuc 0))
        (λ more k. return-Idling (some (more, drop 1 tok)) (drop-length 1 tok)))
      (return-Idling none tt) q i
position-Idling idl id1 tok stray h q i = faults (cc)

add_current-Idling :
    (idl : Idlist) (tok : Bytes) (t : Option Track)
    → Idling (ItemWithin tok) (add_current idl tok t)
unfolding add_current
add_current-Idling idl tok none q i = returns (i, tt)
add_current-Idling idl tok (some t) q i = returns (i, omega arith)

behind_id-Idling :
    (idl : Idlist) (id1 : ℤ) (tok : Bytes) → Idling (ItemWithin tok) (behind_id idl id1 tok)
unfolding behind_id curtrack
behind_id-Idling idl id1 tok =
    if-Idling (char_at tok 0 == b'/')
      (weaker (drop 1 tok) tok (drop-length 1 tok) (
        position-Idling idl id1 (drop 1 tok) (strtoul (drop 1 tok)) (strtoul-Shorter (drop 1 tok))))
      (if-Idling (is_negative id1)
        (bind-Idling (conv-Idling track_parse (codes "curtrack"))
          (λ t h. add_current-Idling idl tok t))
        (return-Idling (some (idl_add idl id1, tok)) (omega arith)))

track_item-Idling :
    (idl : Idlist) (tok : Bytes) (r : Parsed ℤ)
    → Shorter tok r
    → Idling (ItemWithin tok) (track_item idl tok r)
unfolding track_item
track_item-Idling idl tok (got id1 e) h q i =
    weaker e tok (omega (arith, h)) (behind_id-Idling idl id1 e) q i
track_item-Idling idl tok refused h q i =
    if-Idling (char_at tok 0 == b'c')
      (weaker (drop 1 tok) tok (drop-length 1 tok) (behind_id-Idling idl (negsuc 0) (drop 1 tok)))
      (return-Idling none tt) q i
track_item-Idling idl tok stray h q i = faults (cc)

after_item-Idling :
    (n : ℕ) (s : Bytes) (again : Idlist → Bytes → M (Option Idlist × Bytes)) (tok : Bytes)
    (r : Item)
    → length tok < n + 1
    → ItemWithin tok r
    → ((idl : Idlist) (tok : Bytes) → length tok < n → Idling Whatever (again idl tok))
    → Idling Whatever (after_item s again r)
unfolding after_item
after_item-Idling n s again tok none fits h k q i = returns (i, tt)
after_item-Idling n s again tok (some (idl, [])) fits h k q i = returns (i, tt)
after_item-Idling n s again tok (some (idl, c ∷ rest)) fits h k q i =
    if-Idling (c == b',') (k idl rest (omega (arith, fits, h)))
      (return-Idling (some idl, c ∷ rest) tt) q i

tracklist_loop-Idling :
    (n : ℕ) (s : Bytes) (idl : Idlist) (tok : Bytes)
    → length tok < n
    → Idling Whatever (tracklist_loop n s idl tok)
unfolding tracklist_loop
tracklist_loop-Idling zero s idl tok fits = absurd (omega arith)
tracklist_loop-Idling (suc n) s idl tok fits =
    bind-Idling (track_item-Idling idl tok (strtoul tok) (strtoul-Shorter tok)) λ r h.
      after_item-Idling n s (tracklist_loop n s) tok r (omega (arith, fits)) h
        (tracklist_loop-Idling n s)

pub val_tracklist-Idling : (s : Bytes) → Idling Whatever (val_tracklist s)
unfolding val_tracklist
val_tracklist-Idling s = tracklist_loop-Idling (suc (length s)) s (idl_new none) s (omega arith)
