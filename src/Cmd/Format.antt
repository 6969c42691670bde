-- ===== src/Cmd/Format.antt =====
-- cmd/formatter.c: rows as lines of a table, each cut to the buffer that it is written to.
use dudlc.Shared.{
  ℕ, zero, suc, ◌+◌, ◌-◌, ◌/◌, ◌%◌, Option, none, some, [], ◌∷◌, ◌++◌, ltb, if◌then◌else◌, ℤ, pos,
  negsuc, Bytes, codes, length, take,
}
use dudlc.Cstring.Decimal.{print_int}
use dudlc.Row.{Artist, Album, User, Track, Tag, Sfilter, Queue, History, Client}
use dudlc.Cmd.Console.{Look, Libc}

abbrev pub spaces : ℕ → Bytes
spaces zero = []
spaces (suc n) = b' ' ∷ spaces n

-- printf's `%ws`, `%-ws` and `%.ps`
unfoldable pub pad_left : ℕ → Bytes → Bytes
pad_left w text = spaces (w - length text) ++ text

unfoldable pub pad_right : ℕ → Bytes → Bytes
pad_right w text = text ++ spaces (w - length text)

-- What snprintf leaves in a buffer of `len` bytes, without the 0.
unfoldable pub cut_to : ℕ → Bytes → Bytes
cut_to len text = take (len - 1) text

-- What strftime leaves there: nothing counts if it does not fit.
unfoldable pub fit : ℕ → Bytes → Bytes
fit len text = if ltb (length text) len then text else []

-- gmtime's minutes and seconds of the hour, floored
unfoldable pub mod_int : ℤ → ℕ → ℕ
mod_int (pos n) k = n % k
mod_int (negsuc n) k = k - 1 - n % k

abbrev pub two_digits : ℕ → Bytes
two_digits n = (b'0' + n / 10) ∷ (b'0' + n % 10) ∷ []

unfoldable pub minutes : ℤ → Bytes
unfolding mod_int
minutes time = two_digits (mod_int time 3600 / 60) ++ codes ":" ++ two_digits (mod_int time 60)

-- gmtime with `%H:%M:%S`
unfoldable pub hours : ℤ → Bytes
unfolding minutes mod_int
hours time = two_digits (mod_int time 86400 / 3600) ++ codes ":" ++ minutes time

-- BF and NF
abbrev pub or_empty : Option Bytes → Bytes
or_empty none = []
or_empty (some text) = text

unfoldable pub dfmt_clienthead : ℕ → Bytes
unfolding cut_to pad_left pad_right
dfmt_clienthead len = cut_to len (
    pad_left 4 (codes "id")
    ++ codes " "
    ++ pad_right 10 (codes "user")
    ++ codes " "
    ++ pad_right 15 (codes "address"))

unfoldable pub dfmt_client : ℕ → Client → Bytes
unfolding cut_to pad_left pad_right
dfmt_client len c = cut_to len (
    pad_left 4 (print_int c.id)
    ++ codes " "
    ++ pad_right 10 c.user.name
    ++ codes " "
    ++ pad_right 15 c.addr)

-- The static buffer of 40 bytes has room for two ints.
unfoldable pub dfmt_trackid : ℤ → ℤ → Bytes
dfmt_trackid albumid nr = print_int albumid ++ codes "/" ++ print_int nr

abbrev pub track_columns : Bytes
track_columns =
    pad_left 7 (codes "alb/nr")
    ++ codes " "
    ++ pad_right 18 (codes "album")
    ++ codes " "
    ++ pad_right 5 (codes "dur")
    ++ codes " "
    ++ pad_right 16 (codes "artist")
    ++ codes " "
    ++ pad_right 29 (codes "title")

unfoldable pub dfmt_trackhead : ℕ → Bytes
unfolding cut_to pad_left pad_right
dfmt_trackhead len = cut_to len track_columns

-- A column of `w` bytes, wide or cut, between BF and NF.
unfoldable pub bold : Look → ℕ → Bytes → Bytes
unfolding pad_right
bold look w text = or_empty look.bf ++ pad_right w (take w text) ++ or_empty look.nf

unfoldable pub track_text : Look → Track → Bytes
unfolding pad_left pad_right dfmt_trackid bold minutes
track_text look t =
    pad_left 7 (dfmt_trackid t.album.id t.albumnr)
    ++ codes " "
    ++ bold look 18 t.album.album
    ++ codes " "
    ++ pad_right 5 (take 5 (minutes t.duration))
    ++ codes " "
    ++ bold look 16 t.artist.artist
    ++ codes " "
    ++ pad_right 29 t.title

unfoldable pub dfmt_track : Look → ℕ → Track → Bytes
unfolding cut_to track_text
dfmt_track look len t = cut_to len (track_text look t)

-- Two texts into one buffer, one behind the other: NULL if the first has more than `len` bytes.
unfoldable pub behind : ℕ → Bytes → Bytes → Option Bytes
unfolding cut_to
behind len first second =
    if ltb len (length first) then none else some (cut_to len (first ++ second))

unfoldable pub dfmt_queuehead : ℕ → Option Bytes
unfolding behind pad_left pad_right
dfmt_queuehead len =
    behind len
      (pad_left 4 (codes "id")
        ++ codes " "
        ++ pad_right 10 (codes "user")
        ++ codes " "
        ++ pad_right 8 (codes "queued")
        ++ codes " ")
      track_columns

-- The time is written if there is room; a blank and the track follow.
unfoldable pub queue_track : ℕ → Bytes → Bytes → Option Bytes
unfolding cut_to
queue_track len front track =
    if ltb len (length front + 2) then none else some (cut_to len (front ++ codes " " ++ track))

unfoldable pub dfmt_queue : Libc → Look → ℕ → Queue → Option Bytes
unfolding queue_track pad_left pad_right track_text fit
dfmt_queue libc look len q =
    let front = pad_left 4 (print_int q.id) ++ codes " " ++ pad_right 10 q.user.name ++ codes " " in
    let time = fit (len - length front) (libc.local_time q.queued) in
    if ltb len (length front)
    then none
    else queue_track len (front ++ time) (track_text look q.track)

unfoldable pub dfmt_historyhead : ℕ → Option Bytes
unfolding behind pad_right
dfmt_historyhead len =
    behind len
      (pad_right 19 (codes "played") ++ codes " " ++ pad_right 10 (codes "user") ++ codes " ")
      track_columns

unfoldable pub dfmt_history : Libc → Look → ℕ → History → Option Bytes
unfolding behind pad_right track_text fit
dfmt_history libc look len q =
    let stamp = fit len (libc.local_stamp q.played) in
    if ltb len (length stamp + 2)
    then none
    else behind len (stamp ++ codes " " ++ pad_right 10 q.user.name ++ codes " ")
        (track_text look q.track)

unfoldable pub dfmt_taghead : ℕ → Bytes
unfolding cut_to pad_left pad_right
dfmt_taghead len = cut_to len (
    pad_left 4 (codes "id")
    ++ codes " "
    ++ pad_right 20 (codes "name")
    ++ codes " "
    ++ pad_right 20 (codes "desc"))

unfoldable pub dfmt_tag : ℕ → Tag → Bytes
unfolding cut_to pad_left pad_right
dfmt_tag len q = cut_to len (
    pad_left 4 (print_int q.id)
    ++ codes " "
    ++ pad_right 20 q.name
    ++ codes " "
    ++ pad_right 20 q.desc)

unfoldable pub dfmt_userhead : ℕ → Bytes
unfolding cut_to pad_left pad_right
dfmt_userhead len =
    cut_to len
      (pad_left 4 (codes "id") ++ codes " " ++ pad_right 20 (codes "name") ++ codes " right")

unfoldable pub dfmt_user : ℕ → User → Bytes
unfolding cut_to pad_left pad_right
dfmt_user len q = cut_to len (
    pad_left 4 (print_int q.id)
    ++ codes " "
    ++ pad_right 20 q.name
    ++ codes " "
    ++ pad_left 2 (print_int q.right))

unfoldable pub dfmt_albumhead : ℕ → Bytes
unfolding cut_to pad_left pad_right
dfmt_albumhead len = cut_to len (
    pad_left 4 (codes "id")
    ++ codes " "
    ++ pad_left 4 (codes "year")
    ++ codes " "
    ++ pad_right 25 (codes "artist")
    ++ codes " "
    ++ pad_right 20 (codes "album"))

unfoldable pub dfmt_album : ℕ → Album → Bytes
unfolding cut_to pad_left pad_right
dfmt_album len q = cut_to len (
    pad_left 4 (print_int q.id)
    ++ codes " "
    ++ pad_left 4 (print_int q.year)
    ++ codes " "
    ++ pad_right 25 q.artist.artist
    ++ codes " "
    ++ pad_right 20 q.album)

unfoldable pub dfmt_artisthead : ℕ → Bytes
unfolding cut_to pad_left pad_right
dfmt_artisthead len =
    cut_to len (pad_left 4 (codes "id") ++ codes " " ++ pad_right 20 (codes "artist"))

unfoldable pub dfmt_artist : ℕ → Artist → Bytes
unfolding cut_to pad_left pad_right
dfmt_artist len q = cut_to len (pad_left 4 (print_int q.id) ++ codes " " ++ pad_right 20 q.artist)

unfoldable pub dfmt_sfilterhead : ℕ → Bytes
unfolding cut_to pad_left pad_right
dfmt_sfilterhead len =
    cut_to len
      (pad_left 4 (codes "id") ++ codes " " ++ pad_right 20 (codes "name") ++ codes " sfilter")

unfoldable pub dfmt_sfilter : ℕ → Sfilter → Bytes
unfolding cut_to pad_left pad_right
dfmt_sfilter len q =
    cut_to len
      (pad_left 4 (print_int q.id) ++ codes " " ++ pad_right 20 q.name ++ codes " " ++ q.filter)
