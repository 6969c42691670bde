-- ===== src/Row/Print.antt =====
-- The rows as the server sends them: numbers in decimal, texts escaped, a tab between two fields.
-- This is the format that the parsers of `Row` expect; the server itself is not in the repository.
use dudlc.Shared.{◌∷◌, ◌++◌, Bytes}
use dudlc.Cstring.Decimal.{print_int}
use dudlc.Cstring.Scan.{IsInt}
use dudlc.Field.Escape.{escape, NoNul}
use dudlc.Row.{Artist, Album, User, Track, Tag, Sfilter, Queue, History, Client}

-- A field, a tab, and what follows.
infixr 66 ◌⇥◌
abbrev pub ◌⇥◌ : Bytes → Bytes → Bytes
a ⇥ b = a ++ b'\t' ∷ b

unfoldable pub print_artist : Artist → Bytes
print_artist r = print_int r.id ⇥ escape r.artist

unfoldable pub print_album : Album → Bytes
print_album r = print_int r.id ⇥ escape r.album ⇥ print_int r.year ⇥ print_artist r.artist

unfoldable pub print_user : User → Bytes
print_user r = print_int r.id ⇥ escape r.name ⇥ print_int r.right

unfoldable pub print_track : Track → Bytes
print_track r =
    print_int r.id
    ⇥ print_int r.albumnr
    ⇥ escape r.title
    ⇥ print_int r.duration
    ⇥ print_artist r.artist
    ⇥ print_album r.album

unfoldable pub print_tag : Tag → Bytes
print_tag r = print_int r.id ⇥ escape r.name ⇥ escape r.desc

unfoldable pub print_sfilter : Sfilter → Bytes
print_sfilter r = print_int r.id ⇥ escape r.name ⇥ escape r.filter

unfoldable pub print_queue : Queue → Bytes
print_queue r = print_int r.id ⇥ print_int r.queued ⇥ print_user r.user ⇥ print_track r.track

unfoldable pub print_history : History → Bytes
print_history r = print_int r.played ⇥ print_user r.user ⇥ print_track r.track

unfoldable pub print_client : Client → Bytes
print_client r = print_int r.id ⇥ escape r.addr ⇥ print_user r.user

-- The numbers fit an int, and the texts hold no 0.
abbrev pub ArtistSendable : Artist → Type 0
ArtistSendable r = IsInt r.id × NoNul r.artist

abbrev pub AlbumSendable : Album → Type 0
AlbumSendable r = IsInt r.id × NoNul r.album × IsInt r.year × ArtistSendable r.artist

abbrev pub UserSendable : User → Type 0
UserSendable r = IsInt r.id × NoNul r.name × IsInt r.right

abbrev pub TrackSendable : Track → Type 0
TrackSendable r =
    IsInt r.id
    × IsInt r.albumnr
    × NoNul r.title
    × IsInt r.duration
    × ArtistSendable r.artist
    × AlbumSendable r.album

abbrev pub TagSendable : Tag → Type 0
TagSendable r = IsInt r.id × NoNul r.name × NoNul r.desc

abbrev pub SfilterSendable : Sfilter → Type 0
SfilterSendable r = IsInt r.id × NoNul r.name × NoNul r.filter

abbrev pub QueueSendable : Queue → Type 0
QueueSendable r = IsInt r.id × IsInt r.queued × UserSendable r.user × TrackSendable r.track

abbrev pub HistorySendable : History → Type 0
HistorySendable r = IsInt r.played × UserSendable r.user × TrackSendable r.track

abbrev pub ClientSendable : Client → Type 0
ClientSendable r = IsInt r.id × NoNul r.addr × UserSendable r.user
