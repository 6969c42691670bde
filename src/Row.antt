-- ===== src/Row.antt =====
-- The rows of the server's replies and their parsers: the structs of lib/dudlc/*.h and
-- `_duc_artist_parse`, `_duc_album_parse`, `_duc_user_parse`, `_duc_track_parse`, `_duc_tag_parse`,
-- `_duc_sfilter_parse`, `_duc_queue_parse`, `_duc_history_parse`, `_duc_client_parse` and
-- `_duc_help_parse` of lib/*.c. `malloc` and `strdup` are taken to succeed.
pub mod Print
pub mod RoundTrip
pub mod Overread
use dudlc.Shared.{ℕ, [], ◌∷◌, ◌==◌, if◌then◌else◌, ℤ, Bytes}
use dudlc.Cstring.{Parsed, got, refused, stray, Parser, ◌>>=◌, ◌>>◌, pure, advance, strtol}
use dudlc.Field.{fielddup}

pub record Artist : Type 0 where
  pub id : ℤ
  pub artist : Bytes

pub record Album : Type 0 where
  pub id : ℤ
  pub album : Bytes
  pub artist : Artist
  pub year : ℤ

pub record User : Type 0 where
  pub id : ℤ
  pub name : Bytes
  pub right : ℤ

pub record Track : Type 0 where
  pub id : ℤ
  pub album : Album
  pub albumnr : ℤ
  pub title : Bytes
  pub artist : Artist
  pub duration : ℤ

pub record Tag : Type 0 where
  pub id : ℤ
  pub name : Bytes
  pub desc : Bytes

pub record Sfilter : Type 0 where
  pub id : ℤ
  pub name : Bytes
  pub filter : Bytes

pub record Queue : Type 0 where
  pub id : ℤ
  pub queued : ℤ
  pub user : User
  pub track : Track

pub record History : Type 0 where
  pub played : ℤ
  pub track : Track
  pub user : User

pub record Client : Type 0 where
  pub id : ℤ
  pub user : User
  pub addr : Bytes

unfoldable pub artist_parse : Parser Artist
artist_parse = do
  id ← strtol
  advance
  artist ← fielddup
  pure (record { id = id; artist = artist })

unfoldable pub album_parse : Parser Album
album_parse = do
  id ← strtol
  advance
  album ← fielddup
  advance
  year ← strtol
  advance
  artist ← artist_parse
  pure (record { id = id; album = album; artist = artist; year = year })

unfoldable pub user_parse : Parser User
user_parse = do
  id ← strtol
  advance
  name ← fielddup
  advance
  right ← strtol
  pure (record { id = id; name = name; right = right })

unfoldable pub track_parse : Parser Track
track_parse = do
  id ← strtol
  advance
  albumnr ← strtol
  advance
  title ← fielddup
  advance
  duration ← strtol
  advance
  artist ← artist_parse
  advance
  album ← album_parse
  pure (record {
    id = id;
    album = album;
    albumnr = albumnr;
    title = title;
    artist = artist;
    duration = duration;
  })

unfoldable pub tag_parse : Parser Tag
tag_parse = do
  id ← strtol
  advance
  name ← fielddup
  advance
  desc ← fielddup
  pure (record { id = id; name = name; desc = desc })

unfoldable pub sfilter_parse : Parser Sfilter
sfilter_parse = do
  id ← strtol
  advance
  name ← fielddup
  advance
  filter ← fielddup
  pure (record { id = id; name = name; filter = filter })

unfoldable pub queue_parse : Parser Queue
queue_parse = do
  id ← strtol
  advance
  queued ← strtol
  advance
  user ← user_parse
  advance
  track ← track_parse
  pure (record { id = id; queued = queued; user = user; track = track })

unfoldable pub history_parse : Parser History
history_parse = do
  played ← strtol
  advance
  user ← user_parse
  advance
  track ← track_parse
  pure (record { played = played; track = track; user = user })

unfoldable pub client_parse : Parser Client
client_parse = do
  id ← strtol
  advance
  addr ← fielddup
  advance
  user ← user_parse
  pure (record { id = id; user = user; addr = addr })

-- One more byte in front of a text that is copied.
abbrev pub cons_text : ℕ → Parsed Bytes → Parsed Bytes
cons_text c (got text end) = got (c ∷ text) end
cons_text c refused = refused
cons_text c stray = stray

-- strdup( line ), and `*end` at the terminating 0.
unfoldable pub help_parse : Parser Bytes
help_parse [] = stray
help_parse (c ∷ s) = let rest = help_parse s in if c == 0 then got [] (c ∷ s) else cons_text c rest
