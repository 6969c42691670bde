-- ===== src/Event.antt =====
-- lib/event.c and the broadcast handlers `_duc_bcast_client` (lib/client.c), `_duc_bcast_player`
-- (lib/player.c), `_duc_bcast_random` (lib/random.c), `_duc_bcast_queue` (lib/queue.c) and
-- `_duc_bcast_tag` (lib/tag.c): which event handler a broadcast line calls, and with what.
-- The callbacks of `duc_events` (lib/dudlc/event.h) are client code: a call of one is an `Event`.
pub mod Dispatch
use dudlc.Shared.{ℕ, ◌==◌, if◌then◌else◌, ℤ, pos, Bytes, drop, get_or}
use dudlc.Cstring.{Parsed, got, refused, stray, c_string, strtol}
use dudlc.Row.{Track, Tag, Queue, Client, track_parse, tag_parse, queue_parse, client_parse}

-- The fields of `duc_events`, each with the argument that its callback takes.
pub data Event : Type 0 where
  connect disconnect kicked stopped paused resumed queueclear : Event
  login logout : Client → Event
  nexttrack : Track → Event
  random elapsed sleep : ℤ → Event
  filter bcast : Bytes → Event
  queuefetch queueadd queuedel : Queue → Event
  tagchange tagdel : Tag → Event

-- What a broadcast line comes to: a call of a handler, no call, or a read behind the stored bytes.
pub data Reaction : Type 0 where
  calls : Event → Reaction
  silent : Reaction
  overread : Reaction

-- A handler is called with the row if the row parses.
abbrev pub on_row : {A : Type 0} → (A → Event) → Parsed A → Reaction
on_row event (got row end) = calls (event row)
on_row event refused = silent
on_row event stray = overread

-- atoi: 0 where there is no number.
abbrev pub on_atoi : (ℤ → Event) → Parsed ℤ → Reaction
on_atoi event (got n end) = calls (event n)
on_atoi event refused = calls (event (pos 0))
on_atoi event stray = overread

-- line[k]
abbrev pub char_at : Bytes → ℕ → ℕ
char_at line k = get_or line k 0

abbrev pub unknown : Bytes → Reaction
unknown line = calls (bcast (c_string line))

unfoldable pub bcast_client : Bytes → Reaction
bcast_client line =
    if char_at line 2 == b'0'
    then on_row login (client_parse (drop 4 line))
    else if char_at line 2 == b'1'
    then on_row logout (client_parse (drop 4 line))
    else if char_at line 2 == b'2'
    then calls kicked
    else unknown line

unfoldable pub bcast_player : Bytes → Reaction
bcast_player line =
    if char_at line 2 == b'0'
    then on_row nexttrack (track_parse (drop 4 line))
    else if char_at line 2 == b'1'
    then calls stopped
    else if char_at line 2 == b'2'
    then calls paused
    else if char_at line 2 == b'3'
    then calls resumed
    else if char_at line 2 == b'6'
    then on_atoi random (strtol (drop 4 line))
    else if char_at line 2 == b'7'
    then on_atoi elapsed (strtol (drop 4 line))
    else unknown line

unfoldable pub bcast_random : Bytes → Reaction
bcast_random line =
    if char_at line 2 == b'0'
    then calls (filter (c_string (drop 4 line)))
    else if char_at line 2 == b'1'
    then on_atoi sleep (strtol (drop 4 line))
    else unknown line

unfoldable pub bcast_queue : Bytes → Reaction
bcast_queue line =
    if char_at line 2 == b'0'
    then on_row queuefetch (queue_parse (drop 4 line))
    else if char_at line 2 == b'1'
    then on_row queueadd (queue_parse (drop 4 line))
    else if char_at line 2 == b'2'
    then on_row queuedel (queue_parse (drop 4 line))
    else if char_at line 2 == b'3'
    then calls queueclear
    else unknown line

unfoldable pub bcast_tag : Bytes → Reaction
bcast_tag line =
    if char_at line 2 == b'0'
    then on_row tagchange (tag_parse (drop 4 line))
    else if char_at line 2 == b'1'
    then on_row tagdel (tag_parse (drop 4 line))
    else unknown line

-- _duc_bcast
unfoldable pub reaction : Bytes → Reaction
unfolding bcast_client bcast_player bcast_random bcast_queue bcast_tag
reaction line =
    if char_at line 1 == b'3'
    then bcast_client line
    else if char_at line 1 == b'4'
    then bcast_player line
    else if char_at line 1 == b'5'
    then bcast_random line
    else if char_at line 1 == b'6'
    then bcast_queue line
    else if char_at line 1 == b'7'
    then bcast_tag line
    else unknown line
