-- ===== src/Tests/Rows.antt =====
-- Examples for the theorems on fields and rows.
use dudlc.Shared.{
  Bool, true, not, ◌&&◌, ◌==◌, [], ◌∷◌, ◌++◌, ◌≡◌, refl, arith, pos, negsuc, codes, Bytes,
}
use dudlc.Cstring.{got, strtol, is_digit}
use dudlc.Cstring.Decimal.{print_int}
use dudlc.Cstring.Scan.{strtol-print_int}
use dudlc.Field.{ends_field, fielddup}
use dudlc.Field.Escape.{NoNul, escape, fielddup-escape}
use dudlc.Field.Room.{IsSpanned, fielddup-IsSpanned}
use dudlc.Row.{artist_parse, queue_parse, history_parse, client_parse, tag_parse, sfilter_parse}
use dudlc.Row.Print.{
  print_track, print_queue, print_history, print_client, print_tag, print_sfilter, ArtistSendable,
  UserSendable, TrackSendable,
}
use dudlc.Row.RoundTrip.{
  queue_parse-print_queue, history_parse-print_history, client_parse-print_client,
  tag_parse-print_tag, sfilter_parse-print_sfilter,
}
use dudlc.Row.Overread.{artist_parse_overread}
use dudlc.Event.{
  calls, login, logout, nexttrack, queuefetch, queueadd, queuedel, tagchange, tagdel, reaction,
}
use dudlc.Event.Dispatch.{
  reaction-print_queue, reaction-print_client, reaction-print_tag, reaction-print_track,
}
use dudlc.Tests.Samples.{
  some_artist, some_track, some_user, some_queue, some_history, some_client, some_tag, some_sfilter,
}

-- A test for 0 bytes, which evaluates on a literal.
abbrev has_no_nul : Bytes → Bool
has_no_nul [] = true
has_no_nul (c ∷ s) = not (c == 0) && has_no_nul s

has_no_nul-NoNul : (s : Bytes) → has_no_nul s ≡ true → NoNul s
has_no_nul-NoNul [] h = tt
has_no_nul-NoNul (c ∷ s) h = (ground arith, has_no_nul-NoNul s (ground arith))

some_artist-Sendable : ArtistSendable some_artist
some_artist-Sendable = (omega arith, has_no_nul-NoNul (codes "Low") refl)

some_user-Sendable : UserSendable some_user
some_user-Sendable = (omega arith, has_no_nul-NoNul (codes "me") refl, omega arith)

some_track-Sendable : TrackSendable some_track
some_track-Sendable = (
  omega arith,
  omega arith,
  has_no_nul-NoNul (codes "Title") refl,
  omega arith,
  some_artist-Sendable,
  (omega arith, has_no_nul-NoNul (codes "a\tb\\") refl, omega arith, some_artist-Sendable),
)

queue_parse-print_queue_example :
    queue_parse (print_queue some_queue ++ 0 ∷ []) ≡ got some_queue (0 ∷ [])
queue_parse-print_queue_example =
    queue_parse-print_queue some_queue
      (omega arith, omega arith, some_user-Sendable, some_track-Sendable) []

history_parse-print_history_example :
    history_parse (print_history some_history ++ 0 ∷ []) ≡ got some_history (0 ∷ [])
history_parse-print_history_example =
    history_parse-print_history some_history (omega arith, some_user-Sendable, some_track-Sendable)
      []

client_parse-print_client_example :
    client_parse (print_client some_client ++ 0 ∷ []) ≡ got some_client (0 ∷ [])
client_parse-print_client_example =
    client_parse-print_client some_client
      (omega arith, has_no_nul-NoNul (codes "10.0.0.1") refl, some_user-Sendable) []

tag_parse-print_tag_example : tag_parse (print_tag some_tag ++ 0 ∷ []) ≡ got some_tag (0 ∷ [])
tag_parse-print_tag_example =
    tag_parse-print_tag some_tag
      (omega arith, has_no_nul-NoNul (codes "calm") refl, has_no_nul-NoNul (codes "a\tb") refl) []

sfilter_parse-print_sfilter_example :
    sfilter_parse (print_sfilter some_sfilter ++ 0 ∷ []) ≡ got some_sfilter (0 ∷ [])
sfilter_parse-print_sfilter_example =
    sfilter_parse-print_sfilter some_sfilter
      (omega arith, has_no_nul-NoNul (codes "all") refl, has_no_nul-NoNul (codes "true") refl) []

fielddup-escape_example :
    fielddup (escape (codes "a\tb\\") ++ b'\t' ∷ codes "7")
    ≡ got (codes "a\tb\\") (b'\t' ∷ codes "7")
unfolding ends_field
fielddup-escape_example =
    fielddup-escape (codes "a\tb\\") b'\t' (codes "7") (has_no_nul-NoNul (codes "a\tb\\") refl) refl

fielddup-IsSpanned_example : IsSpanned 0 (codes "a\\tb\t7") (fielddup (codes "a\\tb\t7"))
fielddup-IsSpanned_example = fielddup-IsSpanned (codes "a\\tb\t7")

strtol-print_int_example :
    strtol (print_int (negsuc 41) ++ b'\t' ∷ []) ≡ got (negsuc 41) (b'\t' ∷ [])
unfolding is_digit
strtol-print_int_example = strtol-print_int (negsuc 41) b'\t' [] (omega arith) refl

artist_parse_overread_example :
    artist_parse (print_int (pos 7) ++ 0 ∷ (escape (codes "old") ++ 0 ∷ []))
    ≡ got (record { id = pos 7; artist = codes "old" }) (0 ∷ [])
artist_parse_overread_example =
    artist_parse_overread (pos 7) (codes "old") [] (omega arith)
      (has_no_nul-NoNul (codes "old") refl)

reaction-print_queue_example :
    (reaction (codes "660 " ++ (print_queue some_queue ++ 0 ∷ [])) ≡ calls (queuefetch some_queue))
    × (reaction (codes "661 " ++ (print_queue some_queue ++ 0 ∷ [])) ≡ calls (queueadd some_queue))
    × (reaction (codes "662 " ++ (print_queue some_queue ++ 0 ∷ [])) ≡ calls (queuedel some_queue))
reaction-print_queue_example =
    reaction-print_queue some_queue []
      (omega arith, omega arith, some_user-Sendable, some_track-Sendable)

reaction-print_client_example :
    (reaction (codes "630 " ++ (print_client some_client ++ 0 ∷ [])) ≡ calls (login some_client))
    × (reaction (codes "631 " ++ (print_client some_client ++ 0 ∷ [])) ≡ calls (logout some_client))
reaction-print_client_example =
    reaction-print_client some_client []
      (omega arith, has_no_nul-NoNul (codes "10.0.0.1") refl, some_user-Sendable)

reaction-print_tag_example :
    (reaction (codes "670 " ++ (print_tag some_tag ++ 0 ∷ [])) ≡ calls (tagchange some_tag))
    × (reaction (codes "671 " ++ (print_tag some_tag ++ 0 ∷ [])) ≡ calls (tagdel some_tag))
reaction-print_tag_example =
    reaction-print_tag some_tag []
      (omega arith, has_no_nul-NoNul (codes "calm") refl, has_no_nul-NoNul (codes "a\tb") refl)

reaction-print_track_example :
    reaction (codes "640 " ++ (print_track some_track ++ 0 ∷ [])) ≡ calls (nexttrack some_track)
reaction-print_track_example = reaction-print_track some_track [] some_track-Sendable
