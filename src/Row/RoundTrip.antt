-- ===== src/Row/RoundTrip.antt =====
-- The parsers of lib/*.c on rows as the server prints them.
use dudlc.Shared.{ℕ, ℤ, true, false, ◌∷◌, ◌++◌, ◌≡◌, refl, append_assoc, arith, Bytes}
use dudlc.Cstring.{Parser, got, ◌>>=◌, ◌>>◌, pure, advance, is_digit, strtol}
use dudlc.Cstring.Decimal.{print_int}
use dudlc.Cstring.Scan.{IsInt, strtol-print_int}
use dudlc.Field.{ends_field, fielddup}
use dudlc.Field.Escape.{escape, NoNul, fielddup-escape}
use dudlc.Row.{
  Artist, Album, User, Track, Tag, Sfilter, Queue, History, Client, artist_parse, album_parse,
  user_parse, track_parse, tag_parse, sfilter_parse, queue_parse, history_parse, client_parse,
}
use dudlc.Row.Print.{
  ◌⇥◌, print_artist, print_album, print_user, print_track, print_tag, print_sfilter, print_queue,
  print_history, print_client, ArtistSendable, AlbumSendable, UserSendable, TrackSendable,
  TagSendable, SfilterSendable, QueueSendable, HistorySendable, ClientSendable,
}

-- In front of a tab or a 0, the parser takes just the text, and gives the value.
pub record Scans {A : Type 0} (p : Parser A) (text : Bytes) (v : A) : Type 0 where
  pub scan : (d : ℕ) (rest : Bytes) → ends_field d ≡ true → p (text ++ d ∷ rest) ≡ got v (d ∷ rest)

not_digit : (d : ℕ) → ends_field d ≡ true → is_digit d ≡ false
unfolding ends_field is_digit
not_digit d e = ground arith

Scans-strtol : (i : ℤ) → IsInt i → Scans strtol (print_int i) i
Scans-strtol i h = record { scan = λ d rest e. strtol-print_int i d rest h (not_digit d e) }

Scans-fielddup : (t : Bytes) → NoNul t → Scans fielddup (escape t) t
Scans-fielddup t h = record { scan = λ d rest e. fielddup-escape t d rest h e }

module _ {A B : Type 0} {p : Parser A} {t : Bytes} {a : A} where
  Scans-then :
      (f : A → Parser B) {u : Bytes} {b : B}
      → Scans p t a
      → Scans (f a) u b
      → Scans (p >>= λ x. advance >> f x) (t ⇥ u) b
  unfolding advance ends_field
  Scans-then f {u} hp hf = record {
    scan = λ d rest e.
        rw append_assoc (rw (hp.scan b'\t' (u ++ d ∷ rest) refl, ◌>>=◌) (hf.scan d rest e));
  }

  Scans-last : (g : A → B) → Scans p t a → Scans (p >>= λ x. pure (g x)) t (g a)
  Scans-last g hp = record { scan = λ d rest e. rw (hp.scan d rest e, ◌>>=◌) }

pub Scans-artist : (r : Artist) → ArtistSendable r → Scans artist_parse (print_artist r) r
unfolding artist_parse print_artist
Scans-artist r h =
    Scans-then _ (Scans-strtol r.id h.0)
      (Scans-last (λ x. record { id = r.id; artist = x }) (Scans-fielddup r.artist h.1))

pub Scans-album : (r : Album) → AlbumSendable r → Scans album_parse (print_album r) r
unfolding album_parse print_album
Scans-album r h = Scans-then _ (Scans-strtol r.id h.0) (
    Scans-then _ (Scans-fielddup r.album h.1) (
      Scans-then _ (Scans-strtol r.year h.2) (
        Scans-last (λ x. record { id = r.id; album = r.album; artist = x; year = r.year })
          (Scans-artist r.artist h.3))))

pub Scans-user : (r : User) → UserSendable r → Scans user_parse (print_user r) r
unfolding user_parse print_user
Scans-user r h = Scans-then _ (Scans-strtol r.id h.0) (
    Scans-then _ (Scans-fielddup r.name h.1)
      (Scans-last (λ x. record { id = r.id; name = r.name; right = x }) (Scans-strtol r.right h.2)))

pub Scans-track : (r : Track) → TrackSendable r → Scans track_parse (print_track r) r
unfolding track_parse print_track
Scans-track r h = Scans-then _ (Scans-strtol r.id h.0) (
    Scans-then _ (Scans-strtol r.albumnr h.1) (
      Scans-then _ (Scans-fielddup r.title h.2) (
        Scans-then _ (Scans-strtol r.duration h.3) (
          Scans-then _ (Scans-artist r.artist h.4) (
            Scans-last
              (λ x. record {
                id = r.id;
                album = x;
                albumnr = r.albumnr;
                title = r.title;
                artist = r.artist;
                duration = r.duration;
              })
              (Scans-album r.album h.5))))))

pub Scans-tag : (r : Tag) → TagSendable r → Scans tag_parse (print_tag r) r
unfolding tag_parse print_tag
Scans-tag r h = Scans-then _ (Scans-strtol r.id h.0) (
    Scans-then _ (Scans-fielddup r.name h.1)
      (Scans-last (λ x. record { id = r.id; name = r.name; desc = x }) (Scans-fielddup r.desc h.2)))

pub Scans-sfilter : (r : Sfilter) → SfilterSendable r → Scans sfilter_parse (print_sfilter r) r
unfolding sfilter_parse print_sfilter
Scans-sfilter r h = Scans-then _ (Scans-strtol r.id h.0) (
    Scans-then _ (Scans-fielddup r.name h.1) (
      Scans-last (λ x. record { id = r.id; name = r.name; filter = x })
        (Scans-fielddup r.filter h.2)))

pub Scans-queue : (r : Queue) → QueueSendable r → Scans queue_parse (print_queue r) r
unfolding queue_parse print_queue
Scans-queue r h = Scans-then _ (Scans-strtol r.id h.0) (
    Scans-then _ (Scans-strtol r.queued h.1) (
      Scans-then _ (Scans-user r.user h.2) (
        Scans-last (λ x. record { id = r.id; queued = r.queued; user = r.user; track = x })
          (Scans-track r.track h.3))))

pub Scans-history : (r : History) → HistorySendable r → Scans history_parse (print_history r) r
unfolding history_parse print_history
Scans-history r h = Scans-then _ (Scans-strtol r.played h.0) (
    Scans-then _ (Scans-user r.user h.1) (
      Scans-last (λ x. record { played = r.played; track = x; user = r.user })
        (Scans-track r.track h.2)))

pub Scans-client : (r : Client) → ClientSendable r → Scans client_parse (print_client r) r
unfolding client_parse print_client
Scans-client r h = Scans-then _ (Scans-strtol r.id h.0) (
    Scans-then _ (Scans-fielddup r.addr h.1)
      (Scans-last (λ x. record { id = r.id; user = x; addr = r.addr }) (Scans-user r.user h.2)))

-- A row of the queue of which every number fits an int and no text holds
-- a 0 comes back from `_duc_queue_parse`, which takes just the row.
pub queue_parse-print_queue :
    (r : Queue)
    → QueueSendable r
    → (rest : Bytes) → queue_parse (print_queue r ++ 0 ∷ rest) ≡ got r (0 ∷ rest)
unfolding ends_field
queue_parse-print_queue r h rest = (Scans-queue r h).scan 0 rest refl

-- A row of the history of which every number fits an int and no text holds a 0 comes back from
-- `_duc_history_parse`, which takes just the row.
pub history_parse-print_history :
    (r : History)
    → HistorySendable r
    → (rest : Bytes) → history_parse (print_history r ++ 0 ∷ rest) ≡ got r (0 ∷ rest)
unfolding ends_field
history_parse-print_history r h rest = (Scans-history r h).scan 0 rest refl

-- A client of which every number fits an int and no text holds a 0 comes back from
-- `_duc_client_parse`, which takes just the row.
pub client_parse-print_client :
    (r : Client)
    → ClientSendable r
    → (rest : Bytes) → client_parse (print_client r ++ 0 ∷ rest) ≡ got r (0 ∷ rest)
unfolding ends_field
client_parse-print_client r h rest = (Scans-client r h).scan 0 rest refl

-- A tag of which the number fits an int and no text holds a 0 comes back from `_duc_tag_parse`, which
-- takes just the row.
pub tag_parse-print_tag :
    (r : Tag)
    → TagSendable r
    → (rest : Bytes) → tag_parse (print_tag r ++ 0 ∷ rest) ≡ got r (0 ∷ rest)
unfolding ends_field
tag_parse-print_tag r h rest = (Scans-tag r h).scan 0 rest refl

-- A filter of which the number fits an int and no text holds a 0 comes back from
-- `_duc_sfilter_parse`, which takes just the row.
pub sfilter_parse-print_sfilter :
    (r : Sfilter)
    → SfilterSendable r
    → (rest : Bytes) → sfilter_parse (print_sfilter r ++ 0 ∷ rest) ≡ got r (0 ∷ rest)
unfolding ends_field
sfilter_parse-print_sfilter r h rest = (Scans-sfilter r h).scan 0 rest refl

-- A track of which every number fits an int and no text holds a 0 comes back from
-- `_duc_track_parse`, which takes just the row.
pub track_parse-print_track :
    (r : Track)
    → TrackSendable r
    → (rest : Bytes) → track_parse (print_track r ++ 0 ∷ rest) ≡ got r (0 ∷ rest)
unfolding ends_field
track_parse-print_track r h rest = (Scans-track r h).scan 0 rest refl
