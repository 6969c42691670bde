-- ===== src/Event/Dispatch.antt =====
-- `_duc_bcast` of lib/event.c on broadcast lines with rows, as the server prints them.
use dudlc.Shared.{◌∷◌, ◌++◌, ◌≡◌, refl, codes, Bytes}
use dudlc.Row.{Track, Tag, Queue, Client}
use dudlc.Row.Print.{
  print_track, print_tag, print_queue, print_client, TrackSendable, TagSendable, QueueSendable,
  ClientSendable,
}
use dudlc.Row.RoundTrip.{
  track_parse-print_track, tag_parse-print_tag, queue_parse-print_queue, client_parse-print_client,
}
use dudlc.Event.{
  calls, login, logout, nexttrack, queuefetch, queueadd, queuedel, tagchange, tagdel, bcast_client,
  bcast_player, bcast_queue, bcast_tag, reaction,
}

-- A broadcast of the code 660, 661 or 662 with a row of the queue, of which every number fits an int
-- and no text holds a 0, calls `queuefetch`, `queueadd` or `queuedel` with that row.
pub reaction-print_queue :
    (r : Queue) (rest : Bytes)
    → QueueSendable r
    → (reaction (codes "660 " ++ (print_queue r ++ 0 ∷ rest)) ≡ calls (queuefetch r))
      × (reaction (codes "661 " ++ (print_queue r ++ 0 ∷ rest)) ≡ calls (queueadd r))
      × (reaction (codes "662 " ++ (print_queue r ++ 0 ∷ rest)) ≡ calls (queuedel r))
unfolding reaction bcast_queue
reaction-print_queue r rest h =
    let e = queue_parse-print_queue r h rest in (rw e refl, rw e refl, rw e refl)

-- A broadcast of the code 630 or 631 with a client, of which every number fits an int and no text
-- holds a 0, calls `login` or `logout` with that client.
pub reaction-print_client :
    (r : Client) (rest : Bytes)
    → ClientSendable r
    → (reaction (codes "630 " ++ (print_client r ++ 0 ∷ rest)) ≡ calls (login r))
      × (reaction (codes "631 " ++ (print_client r ++ 0 ∷ rest)) ≡ calls (logout r))
unfolding reaction bcast_client
reaction-print_client r rest h =
    let e = client_parse-print_client r h rest in (rw e refl, rw e refl)

-- A broadcast of the code 670 or 671 with a tag, of which the number fits an int and no text holds a
-- 0, calls `tagchange`, for 670, or `tagdel`, for 671, with that tag.
pub reaction-print_tag :
    (r : Tag) (rest : Bytes)
    → TagSendable r
    → (reaction (codes "670 " ++ (print_tag r ++ 0 ∷ rest)) ≡ calls (tagchange r))
      × (reaction (codes "671 " ++ (print_tag r ++ 0 ∷ rest)) ≡ calls (tagdel r))
unfolding reaction bcast_tag
reaction-print_tag r rest h = let e = tag_parse-print_tag r h rest in (rw e refl, rw e refl)

-- A broadcast of the code 640 with a track, of which every number fits an int and no text holds a 0,
-- calls `nexttrack` with that track.
pub reaction-print_track :
    (r : Track) (rest : Bytes)
    → TrackSendable r
    → reaction (codes "640 " ++ (print_track r ++ 0 ∷ rest)) ≡ calls (nexttrack r)
unfolding reaction bcast_player
reaction-print_track r rest h = rw (track_parse-print_track r h rest) refl
