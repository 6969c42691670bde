-- ===== src/Cmd/Settle/Dump.antt =====
-- How the tables of cmd/msg.c end.
use dudlc.Shared.{List, [], ◌∷◌, Option, some, Bytes, codes}
use dudlc.Cmd.Format.{
  dfmt_clienthead, dfmt_client, dfmt_trackhead, dfmt_track, dfmt_queuehead, dfmt_queue,
  dfmt_historyhead, dfmt_history, dfmt_taghead, dfmt_tag, dfmt_userhead, dfmt_user, dfmt_albumhead,
  dfmt_album, dfmt_artisthead, dfmt_artist, dfmt_sfilterhead, dfmt_sfilter,
}
use dudlc.Row.{Artist, Album, User, Track, Tag, Sfilter, Queue, History, Client}
use dudlc.Iterate.{Rows, visited}
use dudlc.Cmd.Console.{Libc, C}
use dudlc.Cmd.Console.Ends.{Settling, bind-Settling, return-Settling, dmsg_line-Settling}
use dudlc.Cmd.Dump.{
  show_client, dump_clients, show_track, dump_tracks, show_queue, dump_queues, show_history,
  dump_historys, show_tag, dump_tags, show_user, dump_users, show_album, dump_albums, show_artist,
  dump_artists, show_sfilter, dump_sfilters, buf_len_client, buf_len_track, buf_len_queue,
  buf_len_tag, buf_len_user, buf_len_album, buf_len_artist, buf_len_sfilter, show, show_head,
  dump_user, show_long_sfilter, show_all,
}

pub show-Settling : (text : Option Bytes) → Settling (show text)
show-Settling text = dmsg_line-Settling text (codes "\n")

pub show_head-Settling : (text : Option Bytes) → Settling (show_head text)
show_head-Settling text = dmsg_line-Settling text (codes "\n\n")

show_all-Settling :
    {A : Type 0} {f : A → C (Unit {0})}
    → ((a : A) → Settling (f a))
    → (rows : List A) → Settling (show_all f rows)
show_all-Settling h [] = return-Settling tt
show_all-Settling h (row ∷ rows) = bind-Settling (h row) (λ _. show_all-Settling h rows)

pub show_client-Settling : (libc : Libc) (r : Client) → Settling (show_client libc r)
unfolding show_client
show_client-Settling libc r = show-Settling (some (dfmt_client buf_len_client r))

pub dump_clients-Settling : (libc : Libc) (it : Rows Client) → Settling (dump_clients libc it)
unfolding dump_clients
dump_clients-Settling libc it =
    bind-Settling (show_head-Settling (some (dfmt_clienthead buf_len_client)))
      (λ _. show_all-Settling (show_client-Settling libc) (visited it))

pub show_track-Settling : (libc : Libc) (r : Track) → Settling (show_track libc r)
unfolding show_track
show_track-Settling libc r =
    bind-Settling (λ s i. return-Settling s.look s i)
      (λ look. show-Settling (some (dfmt_track look buf_len_track r)))

pub dump_tracks-Settling : (libc : Libc) (it : Rows Track) → Settling (dump_tracks libc it)
unfolding dump_tracks
dump_tracks-Settling libc it =
    bind-Settling (show_head-Settling (some (dfmt_trackhead buf_len_track)))
      (λ _. show_all-Settling (show_track-Settling libc) (visited it))

pub show_queue-Settling : (libc : Libc) (r : Queue) → Settling (show_queue libc r)
unfolding show_queue
show_queue-Settling libc r =
    bind-Settling (λ s i. return-Settling s.look s i)
      (λ look. show-Settling (dfmt_queue libc look buf_len_queue r))

pub dump_queues-Settling : (libc : Libc) (it : Rows Queue) → Settling (dump_queues libc it)
unfolding dump_queues
dump_queues-Settling libc it =
    bind-Settling (show_head-Settling (dfmt_queuehead buf_len_queue))
      (λ _. show_all-Settling (show_queue-Settling libc) (visited it))

pub show_history-Settling : (libc : Libc) (r : History) → Settling (show_history libc r)
unfolding show_history
show_history-Settling libc r =
    bind-Settling (λ s i. return-Settling s.look s i)
      (λ look. show-Settling (dfmt_history libc look buf_len_queue r))

pub dump_historys-Settling : (libc : Libc) (it : Rows History) → Settling (dump_historys libc it)
unfolding dump_historys
dump_historys-Settling libc it =
    bind-Settling (show_head-Settling (dfmt_historyhead buf_len_queue))
      (λ _. show_all-Settling (show_history-Settling libc) (visited it))

pub show_tag-Settling : (libc : Libc) (r : Tag) → Settling (show_tag libc r)
unfolding show_tag
show_tag-Settling libc r = show-Settling (some (dfmt_tag buf_len_tag r))

pub dump_tags-Settling : (libc : Libc) (it : Rows Tag) → Settling (dump_tags libc it)
unfolding dump_tags
dump_tags-Settling libc it =
    bind-Settling (show_head-Settling (some (dfmt_taghead buf_len_tag)))
      (λ _. show_all-Settling (show_tag-Settling libc) (visited it))

pub show_user-Settling : (libc : Libc) (r : User) → Settling (show_user libc r)
unfolding show_user
show_user-Settling libc r = show-Settling (some (dfmt_user buf_len_user r))

pub dump_users-Settling : (libc : Libc) (it : Rows User) → Settling (dump_users libc it)
unfolding dump_users
dump_users-Settling libc it =
    bind-Settling (show_head-Settling (some (dfmt_userhead buf_len_user)))
      (λ _. show_all-Settling (show_user-Settling libc) (visited it))

pub show_album-Settling : (libc : Libc) (r : Album) → Settling (show_album libc r)
unfolding show_album
show_album-Settling libc r = show-Settling (some (dfmt_album buf_len_album r))

pub dump_albums-Settling : (libc : Libc) (it : Rows Album) → Settling (dump_albums libc it)
unfolding dump_albums
dump_albums-Settling libc it =
    bind-Settling (show_head-Settling (some (dfmt_albumhead buf_len_album)))
      (λ _. show_all-Settling (show_album-Settling libc) (visited it))

pub show_artist-Settling : (libc : Libc) (r : Artist) → Settling (show_artist libc r)
unfolding show_artist
show_artist-Settling libc r = show-Settling (some (dfmt_artist buf_len_artist r))

pub dump_artists-Settling : (libc : Libc) (it : Rows Artist) → Settling (dump_artists libc it)
unfolding dump_artists
dump_artists-Settling libc it =
    bind-Settling (show_head-Settling (some (dfmt_artisthead buf_len_artist)))
      (λ _. show_all-Settling (show_artist-Settling libc) (visited it))

pub show_sfilter-Settling : (libc : Libc) (r : Sfilter) → Settling (show_sfilter libc r)
unfolding show_sfilter
show_sfilter-Settling libc r = show-Settling (some (dfmt_sfilter buf_len_tag r))

pub dump_sfilters-Settling : (libc : Libc) (it : Rows Sfilter) → Settling (dump_sfilters libc it)
unfolding dump_sfilters
dump_sfilters-Settling libc it =
    bind-Settling (show_head-Settling (some (dfmt_sfilterhead buf_len_tag)))
      (λ _. show_all-Settling (show_sfilter-Settling libc) (visited it))

pub dump_user-Settling : (libc : Libc) (r : User) → Settling (dump_user libc r)
unfolding dump_user
dump_user-Settling libc r =
    bind-Settling (show_head-Settling (some (dfmt_userhead buf_len_user)))
      (λ _. show_user-Settling libc r)

pub show_long_sfilter-Settling : (libc : Libc) (r : Sfilter) → Settling (show_long_sfilter libc r)
unfolding show_long_sfilter
show_long_sfilter-Settling libc r = show-Settling (some (dfmt_sfilter buf_len_sfilter r))
