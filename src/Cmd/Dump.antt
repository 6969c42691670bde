-- ===== src/Cmd/Dump.antt =====
-- cmd/msg.c and the sizes of cmd/dudlccmd.h: a row, or the rows of an iterator, shown as a table.
use dudlc.Shared.{ℕ, some, List, [], ◌∷◌, Bytes, codes, Option}
use dudlc.Row.{Artist, Album, User, Track, Tag, Sfilter, Queue, History, Client}
use dudlc.Session.Run.{◌>>=◌, ◌>>◌, return, gets}
use dudlc.Iterate.{Rows, visited}
use dudlc.Cmd.Console.{Console, Libc, C, dmsg_line}
use dudlc.Cmd.Format.{
  dfmt_clienthead, dfmt_client, dfmt_trackhead, dfmt_track, dfmt_queuehead, dfmt_queue,
  dfmt_historyhead, dfmt_history, dfmt_taghead, dfmt_tag, dfmt_userhead, dfmt_user, dfmt_albumhead,
  dfmt_album, dfmt_artisthead, dfmt_artist, dfmt_sfilterhead, dfmt_sfilter,
}

abbrev pub buf_len_client : ℕ
buf_len_client = 512

abbrev pub buf_len_track : ℕ
buf_len_track = 1024

abbrev pub buf_len_queue : ℕ
buf_len_queue = 1024

abbrev pub buf_len_tag : ℕ
buf_len_tag = 1024

abbrev pub buf_len_user : ℕ
buf_len_user = 1024

abbrev pub buf_len_album : ℕ
buf_len_album = 1024

abbrev pub buf_len_artist : ℕ
buf_len_artist = 512

abbrev pub buf_len_sfilter : ℕ
buf_len_sfilter = 4096

-- dmsg_msg( "%s\n\n", … ) and dmsg_msg( "%s\n", … )
abbrev pub show_head : Option Bytes → C (Unit {0})
show_head text = dmsg_line text (codes "\n\n")

abbrev pub show : Option Bytes → C (Unit {0})
show text = dmsg_line text (codes "\n")

-- The loop over the rows of an iterator.
abbrev pub show_all : {A : Type 0} → (A → C (Unit {0})) → List A → C (Unit {0})
show_all f [] = return tt
show_all f (row ∷ rows) = f row >> show_all f rows

module _ (libc : Libc) where
  unfoldable pub show_client : Client → C (Unit {0})
  unfolding dmsg_line dfmt_client
  show_client r = show (some (dfmt_client buf_len_client r))

  unfoldable pub dump_client : Client → C (Unit {0})
  unfolding show_client dmsg_line dfmt_clienthead
  dump_client r = show_head (some (dfmt_clienthead buf_len_client)) >> show_client r

  unfoldable pub dump_clients : Rows Client → C (Unit {0})
  unfolding show_client dmsg_line dfmt_clienthead visited
  dump_clients it =
      show_head (some (dfmt_clienthead buf_len_client)) >> show_all show_client (visited it)

  unfoldable pub show_track : Track → C (Unit {0})
  unfolding dmsg_line dfmt_track
  show_track r =
      gets (λ (s : Console). s.look) >>= λ look. show (some (dfmt_track look buf_len_track r))

  unfoldable pub dump_track : Track → C (Unit {0})
  unfolding show_track dmsg_line dfmt_trackhead
  dump_track r = show_head (some (dfmt_trackhead buf_len_track)) >> show_track r

  unfoldable pub dump_tracks : Rows Track → C (Unit {0})
  unfolding show_track dmsg_line dfmt_trackhead visited
  dump_tracks it =
      show_head (some (dfmt_trackhead buf_len_track)) >> show_all show_track (visited it)

  unfoldable pub show_queue : Queue → C (Unit {0})
  unfolding dmsg_line dfmt_queue
  show_queue r =
      gets (λ (s : Console). s.look) >>= λ look. show (dfmt_queue libc look buf_len_queue r)

  unfoldable pub dump_queue : Queue → C (Unit {0})
  unfolding show_queue dmsg_line dfmt_queuehead
  dump_queue r = show_head (dfmt_queuehead buf_len_queue) >> show_queue r

  unfoldable pub dump_queues : Rows Queue → C (Unit {0})
  unfolding show_queue dmsg_line dfmt_queuehead visited
  dump_queues it = show_head (dfmt_queuehead buf_len_queue) >> show_all show_queue (visited it)

  unfoldable pub show_history : History → C (Unit {0})
  unfolding dmsg_line dfmt_history
  show_history r =
      gets (λ (s : Console). s.look) >>= λ look. show (dfmt_history libc look buf_len_queue r)

  unfoldable pub dump_history : History → C (Unit {0})
  unfolding show_history dmsg_line dfmt_historyhead
  dump_history r = show_head (dfmt_historyhead buf_len_queue) >> show_history r

  unfoldable pub dump_historys : Rows History → C (Unit {0})
  unfolding show_history dmsg_line dfmt_historyhead visited
  dump_historys it =
      show_head (dfmt_historyhead buf_len_queue) >> show_all show_history (visited it)

  unfoldable pub show_tag : Tag → C (Unit {0})
  unfolding dmsg_line dfmt_tag
  show_tag r = show (some (dfmt_tag buf_len_tag r))

  unfoldable pub dump_tag : Tag → C (Unit {0})
  unfolding show_tag dmsg_line dfmt_taghead
  dump_tag r = show_head (some (dfmt_taghead buf_len_tag)) >> show_tag r

  unfoldable pub dump_tags : Rows Tag → C (Unit {0})
  unfolding show_tag dmsg_line dfmt_taghead visited
  dump_tags it = show_head (some (dfmt_taghead buf_len_tag)) >> show_all show_tag (visited it)

  unfoldable pub show_user : User → C (Unit {0})
  unfolding dmsg_line dfmt_user
  show_user r = show (some (dfmt_user buf_len_user r))

  unfoldable pub dump_user : User → C (Unit {0})
  unfolding show_user dmsg_line dfmt_userhead
  dump_user r = show_head (some (dfmt_userhead buf_len_user)) >> show_user r

  unfoldable pub dump_users : Rows User → C (Unit {0})
  unfolding show_user dmsg_line dfmt_userhead visited
  dump_users it = show_head (some (dfmt_userhead buf_len_user)) >> show_all show_user (visited it)

  unfoldable pub show_album : Album → C (Unit {0})
  unfolding dmsg_line dfmt_album
  show_album r = show (some (dfmt_album buf_len_album r))

  unfoldable pub dump_album : Album → C (Unit {0})
  unfolding show_album dmsg_line dfmt_albumhead
  dump_album r = show_head (some (dfmt_albumhead buf_len_album)) >> show_album r

  unfoldable pub dump_albums : Rows Album → C (Unit {0})
  unfolding show_album dmsg_line dfmt_albumhead visited
  dump_albums it =
      show_head (some (dfmt_albumhead buf_len_album)) >> show_all show_album (visited it)

  unfoldable pub show_artist : Artist → C (Unit {0})
  unfolding dmsg_line dfmt_artist
  show_artist r = show (some (dfmt_artist buf_len_artist r))

  unfoldable pub dump_artist : Artist → C (Unit {0})
  unfolding show_artist dmsg_line dfmt_artisthead
  dump_artist r = show_head (some (dfmt_artisthead buf_len_artist)) >> show_artist r

  unfoldable pub dump_artists : Rows Artist → C (Unit {0})
  unfolding show_artist dmsg_line dfmt_artisthead visited
  dump_artists it =
      show_head (some (dfmt_artisthead buf_len_artist)) >> show_all show_artist (visited it)

  unfoldable pub show_sfilter : Sfilter → C (Unit {0})
  unfolding dmsg_line dfmt_sfilter
  show_sfilter r = show (some (dfmt_sfilter buf_len_tag r))

  unfoldable pub dump_sfilter : Sfilter → C (Unit {0})
  unfolding show_sfilter dmsg_line dfmt_sfilterhead
  dump_sfilter r = show_head (some (dfmt_sfilterhead buf_len_tag)) >> show_sfilter r

  unfoldable pub dump_sfilters : Rows Sfilter → C (Unit {0})
  unfolding show_sfilter dmsg_line dfmt_sfilterhead visited
  dump_sfilters it =
      show_head (some (dfmt_sfilterhead buf_len_tag)) >> show_all show_sfilter (visited it)

  -- The row of `sfilterget`, in a larger buffer.
  unfoldable pub show_long_sfilter : Sfilter → C (Unit {0})
  unfolding dmsg_line dfmt_sfilter
  show_long_sfilter r = show (some (dfmt_sfilter buf_len_sfilter r))
