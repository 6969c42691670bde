-- ===== src/Command/Queue/Ends.antt =====
-- How `duc_cmd_queuealbum` of lib/queue.c ends.
use dudlc.Shared.{
  codes, ◌++◌, ℤ, Option, none, some, Bool, true, false, List, [], ◌∷◌, ◌≡◌, negsuc, is_negative,
  if◌then◌else◌,
}
use dudlc.Cstring.Decimal.{print_int}
use dudlc.Row.{Track, track_parse}
use dudlc.Session.{Dudlc}
use dudlc.Session.Run.{Ends, returns, Ends-bind, Ends-map, return}
use dudlc.Iterate.{Rows, visited}
use dudlc.Iterate.Whole.{Idle, it_newv-Idle}
use dudlc.Open.{duc_open}
use dudlc.Open.Requests.{cmd_int-duc_open}
use dudlc.Command.Track.{tracksalbum}
use dudlc.Command.Queue.{queueadd, queue_tracks, queue_rows, queuealbum}

queueadd-Idle : (id : ℤ) (p : Dudlc) → p.inreply ≡ false → Ends Idle (queueadd duc_open id p)
unfolding queueadd
queueadd-Idle id p i =
    Ends-map (cmd_int-duc_open p i (codes "queueadd " ++ print_int id)) (λ n q h. h.0)

added :
    (ts : List Track)
    → ((q : Dudlc) → q.inreply ≡ false → Ends Idle (queue_tracks duc_open ts q))
    → (b : Bool) (q : Dudlc) → q.inreply ≡ false
    → Ends Idle ((if b then return (negsuc 0) else queue_tracks duc_open ts) q)
added ts later true q h = returns h
added ts later false q h = later q h

queue_tracks-Idle :
    (ts : List Track) (p : Dudlc) → p.inreply ≡ false → Ends Idle (queue_tracks duc_open ts p)
unfolding queue_tracks
queue_tracks-Idle [] p i = returns i
queue_tracks-Idle (t ∷ ts) p i =
    Ends-bind (queueadd duc_open t.id) _ p (queueadd-Idle t.id p i)
      λ n q h. added ts (queue_tracks-Idle ts) (is_negative n) q h

queue_rows-Idle :
    (r : Option (Rows Track)) (p : Dudlc) → p.inreply ≡ false → Ends Idle (queue_rows duc_open r p)
unfolding queue_rows
queue_rows-Idle none p i = returns i
queue_rows-Idle (some rows) p i = queue_tracks-Idle (visited rows) p i

-- From a session that awaits no reply, `duc_cmd_queuealbum` ends, whatever the network does and the
-- server sends: by a fault that is no read through NULL, or it returns, with no reply awaited.
pub queuealbum-Idle :
    (id : ℤ) (p : Dudlc) → p.inreply ≡ false → Ends Idle (queuealbum duc_open id p)
unfolding queuealbum tracksalbum
queuealbum-Idle id p i =
    Ends-bind (tracksalbum duc_open id) (queue_rows duc_open) p
      (it_newv-Idle track_parse p i (codes "tracksalbum " ++ print_int id)) queue_rows-Idle
