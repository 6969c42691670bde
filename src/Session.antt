-- ===== src/Session.antt =====
-- lib/dudlc/session.h and the parts of lib/session.c and lib/event.c that need no reply: the state
-- of a session, `duc_new`, `duc_setauth`, `duc_close`, `duc_setevents` and the calls of handlers.
pub mod Run
use dudlc.Shared.{
  ℕ, Bool, true, false, Option, none, some, List, [], ◌∷◌, ◌++◌, if◌then◌else◌, ℤ, pos, Bytes,
}
use dudlc.Sock.{Sock, Attempt, Sending, sock_open, sock_disconnect}
use dudlc.Event.{Event, disconnect, Reaction, calls, silent, overread, reaction}

-- The entries of a `duc_events` that are not NULL, by the event that calls them.
abbrev pub Handlers : Type 0
Handlers = Event → Bool

-- `code` and `line` are the C strings, `[]` and `none` where `*code` is 0 and `line` is NULL; a line
-- is seen as it was when it was read. `called` lists the calls of handlers, which are taken not to
-- use the session themselves.
pub record Dudlc : Type 0 where
  pub ev : Option Handlers
  pub user : Option Bytes
  pub pass : Option Bytes
  pub con : Sock
  pub vmajor : ℤ
  pub vminor : ℤ
  pub inreply : Bool
  pub code : Bytes
  pub line : Option Bytes
  pub called : List Event

-- duc_new; `garbage` is what malloc leaves in `vmajor`, which is not initialised.
unfoldable pub duc_new : Bytes → ℕ → List Attempt → List Sending → ℤ → Dudlc
unfolding sock_open
duc_new hostname port connects sendings garbage = record {
  ev = none;
  user = none;
  pass = none;
  con = sock_open hostname port connects sendings;
  vmajor = garbage;
  vminor = pos 0;
  inreply = false;
  code = [];
  line = none;
  called = [];
}

-- duc_setevents returns the table that was set before, duc_getevents the one that is set.
unfoldable pub setevents : Option Handlers → Dudlc → Option Handlers × Dudlc
setevents e c = (c.ev, record c { ev = e })

unfoldable pub setauth : Bytes → Bytes → Dudlc → Dudlc
setauth user pass c = record c { user = some user; pass = some pass }

-- _MSC_EVENT
unfoldable pub emit_to : Option Handlers → Event → Dudlc → Dudlc
emit_to none e p = p
emit_to (some handled) e p = if handled e then record p { called = p.called ++ e ∷ [] } else p

unfoldable pub emit : Event → Dudlc → Dudlc
unfolding emit_to
emit e p = emit_to p.ev e p

-- duc_connected
abbrev pub connected : Dudlc → Bool
connected p = p.con.is_open

unfoldable pub duc_close : Dudlc → Dudlc
unfolding emit
duc_close p =
    emit disconnect
      (record p { line = none; inreply = false; code = []; con = sock_disconnect p.con })

-- What a reaction does to the session; `none` is a read behind the stored bytes.
unfoldable pub react : Reaction → Dudlc → Option Dudlc
unfolding emit
react (calls e) p = some (emit e p)
react silent p = some p
react overread p = none

-- _duc_bcast
unfoldable pub bcast_line : Bytes → Dudlc → Option Dudlc
unfolding react
bcast_line l p = react (reaction l) p
