-- ===== src/Tests/Sessions.antt =====
-- Sessions against a scripted server.
use dudlc.Shared.{◌≡◌, refl, pos, codes}
use dudlc.Sock
use dudlc.Event.{reaction}
use dudlc.Cstring
use dudlc.Session.{Dudlc, emit, bcast_line}
use dudlc.Session.Run.{Run, done}
use dudlc.Proto.{rlast}
use dudlc.Request.{cmd_int}
use dudlc.Request
use dudlc.Open.{duc_open}
use dudlc.Tests.Samples.{fresh}

abbrev value : {A : Type 0} → Run Dudlc A → A → A
value (done a p) d = a
value _ d = d

-- The login, the broadcast in the middle and the number that comes in two pieces.
count : value (cmd_int duc_open (codes "trackcount") fresh) (pos 0) ≡ pos 12345
unfolding cmd_int duc_open rlast Sock.sock_connect Sock.sock_getline Sock.sock_recv
    dudlc.Sock.Progress.rounds Cstring.c_string Cstring.strtol Request.cmd_auth Sock.sock_send emit
    bcast_line reaction
count = refl
