-- ===== src/Open/Requests.antt =====
-- Requests over the code's own `duc_open`: what `_duc_cmd_succ`, `_duc_cmd_int` and `_duc_cmd_conv`
-- of lib/proto.c leave behind for a caller of the library.
use dudlc.Shared.{false, ◌≡◌, Bytes}
use dudlc.Cstring.{Parser}
use dudlc.Session.{Dudlc}
use dudlc.Session.Run.{Ends}
use dudlc.Request.{cmd_succ, cmd_int, cmd_conv}
use dudlc.Request.Idle.{
  Succeeded, Counted, Returned, cmd_succ-Succeeded, cmd_int-Counted, cmd_conv-Returned,
}
use dudlc.Open.{duc_open}
use dudlc.Open.Ready.{duc_open-Opened}

abbrev Any : Dudlc → Type 0
Any p = Unit {0}

-- From a session that awaits no reply, whether connected or not, `_duc_cmd_succ` ends whatever the
-- network does and the server sends: by a fault that is no read through NULL, or it returns, with no
-- reply awaited; where it returns 0 the connection is open and the reply's code begins with 2 or 3.
pub cmd_succ-duc_open :
    (p : Dudlc) → p.inreply ≡ false → (text : Bytes) → Ends Succeeded (cmd_succ duc_open text p)
cmd_succ-duc_open p i text =
    cmd_succ-Succeeded duc_open Any (λ q h _. duc_open-Opened q h) p i tt text

-- From a session that awaits no reply, `_duc_cmd_int` ends whatever the network does and the server
-- sends: by a fault that is no read through NULL, or it returns, with no reply awaited, and -1 unless
-- the reply's code begins with 2.
pub cmd_int-duc_open :
    (p : Dudlc) → p.inreply ≡ false → (text : Bytes) → Ends Counted (cmd_int duc_open text p)
cmd_int-duc_open p i text = cmd_int-Counted duc_open Any (λ q h _. duc_open-Opened q h) p i tt text

-- From a session that awaits no reply, `_duc_cmd_conv` ends with any converter, whatever the network
-- does and the server sends: by a fault that is no read through NULL, or it returns, with no reply
-- awaited; where it returns a row the connection is open and the reply's code begins with 2.
pub cmd_conv-duc_open :
    {A : Type 0} (conv : Parser A) (p : Dudlc)
    → p.inreply ≡ false
    → (text : Bytes) → Ends (Returned {A = A}) (cmd_conv duc_open conv text p)
cmd_conv-duc_open conv p i text =
    cmd_conv-Returned duc_open Any (λ q h _. duc_open-Opened q h) p i tt text conv
