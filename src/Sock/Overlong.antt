-- ===== src/Sock/Overlong.antt =====
-- duc_sock_getline and duc_sock_recv of lib/sock.c with a full buffer.
use dudlc.Shared.{◌-◌, true, false, List, [], ◌∷◌, ◌≡◌, arith, Bytes, length, length-take}
use dudlc.Sock.{Sock, Recv, arrived, buf_len_rcv, sock_disconnect, receive, next_recv, sock_recv}

-- With a full buffer a receive has no room: recv is asked for 0 bytes and gives 0, which is taken
-- for the end of the stream, and the connection is closed with the bytes that have arrived unread.
pub sock_recv_full :
    (s : Sock) (bs : Bytes) (later : List Recv)
    → s.is_open ≡ true
    → length s.buf ≡ buf_len_rcv - 1
    → s.script ≡ arrived bs ∷ later
    → sock_recv s ≡ (false, record s { is_open = false; buf = []; llen = 0; script = [] })
unfolding sock_recv next_recv receive sock_disconnect
sock_recv_full s bs later o full e = ground (arith, length-take (buf_len_rcv - length s.buf - 1) bs)
