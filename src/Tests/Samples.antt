-- ===== src/Tests/Samples.antt =====
-- Data that the tests and the examples share.
use dudlc.Shared.{
  ℕ, zero, suc, true, false, none, some, List, [], ◌∷◌, ◌≡◌, refl, arith, pos, negsuc, codes, Bytes,
  length,
}
use dudlc.Sock.{Sock, Recv, arrived, unresolved, accepted, line_span, is_break}
use dudlc.Session.{Dudlc}
use dudlc.Row.{Artist, User, Track, Tag, Sfilter, Queue, History, Client}

-- The server greets, takes the login, and answers in pieces, with a broadcast in between.
abbrev pub talk : List Recv
talk =
    arrived (codes "220 dudld 1.2\n")
    ∷ arrived (codes "320 user ok\n")
    ∷ arrived (codes "221 pass ok\n")
    ∷ arrived (codes "641 stopped\n27")
    ∷ arrived (codes "0 12345\n")
    ∷ []

abbrev pub idle_sock : Sock
idle_sock = record {
  host = codes "host";
  port = 4445;
  is_open = false;
  buf = [];
  llen = 0;
  script = [];
  connects = unresolved ∷ accepted talk ∷ [];
  sendings = [];
  sent = [];
}

abbrev pub fresh : Dudlc
fresh = record {
  ev = some (λ e. true);
  user = some (codes "me");
  pass = some (codes "secret");
  con = record idle_sock { connects = accepted talk ∷ [] };
  vmajor = pos 77;
  vminor = pos 0;
  inreply = false;
  code = [];
  line = none;
  called = [];
}

-- A connection with half a line in the buffer, and the other half to come.
abbrev pub half_read : Sock
half_read = record idle_sock {
  is_open = true;
  buf = codes "641 stopped\n27";
  llen = 12;
  script = arrived (codes "0 12345\n") ∷ [];
}

abbrev pub connected_session : Dudlc
connected_session = record fresh { con = half_read }

abbrev pub awaiting : Dudlc
awaiting = record connected_session { inreply = true }

-- n letters.
abbrev pub letters : ℕ → Bytes
letters zero = []
letters (suc n) = b'x' ∷ letters n

pub length-letters : (n : ℕ) → length (letters n) ≡ n
length-letters zero = refl
length-letters (suc n) = ground (arith, length-letters n)

pub line_span-letters : (n : ℕ) → line_span (letters n) ≡ n
unfolding line_span is_break
line_span-letters zero = refl
line_span-letters (suc n) = ground (arith, line_span-letters n)

-- A buffer of one line, too long for it.
abbrev pub full_sock : Sock
full_sock = record idle_sock {
  is_open = true;
  buf = letters 2047;
  script = arrived (codes "y\n") ∷ [];
}

abbrev pub some_artist : Artist
some_artist = record { id = pos 7; artist = codes "Low" }

abbrev pub some_track : Track
some_track = record {
  id = pos 31;
  album = record { id = pos 5; album = codes "a\tb\\"; artist = some_artist; year = negsuc 0 };
  albumnr = pos 2;
  title = codes "Title";
  artist = some_artist;
  duration = pos 215;
}

abbrev pub some_user : User
some_user = record { id = pos 1; name = codes "me"; right = pos 4 }

abbrev pub some_queue : Queue
some_queue = record { id = pos 12; queued = pos 99; user = some_user; track = some_track }

abbrev pub some_history : History
some_history = record { played = pos 1200; track = some_track; user = some_user }

abbrev pub some_client : Client
some_client = record { id = pos 3; user = some_user; addr = codes "10.0.0.1" }

abbrev pub some_tag : Tag
some_tag = record { id = pos 8; name = codes "calm"; desc = codes "a\tb" }

abbrev pub some_sfilter : Sfilter
some_sfilter = record { id = pos 9; name = codes "all"; filter = codes "true" }
