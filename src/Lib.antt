-- ===== src/Lib.antt =====
-- dudlc: the client library of the dudl jukebox daemon (lib/), which connects to the daemon, logs
-- in, sends requests as lines of text and reads the replies, the rows in them and the broadcasts
-- that come in between; and libdudlccmd (cmd/), which runs lines of text as commands over it.
--
-- The parts, from the bytes up, and the files that model them:
--   * Cstring: isspace, isdigit, strtol, atoi and printf's %d and %u, as C's standard gives them. A
--     `char *` is the list of the bytes from it on, the terminating 0 and what follows it included.
--   * Sock: lib/sock.c and lib/dudlc/sock.h. `Sock` is `t_duc_sock`; what the system calls will come
--     to (`connects`, `script`, `sendings`) and what was sent (`sent`) are further fields of it.
--     `sock_getline` is duc_sock_getline, `sock_recv` duc_sock_recv, `sock_send` duc_sock_send,
--     `sock_connect` duc_sock_connect. `Sock.Progress.rounds` counts what is left to read.
--   * Field: _duc_fielddup of lib/proto.c. Row: the structs of lib/dudlc/*.h and the _duc_*_parse
--     functions of lib/*.c, with a printer of the same format in Row/Print.
--   * Event: lib/event.c and the _duc_bcast_* functions: the handler that a broadcast calls.
--   * Session: lib/dudlc/session.h, duc_new, duc_setauth, duc_close and duc_setevents. `Dudlc` is
--     `dudlc`, and `called` lists the calls of handlers. Session.Run has the runs of the code on a
--     session: a result, a fault (behaviour that C does not define), or rounds that have run out.
--   * Proto: _duc_rnext and _duc_rlast of lib/proto.c. Request: _duc_vsend and the _duc_cmd family of
--     lib/proto.c and duc_cmd_auth. Open: duc_open of lib/session.c and duc_poll of lib/proto.c.
--   * Iterate: _duc_it_newv of lib/iterate.c and the walk through its list. Command: the duc_cmd_*
--     functions of lib/*.c.
--   * Cmd: cmd/, the command line over the library. Console: the state (`Console`: the session, the
--     globals of cmd/formatter.c and cmd/msg.c, and what the callback of cmd/msg.c was given) and
--     dmsg_msg. Idlist: cmd/idlist.c. Value: cmd/parseval.c, Value/Lists where the server is asked.
--     Format: cmd/formatter.c. Dump: the dmsg_dump_* functions of cmd/msg.c. Run: the functions of
--     cmd/command.c that run a command, `run_x` for `CMD(c_x)` and `each_x` for `i_x`. Table: the two
--     tables of cmd/command.c, cmd_find, cmd_usage and the calls through function pointers. Line:
--     cmd_arg_parse and duc_cmd. Complete: duc_cgen_find, lst_cmd and lst_rcmd.
--   * Shared: lists, tests and integers over the native numbers. Tests: runs and examples.
--
-- A request goes down from Command through Request.vsend, which opens the session first, to
-- `sock_send`; the reply comes up from `sock_recv` and `sock_getline` through `rnext`, which hands
-- broadcasts to Event, to the converter of Row. duc_open itself sends the requests of the login, so
-- the requests take the duc_open that they call as a parameter: duc_open's own find the connection
-- open.
-- A line goes through `duc_cmd` of Line: its first word is looked up in the table, the functions of
-- Value read the arguments, `call` runs the command, which makes requests of Command and shows rows
-- by Dump and Format.
--
-- Bounds: the buffers have 2048 bytes, an int 32 bits and a long 64. The loops of Proto, Iterate and
-- Open take as many rounds as `rounds` counts, two for each byte that is still to come and one for
-- each that is in the buffer: a round takes a line out of the buffer or a piece out of the network,
-- or it is the last one. The loops over a text of cmd/parseval.c and cmd/idlist.c take as many rounds
-- as it has bytes, and one; idl_iterate one more than the list has ids.
--
-- Not modelled: failing malloc, realloc and strdup; floating point, of which only the calls of strtod,
-- printf and the conversions to and from int are there, as parameters (`Libc`), as is the local time;
-- the output to stderr; handlers that use the session themselves; the daemon, of which no code is in
-- the repository; the clients (cli/, ir/, gtk/), which are terminal, LIRC and GTK input and output
-- around cmd/.
pub mod Shared
pub mod Cstring
pub mod Field
pub mod Row
pub mod Sock
pub mod Event
pub mod Session
pub mod Proto
pub mod Request
pub mod Open
pub mod Iterate
pub mod Command
pub mod Cmd
pub mod Tests
