-- ===== src/Tests/Commands.antt =====
-- Lines that are run as commands.
use dudlc.Shared.{
  Bool, ◌≡◌, refl, pos, negsuc, codes, ◌++◌, ◌∷◌, [], some, none, Bytes, ℤ, true, false, List, suc,
  length, arith,
}
use dudlc.Cmd.Console.{Console, Libc}
use dudlc.Cmd.Line.{duc_cmd}
use dudlc.Session.Run.{Run, done, fault, wrong_type, null_pointer}
use dudlc.Session.{Dudlc}
use dudlc.Sock.{is_break}
use dudlc.Cstring.{is_space}
use dudlc.Cstring.Decimal.{print_int}
use dudlc.Request.{vsend}
use dudlc.Open.{duc_open}
use dudlc.Cmd.Line.Count.{Shows, duc_cmd-trackcount}
use dudlc.Cmd.Line.Types.{userdel_wrong_type}
use dudlc.Cmd.Run.{text}
use dudlc.Cmd.Run.Raw.{run_raw, format_of}
use dudlc.Cmd.Run.Raw.Faults.{raw_format, raw_unsent}
use mathlib.Core.List.{Memᴰ}
use dudlc.Cstring.{is_alnum}
use dudlc.Cmd.Value.{val_rgtype, rgtypes}
use dudlc.Cmd.Value.Words.{a_rgtype, same_word, enums_read}
use dudlc.Tests.Protocol.{asking, asking-Brings, good-IsCode, one_line-IsText}
use dudlc.Cmd.Console.Ends.{Settles}
use dudlc.Cmd.Settle.Line.{duc_cmd-Settles}
use dudlc.Cmd.Idlist.{Idlist, idl_addlist}
use dudlc.Cmd.Idlist.Ranges.{Piece, one, span, IsPiece, print_pieces, idl_addlist-print_pieces}
use dudlc.Cmd.Run.{idl_iterate}
use dudlc.Cmd.Run.Track.{each_trackget}
use dudlc.Cmd.Run.Walk.{each_of, idl_iterate-each_of}
use dudlc.Cmd.Table.Top.{cmds_top}
use dudlc.Cmd.Complete.{offer_start, matching}
use dudlc.Cmd.Complete.Offers.{offers, words, lst_cmd-words}
use dudlc.Tests.Samples.{fresh, idle_sock}

abbrev libc : Libc
libc = record {
  local_time = λ n. codes "12:00:00";
  local_stamp = λ n. codes "2008-01-01 12:00:00";
  strtod = λ s. (0, s);
  print_f = λ x. codes "0.000000";
  double_of_int = λ n. 0;
  below_zero = λ x. false;
  int_of_double = λ x. some (pos 0);
}

abbrev console : Console
console = record { dudl = fresh; look = record { bf = none; nf = none }; msg_cb = true; shown = [] }

abbrev shown_by : Run Console ℤ → List Bytes
shown_by (done a s) = s.shown
shown_by _ = []

-- The whole way of a line, from the login to the text that is shown.
count :
    shown_by (duc_cmd libc (codes "trackcount" ++ 0 ∷ []) console)
    ≡ codes "available tracks: 12345\n" ∷ []
unfolding duc_cmd dudlc.Cstring.is_alpha dudlc.Sock.sock_connect dudlc.Proto.rlast
    dudlc.Sock.sock_getline dudlc.Sock.sock_recv dudlc.Sock.Progress.rounds dudlc.Cstring.c_string
    dudlc.Cstring.strtol dudlc.Request.cmd_auth dudlc.Sock.sock_send dudlc.Session.emit
    dudlc.Session.bcast_line dudlc.Event.reaction dudlc.Cstring.Decimal.print_int
count = refl

duc_cmd-Settles_example : Settles (duc_cmd libc (codes "trackcount" ++ 0 ∷ []) console)
duc_cmd-Settles_example = duc_cmd-Settles libc (codes "trackcount" ++ 0 ∷ []) console refl

abbrev walked : Idlist
walked = record { ids = pos 3 ∷ negsuc 0 ∷ pos 4 ∷ []; cur = 2 }

idl_iterate-each_of_example :
    idl_iterate walked (each_trackget libc) console
    ≡ each_of walked.ids (each_trackget libc) console
idl_iterate-each_of_example = idl_iterate-each_of walked (each_trackget libc) console

lst_cmd-words_example :
    offers (suc (length (words cmds_top))) offer_start (codes "tra")
    ≡ some (matching (codes "tra") (words cmds_top))
lst_cmd-words_example = lst_cmd-words (codes "tra")

abbrev pieces : List Piece
pieces = one 7 ∷ span 3 5 ∷ []

idl_addlist-print_pieces_example :
    idl_addlist walked (codes "7,3-5" ++ 0 ∷ []) fresh
    ≡ done
        (record {
          added = 4;
          idl = record walked {
            ids = pos 3 ∷ negsuc 0 ∷ pos 4 ∷ pos 7 ∷ pos 3 ∷ pos 4 ∷ pos 5 ∷ [];
          };
          end = 0 ∷ [];
        })
        fresh
unfolding IsPiece print_pieces dudlc.Cstring.Decimal.print_int dudlc.Cmd.Idlist.Ranges.all_ids
idl_addlist-print_pieces_example =
    idl_addlist-print_pieces walked pieces fresh (omega arith, ((omega arith, omega arith), tt))
      (omega arith)

abbrev asked : Console
asked = record console { dudl = asking (codes "220 12") (codes "345\n") }

duc_cmd-trackcount_example :
    Shows asked
      (duc_cmd libc (codes "  " ++ (codes "trackcount" ++ 0 ∷ [])) asked)
      (codes "trackcount")
      (codes "available tracks: " ++ print_int (pos 12345) ++ codes "\n")
      []
unfolding is_space is_break print_int
duc_cmd-trackcount_example =
    duc_cmd-trackcount libc (codes "  ") asked b'2' b'0' 12345 [] (refl, (refl, tt)) refl
      (record { idle = refl; open_now = refl; accepts = refl }) (omega arith) good-IsCode
      (one_line-IsText (codes "12345") refl (omega arith)) tt
      (asking-Brings (codes "220 12") (codes "345\n") (omega arith) (omega arith))

userdel_wrong_type_example :
    (duc_cmd libc (codes "userdel 5" ++ 0 ∷ []) console ≡ fault wrong_type)
    × (duc_cmd libc (codes "userget 5" ++ 0 ∷ []) console ≡ fault wrong_type)
unfolding print_int
userdel_wrong_type_example = userdel_wrong_type libc 5 console (omega arith)

raw_format_example : run_raw libc (text (codes "f %s" ++ 0 ∷ []) ∷ []) asked ≡ fault wrong_type
unfolding duc_open
raw_format_example =
    raw_format libc (codes "f ") b's' (0 ∷ []) asked asked.dudl (refl, (refl, tt)) refl refl refl

-- No attempt to connect succeeds.
abbrev unreachable : Console
unreachable = record console { dudl = record fresh { con = record idle_sock { connects = [] } } }

abbrev state_of : Run Dudlc Bool → Dudlc
state_of (done b q) = q
state_of _ = fresh

raw_unsent_example : run_raw libc (text (codes "status") ∷ []) unreachable ≡ fault null_pointer
unfolding format_of vsend duc_open dudlc.Sock.sock_connect
raw_unsent_example =
    raw_unsent libc (codes "status") (codes "status")
      (state_of (vsend duc_open (codes "status") unreachable.dudl)) unreachable refl refl refl refl
      refl

enums_read_example : val_rgtype (codes "TrackPeak" ++ b' ' ∷ 0 ∷ []) ≡ (pos 2, b' ' ∷ 0 ∷ [])
unfolding same_word rgtypes is_alnum
enums_read_example =
    enums_read a_rgtype (codes "trackpeak") (codes "TrackPeak") (pos 2) b' ' (0 ∷ [])
      (Memᴰ.tail (Memᴰ.head refl)) refl refl
