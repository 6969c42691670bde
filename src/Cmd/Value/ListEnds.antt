-- ===== src/Cmd/Value/ListEnds.antt =====
-- How the functions end that read lists and names with the help of the server.
use dudlc.Shared.{
  ℕ, zero, suc, ◌<◌, Bool-cases, inl, inr, none, arith, ◌==◌, leb, ℤ, negsuc, is_negative, Bytes,
  length, take, drop, codes, ◌++◌,
}
use dudlc.Cstring.{Parsed, got, refused, stray, strtoul}
use dudlc.Cstring.Shorter.{Shorter, strtoul-Shorter}
use dudlc.Event.{char_at}
use dudlc.Session.Run.{returns, faults}
use dudlc.Proto.{M}
use dudlc.Open.{duc_open}
use dudlc.Command.Tag.{tag2id}
use dudlc.Command.Sfilter.{sfilter2id}
use dudlc.Cmd.Idlist.{Idlist, is_countable, idl_new, idl_add}
use dudlc.Cmd.Value.{same_place, val_user, val_uint}
use dudlc.Cmd.Value.Lists.{
  addclist_loop, idl_addclist, val_userlist, word_span, named_id, id_or_name, val_tag, val_taglist,
  val_sfilter,
}
use dudlc.Cmd.Value.Ends.{
  Idling, Whatever, Within, bind-Idling, return-Idling, if-Idling, overflow-Idling, int-Idling,
  drop-length, strtoul-Idling,
}

addclist_loop-Idling :
    (n : ℕ) (list : Bytes) (conv : Bytes → M (ℤ × Bytes)) (added : ℕ) (idl : Idlist) (ntok : Bytes)
    → ((s : Bytes) → Idling (Within s) (conv s))
    → length ntok < n
    → Idling Whatever (addclist_loop n list conv added idl ntok)
unfolding addclist_loop same_place
addclist_loop-Idling zero list conv added idl ntok h fits = absurd (omega arith)
addclist_loop-Idling (suc n) list conv added idl ntok h fits = bind-Idling (h ntok) λ r within.
    elim (Bool-cases (length ntok == length r.1)) [
      | inl e ↦ rw e (return-Idling _ tt)
      | inr e ↦ rw e (
          if-Idling (char_at r.1 0 == b',')
            (if-Idling (is_countable (suc added))
              (addclist_loop-Idling n list conv (suc added) (idl_add idl r.0) (drop 1 r.1) h
                (let d = drop-length 1 r.1 in ground (arith, d, within, fits)))
              overflow-Idling)
            (if-Idling (is_countable (suc added)) (return-Idling _ tt) overflow-Idling))
    ]

pub idl_addclist-Idling :
    (idl : Idlist) (list : Bytes) (conv : Bytes → M (ℤ × Bytes))
    → ((s : Bytes) → Idling (Within s) (conv s))
    → Idling Whatever (idl_addclist idl list conv)
unfolding idl_addclist
idl_addclist-Idling idl list conv h =
    addclist_loop-Idling (suc (length list)) list conv 0 idl list h (omega arith)

pub val_userlist-Idling : (s : Bytes) → Idling Whatever (val_userlist s)
unfolding val_userlist val_user val_uint
val_userlist-Idling s =
    bind-Idling (idl_addclist-Idling (idl_new none) s val_user strtoul-Idling)
      (λ r h. return-Idling (r.idl, r.end) tt)

-- The library's lookup gives an int.
named_id-Idling :
    (lookup : Bytes → M ℤ) (s : Bytes)
    → ((name : Bytes) → Idling Whatever (lookup name))
    → Idling (Within s) (named_id lookup s)
unfolding named_id
named_id-Idling lookup s h =
    if-Idling (leb 10 (word_span s)) (return-Idling (negsuc 0, s) (omega arith)) (
      bind-Idling (h (take (word_span s) s)) (λ id k.
        if-Idling (is_negative id) (return-Idling (negsuc 0, s) (omega arith))
          (return-Idling (id, drop (word_span s) s) (drop-length (word_span s) s))))

id_or_name-Idling :
    (lookup : Bytes → M ℤ) (s : Bytes) (r : Parsed ℤ)
    → Shorter s r
    → ((name : Bytes) → Idling Whatever (lookup name))
    → Idling (Within s) (id_or_name lookup s r)
unfolding id_or_name
id_or_name-Idling lookup s (got id e) h k q i = returns (i, omega (arith, h))
id_or_name-Idling lookup s refused h k q i = named_id-Idling lookup s k q i
id_or_name-Idling lookup s stray h k q i = faults (cc)

pub val_tag-Idling : (s : Bytes) → Idling (Within s) (val_tag s)
unfolding val_tag tag2id
val_tag-Idling s =
    id_or_name-Idling (tag2id duc_open) s (strtoul s) (strtoul-Shorter s)
      (λ name. int-Idling (codes "tag2id " ++ name))

pub val_sfilter-Idling : (s : Bytes) → Idling (Within s) (val_sfilter s)
unfolding val_sfilter sfilter2id
val_sfilter-Idling s =
    id_or_name-Idling (sfilter2id duc_open) s (strtoul s) (strtoul-Shorter s)
      (λ name. int-Idling (codes "sfilter2id " ++ name))

pub val_taglist-Idling : (s : Bytes) → Idling Whatever (val_taglist s)
unfolding val_taglist
val_taglist-Idling s =
    bind-Idling (idl_addclist-Idling (idl_new none) s val_tag val_tag-Idling)
      (λ r h. return-Idling (r.idl, r.end) tt)
