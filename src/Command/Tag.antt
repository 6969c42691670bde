-- ===== src/Command/Tag.antt =====
-- The requests of lib/tag.c, over the `duc_open` that they call.
use dudlc.Shared.{Bool, codes, ◌++◌, ℤ, Bytes, Option}
use dudlc.Cstring.Decimal.{print_int}
use dudlc.Row.{Tag, tag_parse}
use dudlc.Proto.{M}
use dudlc.Request.{cmd_conv, cmd_int, cmd_succ}
use dudlc.Iterate.{Rows, it_newv}

module _ (opener : M Bool) where
  unfoldable pub tagget : ℤ → M (Option Tag)
  unfolding cmd_conv
  tagget id = cmd_conv opener tag_parse (codes "tagget " ++ print_int id)

  unfoldable pub tag2id : Bytes → M ℤ
  unfolding cmd_int
  tag2id name = cmd_int opener (codes "tag2id " ++ name)

  unfoldable pub taglist : M (Option (Rows Tag))
  unfolding it_newv
  taglist = it_newv opener tag_parse (codes "taglist")

  unfoldable pub tagsartist : ℤ → M (Option (Rows Tag))
  unfolding it_newv
  tagsartist aid = it_newv opener tag_parse (codes "tagsartist " ++ print_int aid)

  unfoldable pub tagadd : Bytes → M ℤ
  unfolding cmd_int
  tagadd name = cmd_int opener (codes "tagadd " ++ name)

  unfoldable pub tagsetname : ℤ → Bytes → M Bool
  unfolding cmd_succ
  tagsetname id name = cmd_succ opener (codes "tagsetname " ++ print_int id ++ codes " " ++ name)

  unfoldable pub tagsetdesc : ℤ → Bytes → M Bool
  unfolding cmd_succ
  tagsetdesc id desc = cmd_succ opener (codes "tagsetdesc " ++ print_int id ++ codes " " ++ desc)

  unfoldable pub tagdel : ℤ → M Bool
  unfolding cmd_succ
  tagdel id = cmd_succ opener (codes "tagdel " ++ print_int id)

  unfoldable pub tracktaglist : ℤ → M (Option (Rows Tag))
  unfolding it_newv
  tracktaglist tid = it_newv opener tag_parse (codes "tracktaglist " ++ print_int tid)

  unfoldable pub tracktagged : ℤ → ℤ → M ℤ
  unfolding cmd_int
  tracktagged tid id =
      cmd_int opener (codes "tracktagged " ++ print_int tid ++ codes " " ++ print_int id)

  unfoldable pub tracktagadd : ℤ → ℤ → M Bool
  unfolding cmd_succ
  tracktagadd tid id =
      cmd_succ opener (codes "tracktagadd " ++ print_int tid ++ codes " " ++ print_int id)

  unfoldable pub tracktagdel : ℤ → ℤ → M Bool
  unfolding cmd_succ
  tracktagdel tid id =
      cmd_succ opener (codes "tracktagdel " ++ print_int tid ++ codes " " ++ print_int id)
