-- ===== src/Field/Room.antt =====
-- The room that `_duc_fielddup` of lib/proto.c needs for its copy.
use dudlc.Shared.{
  ℕ, suc, ◌+◌, ◌≤◌, Bool, true, false, [], ◌∷◌, ◌++◌, ◌≡◌, arith, Bytes, length, length-append,
  Bool-cases, inl, inr, refl, ap, drop,
}
use dudlc.Cstring.{Parsed, got, refused, stray}
use dudlc.Field.{ends_field, copied, escape_after, copy_field, fielddup, field_span}

copied-le-one : (escape : Bool) (c : ℕ) → length (copied escape c) ≤ 1
unfolding copied
copied-le-one true c = ground arith
copied-le-one false c = ground arith

-- What a copy from `s` may come to, with `n` bytes in the copy before: room for what it holds, and
-- the first delimiter as its end; or no delimiter in sight.
abbrev pub IsSpanned : ℕ → Bytes → Parsed Bytes → Type 0
IsSpanned n s (got dup end) = (length dup ≤ n + field_span s) × (end ≡ drop (field_span s) s)
IsSpanned n s refused = ⊥
IsSpanned n s stray = field_span s ≡ length s

IsSpanned-here :
    (dup : Bytes) (c : ℕ) (s : Bytes)
    → ends_field c ≡ true
    → IsSpanned (length dup) (c ∷ s) (got dup (c ∷ s))
unfolding field_span
IsSpanned-here dup c s e = rw (e, field_span) (omega arith, refl)

IsSpanned-cons :
    (n m c : ℕ) (s : Bytes) (r : Parsed Bytes)
    → ends_field c ≡ false
    → m ≤ n + 1
    → IsSpanned m s r
    → IsSpanned n (c ∷ s) r
unfolding field_span
IsSpanned-cons n m c s (got dup end) e le h = rw (e, field_span) (omega (arith, h.0), h.1)
IsSpanned-cons n m c s refused e le h = h
IsSpanned-cons n m c s stray e le h = rw e (ap suc h)

copy_field-IsSpanned :
    (escape : Bool) (dup s : Bytes) → IsSpanned (length dup) s (copy_field escape dup s)
unfolding copy_field
copy_field-IsSpanned escape dup [] = unfold field_span in refl
copy_field-IsSpanned escape dup (c ∷ s) = elim (Bool-cases (ends_field c)) [
  | inl e ↦ rw (e, copy_field) (IsSpanned-here dup c s e)
  | inr e ↦
      let dup' = dup ++ copied escape c in
      let len = length-append dup (copied escape c) in
      let rest = copy_field-IsSpanned (escape_after escape c) dup' s in
      rw (e, copy_field)
        (IsSpanned-cons (length dup) (length dup') c s _ e
          (omega (arith, len, copied-le-one escape c)) rest)
]

-- `_duc_fielddup` allocates 1 + strcspn( s, "\t" ) bytes. The copy without its 0 has at most
-- strcspn( s, "\t" ) bytes, for every input, and `*end` is the first tab or 0; only where neither
-- stands in the input does the loop read behind it.
pub fielddup-IsSpanned : (s : Bytes) → IsSpanned 0 s (fielddup s)
unfolding fielddup
fielddup-IsSpanned s = copy_field-IsSpanned false [] s
