-- ===== src/Cmd/Idlist/Ranges.antt =====
-- cmd/idlist.c: the texts that `idl_addlist` reads, and what it adds for them.
use dudlc.Shared.{
  ℕ, zero, suc, ◌+◌, ◌-◌, ◌^◌, ◌<◌, ◌≤◌, false, List, [], ◌∷◌, ◌++◌, append_assoc, append-nil, All,
  length-append, true, ◌≡◌, refl, sym, ◌∙◌, ap, arith, leb_ℤ, ◌==◌, ℤ, pos, next_int, int_gap,
  Bytes, length,
}
use dudlc.Cstring.{got, is_digit}
use dudlc.Cstring.Decimal.{print_int}
use dudlc.Cstring.Scan.{strtoul-print_int, print_int-digit}
use dudlc.Session.{Dudlc}
use dudlc.Session.Run.{done}
use dudlc.Cmd.Idlist.{
  Idlist, Added, Later, is_countable, idl_add, int_max, add_range, skip_comma, range_to, item,
  addlist_loop, idl_addlist,
}

-- An item of the text: an id, or two of which the second is the larger.
pub data Piece : Type 0 where
  one : ℕ → Piece
  span : ℕ → ℕ → Piece

-- The ids fit an int, and the loop over a span does not count beyond one.
unfoldable pub IsPiece : Piece → Type 0
IsPiece (one n) = n < 2 ^ 31
IsPiece (span a b) = (a < b) × (b < 2 ^ 31 - 1)

unfoldable pub print_piece : Piece → Bytes
print_piece (one n) = print_int (pos n)
print_piece (span a b) = print_int (pos a) ++ b'-' ∷ print_int (pos b)

-- `k` ids from `a` on
unfoldable pub ids_from : ℕ → ℕ → List ℤ
ids_from zero a = []
ids_from (suc k) a = pos a ∷ ids_from k (suc a)

unfoldable pub piece_ids : Piece → List ℤ
unfolding ids_from
piece_ids (one n) = pos n ∷ []
piece_ids (span a b) = ids_from (suc (b - a)) a

unfoldable pub all_ids : List Piece → List ℤ
unfolding piece_ids
all_ids [] = []
all_ids (p ∷ ps) = piece_ids p ++ all_ids ps

-- The items with commas between them, and the 0 behind them.
unfoldable pub print_pieces : List Piece → Bytes
unfolding print_piece
print_pieces [] = 0 ∷ []
print_pieces (p ∷ []) = print_piece p ++ 0 ∷ []
print_pieces (p ∷ q ∷ ps) = print_piece p ++ b',' ∷ print_pieces (q ∷ ps)

add_range-ids :
    (k a : ℕ) (idl : Idlist)
    → add_range k (pos a) idl ≡ record idl { ids = idl.ids ++ ids_from k a }
unfolding add_range ids_from idl_add next_int
add_range-ids zero a idl = rw (append-nil idl.ids) refl
add_range-ids (suc k) a idl =
    add_range-ids k (suc a) (record idl { ids = idl.ids ++ pos a ∷ [] })
    ∙ ap (λ l. record idl { ids = l }) (append_assoc idl.ids (pos a ∷ []) (ids_from k (suc a)))

ids_from-length : (k a : ℕ) → length (ids_from k a) ≡ k
unfolding ids_from
ids_from-length zero a = refl
ids_from-length (suc k) a = let h = ids_from-length k (suc a) in omega (arith, h)

-- Behind a number and its `-`
range_to-span :
    (list : Bytes) (a b : ℕ) (e : Bytes) (again : Later) (added : ℕ) (idl : Idlist) (q : Dudlc)
    → a < b
    → b < 2 ^ 31 - 1
    → added + suc (b - a) < 2 ^ 31
    → range_to list (pos a) (got (pos b) e) again added idl q
      ≡ again
          (added + suc (b - a))
          (record idl { ids = idl.ids ++ ids_from (suc (b - a)) a })
          (skip_comma e)
          q
unfolding range_to int_gap
range_to-span list a b e again added idl q less fits few =
    let above : leb_ℤ (pos b) (pos a) ≡ false = ground arith in
    let small : leb_ℤ int_max (pos b) ≡ false = ground arith in
    let gap : int_gap (pos a) (pos b) ≡ b - a = omega arith in
    let count : is_countable (added + suc (b - a)) ≡ true = ground arith in
    rw (above, small, gap, count, add_range-ids (suc (b - a)) a idl) refl

-- One round, at an item with `d` behind it.
piece_round :
    (n : ℕ) (list : Bytes) (added : ℕ) (idl : Idlist) (p : Piece) (d : ℕ) (rest : Bytes) (q : Dudlc)
    → IsPiece p
    → is_digit d ≡ false
    → (d == b'-') ≡ false
    → added + length (piece_ids p) < 2 ^ 31
    → addlist_loop (suc n) list added idl (print_piece p ++ d ∷ rest) q
      ≡ addlist_loop n list
          (added + length (piece_ids p))
          (record idl { ids = idl.ids ++ piece_ids p })
          (skip_comma (d ∷ rest))
          q
unfolding addlist_loop print_piece IsPiece piece_ids item idl_add is_digit ids_from
piece_round n list added idl (one k) d rest q h digit dash few =
    let count : is_countable (suc added) ≡ true = ground arith in
    rw (print_int-digit k (d ∷ rest), strtoul-print_int k d rest h digit, dash, count)
      (ap
        (λ m.
          addlist_loop n list m (record idl { ids = idl.ids ++ pos k ∷ [] }) (skip_comma (d ∷ rest))
            q)
        (omega arith))
piece_round n list added idl (span a b) d rest q (less, fits) digit dash few =
    let size = ids_from-length (suc (b - a)) a in
    let far = b'-' ∷ print_int (pos b) ++ d ∷ rest in
    rw
      (
        append_assoc (print_int (pos a)) (b'-' ∷ print_int (pos b)) (d ∷ rest),
        print_int-digit a far,
        strtoul-print_int a b'-' (print_int (pos b) ++ d ∷ rest) (omega (arith, less, fits)) refl,
        strtoul-print_int b d rest (omega (arith, fits)) digit,
      )
      (range_to-span list a b (d ∷ rest) (addlist_loop n list) added idl q less fits
          (omega (arith, size, few))
        ∙ ap
            (λ m.
              addlist_loop n list (added + m)
                (record idl { ids = idl.ids ++ ids_from (suc (b - a)) a }) (skip_comma (d ∷ rest))
                q)
            (sym (ids_from-length (suc (b - a)) a)))

added_all : ℕ → Idlist → List Piece → Added
added_all added idl ps = record {
  added = added + length (all_ids ps);
  idl = record idl { ids = idl.ids ++ all_ids ps };
  end = 0 ∷ [];
}

behind_piece :
    (added : ℕ) (idl : Idlist) (p : Piece) (ps : List Piece)
    → added_all (added + length (piece_ids p)) (record idl { ids = idl.ids ++ piece_ids p }) ps
      ≡ added_all added idl (p ∷ ps)
unfolding added_all all_ids
behind_piece added idl p ps =
    rw (append_assoc idl.ids (piece_ids p) (all_ids ps), length-append (piece_ids p) (all_ids ps))
      (ap
        (λ m. record {
          added = m;
          idl = record idl { ids = idl.ids ++ (piece_ids p ++ all_ids ps) };
          end = 0 ∷ [];
        })
        (omega arith))

pieces_loop :
    (n : ℕ) (list : Bytes) (added : ℕ) (idl : Idlist) (ps : List Piece) (q : Dudlc)
    → All IsPiece ps
    → length ps < n
    → added + length (all_ids ps) < 2 ^ 31
    → addlist_loop n list added idl (print_pieces ps) q ≡ done (added_all added idl ps) q
unfolding print_pieces is_digit skip_comma all_ids addlist_loop added_all
pieces_loop zero list added idl ps q h fuel few = absurd (omega arith)
pieces_loop (suc n) list added idl [] q h fuel few =
    rw (append-nil idl.ids)
      (ap (λ m. done (record { added = m; idl = idl; end = 0 ∷ [] }) q) (omega arith))
pieces_loop (suc n) list added idl (p ∷ []) q (h, k) fuel few =
    let size = length-append (piece_ids p) (all_ids []) in
    piece_round n list added idl p 0 [] q h refl refl (omega (arith, size, few))
    ∙ pieces_loop n list (added + length (piece_ids p))
        (record idl { ids = idl.ids ++ piece_ids p }) [] q tt (omega (arith, fuel))
        (omega (arith, size, few))
    ∙ ap (λ r. done r q) (behind_piece added idl p [])
pieces_loop (suc n) list added idl (p ∷ o ∷ ps) q (h, k) fuel few =
    let size = length-append (piece_ids p) (all_ids (o ∷ ps)) in
    piece_round n list added idl p b',' (print_pieces (o ∷ ps)) q h refl refl
      (omega (arith, size, few))
    ∙ pieces_loop n list (added + length (piece_ids p))
        (record idl { ids = idl.ids ++ piece_ids p }) (o ∷ ps) q k (omega (arith, fuel))
        (omega (arith, size, few))
    ∙ ap (λ r. done r q) (behind_piece added idl p (o ∷ ps))

print_pieces-length : (ps : List Piece) → length ps ≤ length (print_pieces ps)
unfolding print_pieces
print_pieces-length [] = omega arith
print_pieces-length (p ∷ []) = rw (length-append (print_piece p) (0 ∷ [])) (omega arith)
print_pieces-length (p ∷ o ∷ ps) =
    let h = print_pieces-length (o ∷ ps) in
    rw (length-append (print_piece p) (b',' ∷ print_pieces (o ∷ ps))) (omega (arith, h))

-- `idl_addlist` reads back a printed list of ids and spans `a-b`, commas between them and a 0 behind
-- it, where the ids fit an int, in each span `a` is less than `b` and `b` less than INT_MAX, and the
-- number of all ids, those of the spans counted one by one, fits an int too: it adds the ids of the items to the list in their order, those of a span one by one, returns their
-- number, sets `*end` to the 0, and leaves the session as it is.
pub idl_addlist-print_pieces :
    (idl : Idlist) (ps : List Piece) (q : Dudlc)
    → All IsPiece ps
    → length (all_ids ps) < 2 ^ 31
    → idl_addlist idl (print_pieces ps) q
      ≡ done
          (record {
            added = length (all_ids ps);
            idl = record idl { ids = idl.ids ++ all_ids ps };
            end = 0 ∷ [];
          })
          q
unfolding idl_addlist added_all
idl_addlist-print_pieces idl ps q h few =
    let fits = print_pieces-length ps in
    pieces_loop (suc (length (print_pieces ps))) (print_pieces ps) 0 idl ps q h
      (omega (arith, fits)) (omega (arith, few))
    ∙ ap
        (λ m.
          done
            (record { added = m; idl = record idl { ids = idl.ids ++ all_ids ps }; end = 0 ∷ [] })
            q)
        (omega arith)
