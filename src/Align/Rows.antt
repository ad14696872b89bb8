-- ===== src/Align/Rows.antt =====
-- The steps of an attachment on rows that have all their slots.
use native.Mathlib.Nat.{ℕ_set}
use omwj.Prelude.{ℕ, zero, suc, ◌<◌, ◌≡◌, refl, ap, false, List, [], ◌∷◌, ◌++◌, map, some, arith}
use omwj.Prelude.Lists.{length, get_elem?, get_or, take_all, All, pass_from}
use omwj.Prelude.Word.{eq32}
use omwj.Constants.{sort_padding}
use omwj.Trow.{Trow, Rrow}
use omwj.Align.{join_result, join_child, copy_step, number_copies, set_alignment, beside}

-- A row with all its slots that is no sort padding.
abbrev pub FullRow : ℕ → ℕ → List ℕ → Type 0
FullRow width field_type attributes =
    (eq32 field_type sort_padding ≡ false) × (length attributes ≡ width)

abbrev pub ResultRow : ℕ → Rrow → Type 0
ResultRow width r = FullRow width r.field_type r.attributes

abbrev pub ChildRow : ℕ → Trow → Type 0
ChildRow width t = FullRow width t.field_type t.attributes

-- A row whose join attribute is the value of a slot.
abbrev pub result_keyed : ℕ → Rrow → Rrow
result_keyed col r = record r { join_attr = get_or r.attributes col 0 }

abbrev pub child_keyed : ℕ → Trow → Trow
child_keyed col t = record t { join_attr = get_or t.attributes col 0 }

-- Each row has the header of a row of `left`, and the slots of that row and of the one in the same
-- place of `right`.
abbrev pub Beside : List Rrow → List Trow → List Rrow → Type 0
Beside [] right [] = Unit
Beside (a ∷ left) (c ∷ right) (r ∷ out) =
    (r ≡ record a { attributes = a.attributes ++ c.attributes }) × Beside left right out
Beside left right out = ⊥

slot_read : (xs : List ℕ) (i : ℕ) → i < length xs → get_elem? xs i ≡ some (get_or xs i 0)
slot_read [] i h = absurd (omega arith)
slot_read (x ∷ xs) zero h = refl
slot_read (x ∷ xs) (suc i) h = slot_read xs i (omega arith)

pub join_result_lem :
    (width col : ℕ) (rows : List Rrow)
    → col < width
    → All (ResultRow width) rows
    → (join_result col rows ≡ some (map (result_keyed col) rows))
      × All (ResultRow width) (map (result_keyed col) rows)
unfolding join_result
join_result_lem width col [] h full = (refl, tt)
join_result_lem width col (t ∷ rows) h full =
    let (rest, kept) = join_result_lem width col rows h full.1 in
    let read = slot_read t.attributes col (omega (arith, full.0.1)) in
    (rw (read, rest, join_result) refl, (full.0, kept))

pub join_child_lem :
    (width col : ℕ) (rows : List Trow)
    → col < width
    → All (ChildRow width) rows
    → (join_child col rows ≡ some (map (child_keyed col) rows))
      × All (ChildRow width) (map (child_keyed col) rows)
unfolding join_child
join_child_lem width col [] h full = (refl, tt)
join_child_lem width col (t ∷ rows) h full =
    let (rest, kept) = join_child_lem width col rows h full.1 in
    let read = slot_read t.attributes col (omega (arith, full.0.1)) in
    (rw (read, rest, join_child) refl, (full.0, kept))

-- Numbering the copies and setting their keys keeps the rows' kinds, slots and number.
copies_kept :
    (width : ℕ) (prev : Trow) (rows : List Trow)
    → All (ChildRow width) rows
    → All (ChildRow width) (map set_alignment (pass_from copy_step prev rows))
      × (length (map set_alignment (pass_from copy_step prev rows)) ≡ length rows)
unfolding copy_step set_alignment
copies_kept width prev [] full = (tt, refl)
copies_kept width prev (t ∷ rows) full =
    let (kept, size) = copies_kept width (copy_step prev t) rows full.1 in
    ((full.0, kept), ap suc size)

pub aligned_kept :
    (width : ℕ) (rows : List Trow)
    → All (ChildRow width) rows
    → All (ChildRow width) (map set_alignment (number_copies rows))
      × (length (map set_alignment (number_copies rows)) ≡ length rows)
unfolding number_copies set_alignment
aligned_kept width [] full = (tt, refl)
aligned_kept width (t ∷ rows) full =
    let (kept, size) = copies_kept width (record t { copy_index = 0 }) rows full.1 in
    ((full.0, kept), ap suc size)

pub beside-Beside :
    (width child_width : ℕ) (left : List Rrow) (right : List Trow)
    → length left ≡ length right
    → All (ResultRow width) left
    → All (ChildRow child_width) right
    → (out : List Rrow) × (beside width child_width left right ≡ some out) × Beside left right out
unfolding beside
beside-Beside width child_width [] right same full full' = ([], refl, tt)
beside-Beside width child_width (a ∷ left) [] same full full' = absurd (omega arith)
beside-Beside width child_width (a ∷ left) (c ∷ right) same full full' =
    let (out, run, good) =
      beside-Beside width child_width left right (omega arith) full.1 full'.1 in
    let slots = take_all a.attributes width (full.0.1) in
    let slots' = take_all c.attributes child_width (full'.0.1) in
    (
      record a { attributes = a.attributes ++ c.attributes } ∷ out,
      rw (run, slots, slots', beside) refl,
      (refl, good),
    )

pub FullRow-prop :
    (width field_type : ℕ) (attributes : List ℕ) → IsProp (FullRow width field_type attributes)
FullRow-prop width field_type attributes = hlevel (ℕ_set)
