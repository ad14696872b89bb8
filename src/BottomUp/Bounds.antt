-- ===== src/BottomUp/Bounds.antt =====
-- The tables in the array of rows: the initialisation stays in bounds, and a table that is read and
-- written back leaves the other rows.
use mathlib.Core.Path.{subst}
use mathlib.Core.List.{map-append}
use omwj.Prelude.{
  ℕ, zero, suc, ◌+◌, ◌*◌, ◌%◌, ◌^◌, ◌≤◌, ◌<◌, ◌≡◌, refl, sym, ap, ◌∙◌, List, [], ◌∷◌, ◌++◌, map,
  some, arith,
}
use omwj.Prelude.Tests.{le→leb}
use omwj.Prelude.Lists.{length, All, get_elem?, set, take, drop, length-set, get_elem?-lt}
use omwj.Prelude.Word.{modulus}
use omwj.Entry.{Entry, TableDesc, JoinNode}
use omwj.Entry.Slots.{IsWhole, SameSlots, set-IsWhole}
use omwj.BottomUp.Tree.{init_row, init_rows, init_tables, table_rows, with_table}

-- A table lies inside an array of so many rows, which an index of 32 bits reaches.
abbrev pub Inside : ℕ → TableDesc → Type 0
Inside size desc = (desc.offset_rows + desc.num_rows ≤ size) × (size ≤ 2 ^ 32)

init_step :
    (n r first i : ℕ) (rows : List Entry) {e : Entry} {out : List Entry}
    → (first + r) % modulus ≡ i
    → get_elem? rows i ≡ some e
    → init_rows n (suc r) first (set rows i (init_row r e)) ≡ some out
    → init_rows (suc n) r first rows ≡ some out
unfolding init_rows
init_step n r first i rows {e} {out} at_row found run =
    let found' : get_elem? rows ((first + r) % modulus) ≡ some e = rw at_row found in
    let run' : init_rows n (suc r) first (set rows ((first + r) % modulus) (init_row r e))
        ≡ some out =
      rw at_row run in
    rw (found', init_rows) run'

init_row-SameSlots : (r : ℕ) → SameSlots (init_row r)
unfolding init_row
init_row-SameSlots r e = refl

-- The initialisation gives as many rows, and takes no slot from a row.
abbrev pub Filled : List Entry → List Entry → Type 0
Filled rows out = (length out ≡ length rows) × (All IsWhole rows → All IsWhole out)

init_rows-ok :
    (n r first : ℕ) (rows : List Entry)
    → first + r + n ≤ length rows
    → length rows ≤ 2 ^ 32
    → (out : List Entry) × (init_rows n r first rows ≡ some out) × Filled rows out
unfolding init_rows
init_rows-ok zero r first rows h k = (rows, refl, (refl, λ all. all))
init_rows-ok (suc n) r first rows h k =
    let in_place : (first + r) % modulus ≡ first + r = ground (arith, h, k) in
    let (e, found) = get_elem?-lt rows (first + r) (omega arith) in
    let rows' = set rows (first + r) (init_row r e) in
    let same : length rows' ≡ length rows = length-set rows (first + r) (init_row r e) in
    let (out, run, (size, whole)) =
      init_rows-ok n (suc r) first rows' (omega (arith, same)) (omega (arith, same)) in
    (
      out,
      init_step n r first (first + r) rows in_place found run,
      (
        size ∙ same,
        λ all. whole (set-IsWhole rows (first + r) (init_row r) (init_row-SameSlots r) found all),
      ),
    )

pub init_tables-ok :
    (descs : List TableDesc) (rows : List Entry)
    → All (Inside (length rows)) descs
    → (out : List Entry) × (init_tables descs rows ≡ some out) × Filled rows out
unfolding init_tables
init_tables-ok [] rows h = (rows, refl, (refl, λ all. all))
init_tables-ok (desc ∷ descs) rows h =
    let (mid, run, (size, whole)) =
      init_rows-ok desc.num_rows 0 desc.offset_rows rows (omega (arith, h.0.0)) h.0.1 in
    let (out, rest, (size', whole')) =
      init_tables-ok descs mid (subst (λ k. All (Inside k) descs) (sym size) h.1) in
    (out, rw (run, init_tables) rest, (size' ∙ size, λ all. whole' (whole all)))

take-drop : {A : Type 0} (n : ℕ) (xs : List A) → take n xs ++ drop n xs ≡ xs
take-drop zero xs = refl
take-drop (suc n) [] = refl
take-drop (suc n) (x ∷ xs) = ap (◌∷◌ x) (take-drop n xs)

drop_nil : {A : Type 0} (n : ℕ) → drop {A = A} n [] ≡ []
drop_nil zero = refl
drop_nil (suc n) = refl

drop-drop : {A : Type 0} (m n : ℕ) (xs : List A) → drop n (drop m xs) ≡ drop (m + n) xs
drop-drop zero n xs = ap (λ k. drop k xs) (omega arith)
drop-drop (suc m) n [] = drop_nil n ∙ sym (drop_nil (suc m + n))
drop-drop (suc m) n (x ∷ xs) =
    let next : suc (m + n) ≡ suc m + n = omega arith in
    drop-drop m n xs ∙ ap (λ k. drop k (x ∷ xs)) next

-- Rows of a table that are replaced by rows that f does not tell apart from them.
pub with_table-kept :
    (f : Entry → Entry) (desc : TableDesc) (rows out : List Entry)
    → map f out ≡ map f (take desc.num_rows (drop desc.offset_rows rows))
    → map f (with_table desc out rows) ≡ map f rows
unfolding with_table
with_table-kept f desc rows out h =
    let o = desc.offset_rows in
    let n = desc.num_rows in
    let rest = drop (o + n) rows in
    let whole : take o rows ++ (take n (drop o rows) ++ rest) ≡ rows =
      ap (λ r. take o rows ++ (take n (drop o rows) ++ r)) (sym (drop-drop o n rows))
      ∙ ap (λ r. take o rows ++ r) (take-drop n (drop o rows))
      ∙ take-drop o rows in
    map-append f (take o rows) (out ++ rest)
    ∙ ap (λ r. map f (take o rows) ++ r)
        (map-append f out rest
          ∙ ap (λ r. r ++ map f rest) h
          ∙ sym (map-append f (take n (drop o rows)) rest))
    ∙ sym (map-append f (take o rows) (take n (drop o rows) ++ rest))
    ∙ ap (map f) whole

pub length-take-drop :
    {A : Type 0} (o n : ℕ) (xs : List A) → o + n ≤ length xs → length (take n (drop o xs)) ≡ n
length-take-drop zero zero xs h = refl
length-take-drop zero (suc n) [] h = absurd (omega arith)
length-take-drop zero (suc n) (x ∷ xs) h = ap suc (length-take-drop zero n xs (omega arith))
length-take-drop (suc o) n [] h = absurd (omega arith)
length-take-drop (suc o) n (x ∷ xs) h = length-take-drop o n xs (omega arith)

pub table_rows-ok :
    (desc : TableDesc) (rows : List Entry)
    → desc.offset_rows + desc.num_rows ≤ length rows
    → table_rows desc rows ≡ some (take desc.num_rows (drop desc.offset_rows rows))
unfolding table_rows
table_rows-ok desc rows h = rw (le→leb _ _ h) refl

-- A node whose parent and tables are there, with at most 2 ^ 57 records in the combined array, and
-- whose join columns are slots.
abbrev pub EdgeInside : List JoinNode → List TableDesc → ℕ → JoinNode → Type 0
EdgeInside tree descs size node =
    (parent_node : JoinNode) × (parent_desc : TableDesc) × (child_desc : TableDesc) × (get_elem?
        tree node.parent_idx
      ≡ some parent_node)
    × (get_elem? descs parent_node.table_idx ≡ some parent_desc)
    × (get_elem? descs node.table_idx ≡ some child_desc)
    × Inside size parent_desc
    × Inside size child_desc
    × (child_desc.num_rows + 2 * parent_desc.num_rows ≤ 2 ^ 57)
    × (node.join_col < 64)
    × (node.parent_join_col < 64)
