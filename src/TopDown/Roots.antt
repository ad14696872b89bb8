-- ===== src/TopDown/Roots.antt =====
-- The initialisation of top_down stays in bounds.
use mathlib.Core.Path.{subst}
use omwj.Prelude.{
  ℕ, zero, suc, ◌+◌, ◌%◌, ◌^◌, ◌≤◌, ◌≡◌, refl, sym, ◌∙◌, true, List, [], ◌∷◌, some, inl, inr, arith,
}
use omwj.Prelude.Tests.{Bool-cases}
use omwj.Prelude.Lists.{length, All, get_elem?, set, length-set, get_elem?-lt}
use omwj.Prelude.Word.{modulus, is_neg}
use omwj.Entry.{Entry, TableDesc, JoinNode}
use omwj.Entry.Slots.{SameSlots, set-IsWhole}
use omwj.BottomUp.Bounds.{Inside, Filled}
use omwj.TopDown.Tree.{root_row, root_rows, init_roots}

root_step :
    (n r first i : ℕ) (rows : List Entry) {e : Entry} {out : List Entry}
    → (first + r) % modulus ≡ i
    → get_elem? rows i ≡ some e
    → root_rows n (suc r) first (set rows i (root_row e)) ≡ some out
    → root_rows (suc n) r first rows ≡ some out
unfolding root_rows
root_step n r first i rows {e} {out} at_row found run =
    let found' : get_elem? rows ((first + r) % modulus) ≡ some e = rw at_row found in
    let run' : root_rows n (suc r) first (set rows ((first + r) % modulus) (root_row e))
        ≡ some out =
      rw at_row run in
    rw (found', root_rows) run'

root_row-SameSlots : SameSlots root_row
unfolding root_row
root_row-SameSlots e = refl

root_rows-ok :
    (n r first : ℕ) (rows : List Entry)
    → first + r + n ≤ length rows
    → length rows ≤ 2 ^ 32
    → (out : List Entry) × (root_rows n r first rows ≡ some out) × Filled rows out
unfolding root_rows
root_rows-ok zero r first rows h k = (rows, refl, (refl, λ all. all))
root_rows-ok (suc n) r first rows h k =
    let in_place : (first + r) % modulus ≡ first + r = ground (arith, h, k) in
    let (e, found) = get_elem?-lt rows (first + r) (omega arith) in
    let rows' = set rows (first + r) (root_row e) in
    let same : length rows' ≡ length rows = length-set rows (first + r) (root_row e) in
    let (out, run, (size, whole)) =
      root_rows-ok n (suc r) first rows' (omega (arith, same)) (omega (arith, same)) in
    (
      out,
      root_step n r first (first + r) rows in_place found run,
      (
        size ∙ same,
        λ all. whole (set-IsWhole rows (first + r) root_row root_row-SameSlots found all),
      ),
    )

-- A root whose table is inside the array.
abbrev pub RootInside : List TableDesc → ℕ → JoinNode → Type 0
RootInside descs size node =
    is_neg node.parent_idx ≡ true
    → (desc : TableDesc) × (get_elem? descs node.table_idx ≡ some desc) × Inside size desc

roots_step :
    (descs : List TableDesc) (node : JoinNode) (nodes : List JoinNode) (rows : List Entry)
    {desc : TableDesc} {mid out : List Entry}
    → is_neg node.parent_idx ≡ true
    → get_elem? descs node.table_idx ≡ some desc
    → root_rows desc.num_rows 0 desc.offset_rows rows ≡ some mid
    → init_roots descs nodes mid ≡ some out
    → init_roots descs (node ∷ nodes) rows ≡ some out
unfolding init_roots
roots_step descs node nodes rows root found run rest = rw (root, found, run) rest

pub init_roots-ok :
    (descs : List TableDesc) (nodes : List JoinNode) (rows : List Entry)
    → All (RootInside descs (length rows)) nodes
    → (out : List Entry) × (init_roots descs nodes rows ≡ some out) × Filled rows out
unfolding init_roots
init_roots-ok descs [] rows h = (rows, refl, (refl, λ all. all))
init_roots-ok descs (node ∷ nodes) rows h = elim (Bool-cases (is_neg node.parent_idx)) [
  | inl root ↦
      let (desc, found, inside) = h.0 root in
      let (mid, run, (size, whole)) =
        root_rows-ok desc.num_rows 0 desc.offset_rows rows (omega (arith, inside.0)) inside.1 in
      let (out, rest, (size', whole')) =
        init_roots-ok descs nodes mid
          (subst (λ k. All (RootInside descs k) nodes) (sym size) h.1) in
      (
        out,
        roots_step descs node nodes rows root found run rest,
        (size' ∙ size, λ all. whole' (whole all)),
      )
  | inr child ↦
      let (out, rest, filled) = init_roots-ok descs nodes rows h.1 in (out, rw child rest, filled)
]
