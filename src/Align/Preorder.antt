-- ===== src/Align/Preorder.antt =====
-- The recursion over the join tree ends, and a tree without a root is refused.
use omwj.Prelude.{
  ℕ, zero, suc, ◌%◌, ◌<◌, ◌≡◌, refl, true, false, List, [], ◌∷◌, ◌++◌, Option, some, inl, inr,
  arith,
}
use omwj.Prelude.Tests.{◌==◌, Bool-cases}
use omwj.Prelude.Lists.{length, All}
use omwj.Prelude.Word.{modulus, eq32, is_neg}
use omwj.Entry.{JoinNode}
use omwj.Order.Sorted.{All-imp}
use omwj.Runtime.{Runtime, err}
use omwj.Distribute.{ExpandedTable}
use omwj.Align.Attach.{children_from, in_turn, preorder, find_root, align_concat}

-- Post-order: from node c on, a node's parent is behind it in the array, or it has none.
abbrev pub PostOrder : ℕ → List JoinNode → Type 0
PostOrder c [] = Unit
PostOrder c (node ∷ nodes) =
    ((v : ℕ) → v < modulus → eq32 node.parent_idx v ≡ true → c < v) × PostOrder (suc c) nodes

pub children-lt :
    (v c : ℕ) (nodes : List JoinNode)
    → v < modulus
    → PostOrder c nodes
    → All (λ k. k < v) (children_from v c nodes)
unfolding children_from
children-lt v c [] small h = tt
children-lt v c (node ∷ nodes) small h = elim (Bool-cases (eq32 node.parent_idx (v % modulus))) [
  | inl child ↦
      let in_place : v % modulus ≡ v = omega arith in
      rw child (h.0 v small (rw in_place at child), children-lt v (suc c) nodes small h.1)
  | inr other ↦ rw other (children-lt v (suc c) nodes small h.1)
]

Emits : Option (List ℕ) → Type 0
Emits r = (seq : List ℕ) × (r ≡ some seq)

in_turn-Emits :
    (emit : ℕ → Option (List ℕ)) (cs : List ℕ)
    → All (λ c. Emits (emit c)) cs
    → Emits (in_turn emit cs)
unfolding in_turn Emits
in_turn-Emits emit [] h = ([], refl)
in_turn-Emits emit (c ∷ cs) h =
    let (seq, run) = h.0 in
    let (rest, runs) = in_turn-Emits emit cs h.1 in (seq ++ rest, rw (run, runs, in_turn) refl)

preorder_step :
    (fuel node : ℕ) (tree : List JoinNode) {seq : List ℕ}
    → in_turn (preorder fuel tree) (children_from node 0 tree) ≡ some seq
    → preorder (suc fuel) tree node ≡ some (node ∷ seq)
unfolding preorder
preorder_step fuel node tree run = rw (run, preorder) refl

-- In a tree in post-order, whose nodes an int32_t numbers, the recursion from a node ends within
-- as many levels as the node's number and one more, since each child has a smaller number.
pub preorder-fuel :
    (tree : List JoinNode) (fuel node : ℕ)
    → PostOrder 0 tree
    → node < fuel
    → node < modulus
    → (seq : List ℕ) × (preorder fuel tree node ≡ some seq)
unfolding Emits
preorder-fuel tree zero node post_order h small = absurd (omega arith)
preorder-fuel tree (suc fuel) node post_order h small =
    let smaller = children-lt node 0 tree small post_order in
    let (seq, run) = in_turn-Emits (preorder fuel tree) (children_from node 0 tree) (
      All-imp _ _ (λ c k. preorder-fuel tree fuel c post_order (omega arith) (omega arith)) _
        smaller) in
    (node ∷ seq, preorder_step fuel node tree run)

find_root-none :
    (root k : ℕ) (nodes : List JoinNode)
    → All (λ node. is_neg node.parent_idx ≡ false) nodes
    → find_root root k nodes ≡ root
unfolding find_root
find_root-none root k [] h = refl
find_root-none root k (node ∷ nodes) h = rw (h.0) (find_root-none root (suc k) nodes h.1)

-- When every node of the tree names a parent, align_concat gives the error return, whatever the
-- tables and the runtime: it allocates nothing and changes no state.
pub align_concat-no_root :
    (rt : Runtime) (expanded : List ExpandedTable) (tree : List JoinNode) (w : rt.World)
    → All (λ node. is_neg node.parent_idx ≡ false) tree
    → align_concat rt expanded tree w ≡ err w
unfolding align_concat
align_concat-no_root rt expanded tree w h =
    let missing = find_root-none (length tree) 0 tree h in
    let same : (find_root (length tree) 0 tree == length tree) ≡ true = rw missing (ground arith) in
    rw same refl
