-- ===== src/Align/Emitted.antt =====
-- preorder emits no node twice, so that it stays inside an array of as many slots as there are nodes.
use mathlib.Core.Option.{some_inj, none-ne-some}
use omwj.Prelude.{
  ℕ, zero, suc, ◌+◌, ◌%◌, ◌≤◌, ◌<◌, ◌≡◌, refl, List, [], ◌∷◌, ◌++◌, Option, none, some, inl, inr,
  arith,
}
use omwj.Prelude.Tests.{leb, ltb, ◌==◌, if◌then◌else◌, Bool-cases, le→leb}
use omwj.Prelude.Lists.{length, get_elem?, All}
use omwj.Prelude.Partial.{Option-cases}
use omwj.Prelude.Word.{modulus, eq32}
use omwj.Entry.{JoinNode}
use omwj.Order.Sorted.{All-append, All-imp}
use omwj.Align.Attach.{children_from, in_turn, preorder, emitted}
use omwj.Align.Preorder.{PostOrder, children-lt, preorder-fuel}

abbrev one_if : ℕ → ℕ → ℕ
one_if x y = if x == y then 1 else 0

-- How often a node is in a list.
abbrev tally : ℕ → List ℕ → ℕ
tally x [] = 0
tally x (y ∷ ys) = one_if x y + tally x ys

tally-append : (x : ℕ) (xs ys : List ℕ) → tally x (xs ++ ys) ≡ tally x xs + tally x ys
tally-append x [] ys = omega arith
tally-append x (y ∷ xs) ys = omega (arith, tally-append x xs ys)

-- How often the nodes below n are in a list.
abbrev total : ℕ → List ℕ → ℕ
total zero xs = 0
total (suc n) xs = tally n xs + total n xs

total_nil : (n : ℕ) → total n [] ≡ 0
total_nil zero = refl
total_nil (suc n) = omega (arith, total_nil n)

total_cons : (n y : ℕ) (ys : List ℕ) → total n (y ∷ ys) ≡ (if ltb y n then 1 else 0) + total n ys
total_cons zero y ys = ground arith
total_cons (suc n) y ys = ground (arith, total_cons n y ys)

total-length : (n : ℕ) (xs : List ℕ) → All (λ x. x < n) xs → total n xs ≡ length xs
total-length n [] h = total_nil n
total-length n (x ∷ xs) h =
    let below = h.0 in ground (arith, total_cons n x xs, total-length n xs h.1, below)

total-le : (n : ℕ) (xs : List ℕ) → ((x : ℕ) → tally x xs ≤ 1) → total n xs ≤ n
total-le zero xs h = omega arith
total-le (suc n) xs h = omega (arith, h n, total-le n xs h)

-- The number that a node of a list names as its parent.
abbrev parent_at : List JoinNode → ℕ → ℕ
parent_at nodes c = elim (get_elem? nodes c) [
  | none ↦ modulus
  | some node ↦ node.parent_idx % modulus
]

tally_below : (v k x : ℕ) (nodes : List JoinNode) → x < k → tally x (children_from v k nodes) ≡ 0
unfolding children_from
tally_below v k x [] h = refl
tally_below v k x (node ∷ nodes) h = ground (arith, tally_below v (suc k) x nodes (omega arith), h)

-- A node is among the children of the node that it names, once, and of no other.
tally_children :
    (v k c : ℕ) (nodes : List JoinNode)
    → v < modulus
    → tally (k + c) (children_from v k nodes) ≡ one_if v (parent_at nodes c)
unfolding children_from eq32
tally_children v k c [] h = ground (arith, h)
tally_children v k zero (node ∷ nodes) h =
    ground (arith, tally_below v (suc k) k nodes (omega arith), h)
tally_children v k (suc c) (node ∷ nodes) h = ground (arith, tally_children v (suc k) c nodes h)

parent_at-gt :
    (k c : ℕ) (nodes : List JoinNode)
    → PostOrder k nodes
    → c < length nodes
    → k + c < parent_at nodes c
unfolding eq32
parent_at-gt k c [] h inside = absurd (omega arith)
parent_at-gt k zero (node ∷ nodes) h inside =
    let v = node.parent_idx % modulus in
    let behind = h.0 v (omega arith) (ground arith) in omega (arith, behind)
parent_at-gt k (suc c) (node ∷ nodes) h inside =
    omega (arith, parent_at-gt (suc k) c nodes h.1 (omega arith))

tally_above : (u x : ℕ) (seq : List ℕ) → u < x → All (λ c. c ≤ u) seq → tally x seq ≡ 0
tally_above u x [] h low = refl
tally_above u x (y ∷ seq) h low =
    let here = low.0 in ground (arith, h, here, tally_above u x seq h low.1)

module _ (tree : List JoinNode) (post_order : PostOrder 0 tree) where
  abbrev up : ℕ → ℕ
  up = parent_at tree

  -- Each node that is emitted comes with its parent, but for the first one.
  abbrev Balanced : List ℕ → List ℕ → Type 0
  Balanced roots seq = (c : ℕ) → tally c seq ≡ tally (up c) seq + tally c roots

  abbrev Emits : ℕ → List ℕ → Type 0
  Emits u seq = Balanced (u ∷ []) seq × All (λ c. c ≤ u) seq

  abbrev AllEmit : (ℕ → Option (List ℕ)) → Type 0
  AllEmit emit = (u : ℕ) (seq : List ℕ) → u < modulus → emit u ≡ some seq → Emits u seq

  in_turn-Balanced :
      (emit : ℕ → Option (List ℕ)) (u : ℕ) (cs seq : List ℕ)
      → AllEmit emit
      → u < modulus
      → All (λ c. c < u) cs
      → in_turn emit cs ≡ some seq
      → Balanced cs seq × All (λ c. c ≤ u) seq
  unfolding in_turn
  in_turn-Balanced emit u [] seq emits small h run = rw (← some_inj.0 run) (λ c. refl, tt)
  in_turn-Balanced emit u (c ∷ cs) seq emits small h run = elim (Option-cases (emit c)) [
    | inl stop ↦ absurd (none-ne-some seq (rw (stop, in_turn) at run))
    | inr (xs, first) ↦ elim (Option-cases (in_turn emit cs)) [
      | inl stop ↦ absurd (none-ne-some seq (rw (first, stop, in_turn) at run))
      | inr (ys, rest) ↦
          let whole : xs ++ ys ≡ seq = some_inj.0 (rw (first, rest, in_turn) at run) in
          let below = h.0 in
          let (even, low) = emits c xs (omega (arith, below, small)) first in
          let (even', low') = in_turn-Balanced emit u cs ys emits small h.1 rest in
          rw (← whole) (
            λ d. omega (arith, tally-append d xs ys, tally-append (up d) xs ys, even d, even' d),
            All-append (λ d. d ≤ u) xs ys (All-imp _ _ (λ d k. omega (arith, k, below)) xs low)
                low',
          )
    ]
  ]

  preorder-AllEmit : (fuel : ℕ) → AllEmit (preorder fuel tree)
  unfolding preorder
  preorder-AllEmit zero u seq small run = absurd (none-ne-some seq run)
  preorder-AllEmit (suc fuel) u seq small run =
      let children = children_from u 0 tree in
      elim (Option-cases (in_turn (preorder fuel tree) children)) [
        | inl stop ↦ absurd (none-ne-some seq (rw (stop, preorder) at run))
        | inr (rest, inner) ↦
            let whole : u ∷ rest ≡ seq = some_inj.0 (rw (inner, preorder) at run) in
            let (even, low) =
              in_turn-Balanced (preorder fuel tree) u children rest (preorder-AllEmit fuel) small
                (children-lt u 0 tree small post_order) inner in
            rw (← whole)
              (λ c. ground (arith, even c, tally_children u 0 c tree small), (omega arith, low))
      ]

  -- A node is emitted as often as its parent, and the first one once.
  once : (d u c : ℕ) (seq : List ℕ) → u < length tree → u < c + d → Emits u seq → tally c seq ≤ 1
  once zero u c seq inside far (even, low) =
      let none_above = tally_above u c seq (omega arith) low in omega (arith, none_above)
  once (suc d) u c seq inside far (even, low) = elim (Bool-cases (leb c u)) [
    | inr above ↦
        let none_above = tally_above u c seq (ground (arith, above)) low in
        omega (arith, none_above)
    | inl below ↦
        let c_inside : c < length tree = ground (arith, below, inside) in
        let higher = parent_at-gt 0 c tree post_order c_inside in
        elim (Bool-cases (c == u)) [
          | inl same ↦
              let e : c ≡ u = ground (arith, same) in
              let none_above = tally_above u (up c) seq (omega (arith, e, higher)) low in
              ground (arith, even c, none_above)
          | inr other ↦
              let rest = once d u (up c) seq inside (omega (arith, far, higher)) (even, low) in
              ground (arith, even c, rest, other)
        ]
  ]

  emitted_step :
      (root : ℕ) (seq : List ℕ)
      → preorder (suc (length tree)) tree root ≡ some seq
      → length seq ≤ length tree
      → emitted tree root ≡ some seq
  unfolding emitted
  emitted_step root seq run few = rw (run, le→leb _ _ few, emitted) refl

  -- In a tree in post-order whose nodes an int32_t numbers, what preorder emits from a node ends and
  -- fits an array of as many slots as there are nodes, and every node that it emits is in the tree.
  pub emitted_lem :
      (root : ℕ)
      → root < length tree
      → length tree ≤ modulus
      → (seq : List ℕ) × (emitted tree root ≡ some seq)
        × (preorder (suc (length tree)) tree root ≡ some seq)
        × All (λ c. c < length tree) seq
  emitted_lem root inside limit =
      let small : root < modulus = omega (arith, inside, limit) in
      let (seq, run) =
        preorder-fuel tree (suc (length tree)) root post_order (omega (arith, inside)) small in
      let (even, low) = preorder-AllEmit (suc (length tree)) root seq small run in
      let all = All-imp _ (λ c. c < length tree) (λ c k. omega (arith, k, inside)) seq low in
      let few : length seq ≤ length tree = omega (
        arith,
        total-length (length tree) seq all,
        total-le (length tree) seq
            (λ c. once (suc root) root c seq inside (omega arith) (even, low)),
      ) in
      (seq, emitted_step root seq run few, run, all)
