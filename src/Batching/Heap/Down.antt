-- ===== src/Batching/Heap/Down.antt =====
-- The loop of heapify_down restores the heap from a node on.
use omwj.Prelude.{
  ℕ, zero, suc, ◌+◌, ◌*◌, ◌≤◌, ◌<◌, ◌≡◌, ◌≢◌, true, false, refl, ◌∙◌, List, Option, some, inl, inr,
  ◌⊎◌, arith,
}
use omwj.Prelude.Tests.{◌==◌, if◌then◌else◌, Bool-cases}
use omwj.Prelude.Lists.{length, All}
use omwj.Prelude.Partial.{◌>>=◌}
use omwj.Batching.Heap.{heapify_down, larger}
use omwj.Batching.Heap.Kept.{down_step}
use omwj.Batching.Heap.Sifts.{parent, key, Tells, Swapped, heap_swap-Swapped, pick_child-key}

module _ {A : Type 0} (rank : A → ℕ) where
  -- From the node `lo` on, no element of the heap is above its parent.
  abbrev pub IsHeap : ℕ → ℕ → List A → Type 0
  IsHeap lo size arr =
      (c : ℕ) → 0 < c → c < size → lo ≤ parent c → key rank arr c ≤ key rank arr (parent c)

  -- The same but for the edges below the node i, across which the order holds.
  pub record DownInv (lo size i : ℕ) (arr : List A) : Type 0 where
    pub edges :
        (c : ℕ)
        → 0 < c
        → c < size
        → lo ≤ parent c
        → parent c ≢ i
        → key rank arr c ≤ key rank arr (parent c)
    pub bridged :
        (c : ℕ)
        → 0 < c
        → c < size
        → parent c ≡ i
        → 0 < i
        → lo ≤ parent i
        → key rank arr c ≤ key rank arr (parent i)

  -- No child of the node i is above the key of the node s.
  abbrev NoneAbove : ℕ → ℕ → ℕ → List A → Type 0
  NoneAbove size i s arr =
      (c : ℕ) → 0 < c → c < size → parent c ≡ i → key rank arr c ≤ key rank arr s

  -- The node s is a child of the node i, greater than it.
  record Rises (size i s : ℕ) (arr : List A) : Type 0 where
    child : parent s ≡ i
    later : i < s
    inside : s < size
    greater : key rank arr i < key rank arr s
    greatest : NoneAbove size i s arr

  none_above :
      (size i s : ℕ) (arr : List A)
      → (2 * i + 1 < size → key rank arr (2 * i + 1) ≤ key rank arr s)
      → (2 * i + 2 < size → key rank arr (2 * i + 2) ≤ key rank arr s)
      → NoneAbove size i s arr
  none_above size i s arr left right c pos inside child =
      let which : (c ≡ 2 * i + 1) ⊎ (c ≡ 2 * i + 2) = omega (arith, pos, child) in
      elim which [
        | inl e ↦ rw e (left (omega (arith, e, inside)))
        | inr e ↦ rw e (right (omega (arith, e, inside)))
      ]

  -- What the two rounds of pick_child choose.
  choice :
      (size i l s : ℕ) (arr : List A)
      → ((l ≡ i) × (2 * i + 1 < size → key rank arr (2 * i + 1) ≤ key rank arr i))
        ⊎ ((l ≡ 2 * i + 1) × (2 * i + 1 < size) × (key rank arr i < key rank arr (2 * i + 1)))
      → ((s ≡ l) × (2 * i + 2 < size → key rank arr (2 * i + 2) ≤ key rank arr l))
        ⊎ ((s ≡ 2 * i + 2) × (2 * i + 2 < size) × (key rank arr l < key rank arr (2 * i + 2)))
      → ((s ≡ i) × NoneAbove size i i arr) ⊎ Rises size i s arr
  choice size i l s arr (inl (l_is, left)) (inl (s_is, right)) =
      inl (s_is ∙ l_is, none_above size i i arr left (rw l_is at right))
  choice size i l s arr (inl (l_is, left)) (inr (s_is, fits, above)) =
      let above' : key rank arr i < key rank arr (2 * i + 2) = rw l_is at above in
      inr (
        rw s_is (record {
          child = omega arith;
          later = omega arith;
          inside = fits;
          greater = above';
          greatest =
              none_above size i (2 * i + 2) arr (λ h. omega (arith, left h, above'))
                (λ h. omega arith);
        }))
  choice size i l s arr (inr (l_is, fits, above)) (inl (s_is, right)) = inr (
      rw (s_is, l_is)
        (record {
          child = omega arith;
          later = omega arith;
          inside = fits;
          greater = above;
          greatest = none_above size i (2 * i + 1) arr (λ h. omega arith) (rw l_is at right);
        }))
  choice size i l s arr (inr (l_is, fits, above)) (inr (s_is, fits', above')) =
      let above2 : key rank arr (2 * i + 1) < key rank arr (2 * i + 2) = rw l_is at above' in
      inr (
        rw s_is (record {
          child = omega arith;
          later = omega arith;
          inside = fits';
          greater = omega (arith, above, above2);
          greatest =
              none_above size i (2 * i + 2) arr (λ h. omega (arith, above2)) (λ h. omega arith);
        }))

  rise-DownInv :
      (P : A → Type 0) (lo size i s : ℕ) (arr : List A) (r : Option (List A))
      → DownInv lo size i arr
      → Rises size i s arr
      → (sw : Swapped rank P i s arr r) → DownInv lo size s sw.out
  rise-DownInv P lo size i s arr r inv up sw = record {
    edges = λ c pos inside from apart. elim (Bool-cases (c == s)) [
      | inl same ↦
          let e : c ≡ s = ground (arith, same) in
          rw (e, up.child) (ground (arith, sw.keys s, sw.keys i, up.greater, up.later))
      | inr other ↦ elim (Bool-cases (parent c == i)) [
        | inl below ↦
            let e : parent c ≡ i = ground (arith, below) in
            let bound = up.greatest c pos inside e in
            rw e (ground (arith, sw.keys c, sw.keys i, bound, other, up.later, e, pos))
        | inr outside ↦
            let apart' : parent c ≢ i = λ e. ground (arith, outside, e) in
            let edge = inv.edges c pos inside from apart' in
            elim (Bool-cases (c == i)) [
              | inl same ↦
                  let e : c ≡ i = ground (arith, same) in
                  let bridge =
                    inv.bridged s (omega (arith, up.later)) up.inside up.child (rw e at pos)
                      (rw e at from) in
                  let bridge' : key rank arr s ≤ key rank arr (parent c) = rw (← e) at bridge in
                  ground
                    (arith, sw.keys c, sw.keys (parent c), bridge', other, same, outside, apart)
              | inr moved ↦
                  ground (arith, sw.keys c, sw.keys (parent c), edge, other, moved, outside, apart)
            ]
      ]
    ];
    bridged = λ c pos inside child spos from.
        let edge =
          inv.edges c pos inside (rw child (omega (arith, from, up.later, up.child)))
            (λ e. omega (arith, e, child, up.later)) in
        let edge' : key rank arr c ≤ key rank arr s = rw child at edge in
        rw up.child (ground (arith, sw.keys c, sw.keys i, edge', child, up.later));
  }

  -- A run that ends in a heap, under the same bounds, with nothing changed behind it.
  pub record Sifted (P : A → Type 0) (lo size : ℕ) (arr : List A) (r : Option (List A))
      : Type 0 where
    pub out : List A
    pub returns : r ≡ some out
    pub same_size : length out ≡ length arr
    pub kind : All P out
    pub heap : IsHeap lo size out
    pub bounded :
        (v : ℕ)
        → ((j : ℕ) → j < size → key rank arr j ≤ v)
        → (j : ℕ) → j < size
        → key rank out j ≤ v
    pub beyond : (j : ℕ) → size ≤ j → key rank out j ≡ key rank arr j

  settled_lem :
      (i : ℕ) (arr : List A) (r : Option (List A)) → (if i == i then some arr else r) ≡ some arr
  settled_lem i arr r = let same : (i == i) ≡ true = ground arith in rw same refl

  module _ (P : A → Type 0) (compare : A → A → ℕ) (tells : Tells rank P compare) where
    pub heapify_down-Sifted :
        (fuel lo size i : ℕ) (arr : List A)
        → All P arr
        → size ≤ length arr
        → i < size
        → lo ≤ i
        → size ≤ i + fuel
        → DownInv lo size i arr
        → Sifted P lo size arr (heapify_down (larger compare) fuel size i arr)
    unfolding heapify_down
    heapify_down-Sifted zero lo size i arr kind fits inside from enough inv = absurd (omega arith)
    heapify_down-Sifted (suc fuel) lo size i arr kind fits inside from enough inv =
        let (l, left, by_left) =
          pick_child-key rank P compare tells size (2 * i + 1) i arr kind fits (omega arith) in
        let l_inside : l < length arr = elim by_left [
          | inl (e, k) ↦ omega arith
          | inr (e, b, k) ↦ omega arith
        ] in
        let (s, right, by_right) =
          pick_child-key rank P compare tells size (2 * i + 2) l arr kind fits l_inside in
        elim (choice size i l s arr by_left by_right) [
          | inl (s_is, none) ↦ record {
            out = arr;
            returns =
                down_step (larger compare) fuel size i l s arr left right
                  (rw s_is (settled_lem i arr _));
            same_size = refl;
            kind = kind;
            heap = λ c pos here above. elim (Bool-cases (parent c == i)) [
              | inl below ↦ let e : parent c ≡ i = ground (arith, below) in rw e (none c pos here e)
              | inr outside ↦ inv.edges c pos here above (λ e. ground (arith, outside, e))
            ];
            bounded = λ v h. h;
            beyond = λ j h. refl;
          }
          | inr up ↦
              let sw =
                heap_swap-Swapped rank P i s arr (omega (arith, fits))
                  (omega (arith, fits, up.inside)) kind in
              let rest =
                heapify_down-Sifted fuel lo size s sw.out sw.kind (omega (arith, sw.size)) up.inside
                  (omega (arith, up.later)) (omega (arith, up.later))
                  (rise-DownInv P lo size i s arr _ inv up sw) in
              let apart : (s == i) ≡ false = ground (arith, up.later) in
              record {
                out = rest.out;
                returns =
                    down_step (larger compare) fuel size i l s arr left right
                      (rw apart (rw (sw.returns, ◌>>=◌) rest.returns));
                same_size = rest.same_size ∙ sw.size;
                kind = rest.kind;
                heap = rest.heap;
                bounded = λ v h.
                    rest.bounded v
                      (λ j k. ground (arith, sw.keys j, h j k, h i inside, h s up.inside));
                beyond = λ j h. rest.beyond j h ∙ ground (arith, sw.keys j, up.inside);
              }
        ]
