-- ===== src/Batching/Heap/Sorts.antt =====
-- heap_sort sorts: the first loop makes a heap, and each round of the second puts the greatest
-- element of the heap behind it.
use mathlib.Core.Option.{some_inj}
use omwj.Prelude.{
  ℕ, zero, suc, ◌-◌, ◌/◌, ◌^◌, ◌≤◌, ◌<◌, ◌≡◌, refl, sym, ◌∙◌, List, Option, some, Perm, inl, inr,
  arith,
}
use omwj.Prelude.Tests.{leb, ◌==◌, Bool-cases}
use omwj.Prelude.Lists.{length, All}
use omwj.Prelude.Partial.{◌>>=◌}
use omwj.Batching.Heap.{build_heap, extract, heap_sort}
use omwj.Batching.Heap.Kept.{first_node_lem, heap_sort-Keeps}
use omwj.Batching.Heap.Sifts.{parent, key, Tells, Swapped, heap_swap-Swapped}
use omwj.Batching.Heap.Down.{IsHeap, DownInv, heapify_down-Sifted}

module _ {A : Type 0} (rank : A → ℕ) where
  -- Every element is at least those before it.
  abbrev pub InOrder : List A → Type 0
  InOrder arr = (i j : ℕ) → i ≤ j → j < length arr → key rank arr i ≤ key rank arr j

  -- Behind the heap every element is at least those before it.
  abbrev Settled : ℕ → List A → Type 0
  Settled end arr = (i j : ℕ) → i ≤ j → end < j → j < length arr → key rank arr i ≤ key rank arr j

  root_greatest :
      (fuel size : ℕ) (arr : List A) (c : ℕ)
      → IsHeap rank 0 size arr
      → c ≤ fuel
      → c < size
      → key rank arr c ≤ key rank arr 0
  root_greatest zero size arr c heap enough inside =
      let e : c ≡ 0 = omega (arith, enough) in rw e (omega arith)
  root_greatest (suc fuel) size arr zero heap enough inside = omega arith
  root_greatest (suc fuel) size arr (suc c) heap enough inside =
      let up = heap (suc c) (omega arith) inside (omega arith) in
      let above =
        root_greatest fuel size arr (parent (suc c)) heap (omega (arith, enough))
          (omega (arith, inside)) in
      omega (arith, up, above)

  -- The greatest element of the heap goes behind it.
  swap-Settled :
      (P : A → Type 0) (end : ℕ) (arr : List A) {r : Option (List A)}
      → (sw : Swapped rank P 0 (suc end) arr r) → IsHeap rank 0 (suc (suc end)) arr
      → Settled (suc end) arr
      → (i j : ℕ) → i ≤ j
      → end < j
      → j < length arr
      → key rank sw.out i ≤ key rank sw.out j
  swap-Settled P end arr sw heap settled i j le late here =
      let top : (c : ℕ) → c < suc (suc end) → key rank arr c ≤ key rank arr 0 =
        λ c h. root_greatest c (suc (suc end)) arr c heap (omega arith) h in
      elim (Bool-cases (j == suc end)) [
        | inl last ↦
            let e : j ≡ suc end = ground (arith, last) in
            let low = top i (omega (arith, le, e)) in
            let high = top (suc end) (omega arith) in
            ground (arith, sw.keys i, sw.keys j, low, high, e)
        | inr behind ↦
            let far : suc end < j = ground (arith, behind, late) in
            let low = settled i j le far here in
            let high = settled (suc end) j (omega (arith, far)) far here in
            let root = settled 0 j (omega arith) far here in
            ground (arith, sw.keys i, sw.keys j, low, high, root, far)
      ]

  module _ (P : A → Type 0) (compare : A → A → ℕ) (tells : Tells rank P compare) where
    -- A run that ends in a sorted array.
    record Sorts (arr : List A) (r : Option (List A)) : Type 0 where
      out : List A
      returns : r ≡ some out
      same_size : length out ≡ length arr
      in_order : InOrder out

    record Builds (arr : List A) (r : Option (List A)) : Type 0 where
      out : List A
      returns : r ≡ some out
      same_size : length out ≡ length arr
      kind : All P out
      heap : IsHeap rank 0 (length arr) out

    build_heap-Builds :
        (i : ℕ) (arr : List A)
        → All P arr
        → i ≤ length arr
        → IsHeap rank i (length arr) arr
        → Builds arr (build_heap compare (length arr) i arr)
    unfolding build_heap
    build_heap-Builds zero arr kind inside heap = record {
      out = arr;
      returns = refl;
      same_size = refl;
      kind = kind;
      heap = heap;
    }
    build_heap-Builds (suc i) arr kind inside heap =
        let inv : DownInv rank i (length arr) i arr = record {
          edges = λ c pos here from apart. heap c pos here (omega (arith, from, apart));
          bridged = λ c pos here child ipos from. absurd (omega (arith, ipos, from));
        } in
        let sift =
          heapify_down-Sifted rank P compare tells (length arr) i (length arr) i arr kind
            (omega arith) (omega (arith, inside)) (omega arith) (omega arith) inv in
        let rest =
          build_heap-Builds i sift.out sift.kind (omega (arith, inside, sift.same_size))
            (rw sift.same_size sift.heap) in
        record {
          out = rest.out;
          returns = rw (sift.returns, ◌>>=◌) (rw sift.same_size at rest.returns);
          same_size = rest.same_size ∙ sift.same_size;
          kind = rest.kind;
          heap = rw sift.same_size at rest.heap;
        }

    extract-Sorts :
        (end : ℕ) (arr : List A)
        → All P arr
        → end < length arr
        → IsHeap rank 0 (suc end) arr
        → Settled end arr
        → Sorts arr (extract compare end arr)
    unfolding extract
    extract-Sorts zero arr kind inside heap settled = record {
      out = arr;
      returns = refl;
      same_size = refl;
      in_order = λ i j le here. elim (Bool-cases (j == 0)) [
        | inl first ↦
            let e : j ≡ 0 = ground (arith, first) in
            let f : i ≡ 0 = omega (arith, le, e) in rw (e, f) (omega arith)
        | inr later ↦ settled i j le (ground (arith, later)) here
      ];
    }
    extract-Sorts (suc end) arr kind inside heap settled =
        let sw = heap_swap-Swapped rank P 0 (suc end) arr (omega (arith, inside)) inside kind in
        let inv : DownInv rank 0 (suc end) 0 sw.out = record {
          edges = λ c pos here from apart.
              let edge = heap c pos (omega (arith, here)) from in
              let moved : 0 < parent c = omega (arith, apart) in
              ground (arith, edge, sw.keys c, sw.keys (parent c), moved, pos, here);
          bridged = λ c pos here child ipos from. absurd (omega (arith, ipos));
        } in
        let sift =
          heapify_down-Sifted rank P compare tells (suc end) 0 (suc end) 0 sw.out sw.kind
            (omega (arith, inside, sw.size)) (omega arith) (omega arith) (omega arith) inv in
        let settled' : Settled end sift.out = λ i j le late here.
          let here' : j < length arr = omega (arith, here, sw.size, sift.same_size) in
          let high = sift.beyond j (omega (arith, late)) in
          elim (Bool-cases (leb (suc end) i)) [
            | inl behind ↦
                let low = sift.beyond i (ground (arith, behind)) in
                omega (arith, high, low, swap-Settled P end arr sw heap settled i j le late here')
            | inr front ↦
                let all = sift.bounded (key rank sw.out j) λ m h.
                  swap-Settled P end arr sw heap settled m j (omega (arith, h, late)) late here' in
                omega (arith, high, all i (ground (arith, front)))
          ] in
        let rest =
          extract-Sorts end sift.out sift.kind (omega (arith, inside, sw.size, sift.same_size))
            sift.heap settled' in
        record {
          out = rest.out;
          returns = rw (sw.returns, ◌>>=◌) (rw (sift.returns, ◌>>=◌) rest.returns);
          same_size = rest.same_size ∙ sift.same_size ∙ sw.size;
          in_order = rest.in_order;
        }

    leaf-IsHeap : (arr : List A) → IsHeap rank (length arr / 2) (length arr) arr
    leaf-IsHeap arr c pos here from = absurd (omega (arith, pos, here, from))

    heap_sort_ordered :
        (arr : List A) → length arr < 2 ^ 32 → All P arr → Sorts arr (heap_sort compare arr)
    unfolding heap_sort
    heap_sort_ordered arr small kind = elim (Bool-cases (leb (length arr) 1)) [
      | inl short ↦ record {
        out = arr;
        returns = rw short refl;
        same_size = refl;
        in_order =
            λ i j le here. let e : i ≡ j = ground (arith, short, le, here) in rw e (omega arith);
      }
      | inr long ↦
          let built = build_heap-Builds (length arr / 2) arr kind (omega arith) (leaf-IsHeap arr) in
          let size : suc (length arr - 1) ≡ length arr = ground (arith, long) in
          let sorted =
            extract-Sorts (length arr - 1) built.out built.kind
              (omega (arith, size, built.same_size)) (rw size built.heap)
              (λ i j le late here. absurd (omega (arith, late, here, built.same_size, size))) in
          record {
            out = sorted.out;
            returns =
                rw (long, first_node_lem (length arr) small, ◌>>=◌)
                  (rw (built.returns, ◌>>=◌) sorted.returns);
            same_size = sorted.same_size ∙ built.same_size;
            in_order = sorted.in_order;
          }
    ]

    -- For any array of less than 2 ^ 32 elements for which the comparator tells the order of a rank, heap_sort ends
    -- without an access out of bounds, and its result is a permutation of the array in which no
    -- element has a rank below that of an element before it.
    pub heap_sort-sorts :
        (arr : List A)
        → length arr < 2 ^ 32
        → All P arr
        → (out : List A) × (heap_sort compare arr ≡ some out) × Perm out arr × InOrder out
    heap_sort-sorts arr small kind =
        let (out, run, perm) = heap_sort-Keeps compare arr small in
        let ordered = heap_sort_ordered arr small kind in
        let same : ordered.out ≡ out = some_inj.0 (sym ordered.returns ∙ run) in
        (out, run, perm, rw same at ordered.in_order)
