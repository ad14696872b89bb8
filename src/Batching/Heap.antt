-- ===== src/Batching/Heap.antt =====
-- baselines/batching/enclave/trusted/algorithms/min_heap.c: heap_sort, and the heap of the merge,
-- whose entries and run indices are one list of pairs here. `compare a b` is 1 if a is below b. An
-- access out of bounds is none.
pub mod Kept
pub mod Sifts
pub mod Down
pub mod Sorts
use omwj.Prelude.{
  ℕ, zero, suc, ◌+◌, ◌-◌, ◌*◌, ◌/◌, ◌%◌, Bool, ◌&&◌, List, [], ◌∷◌, ◌++◌, Option, none, some,
}
use omwj.Prelude.Tests.{leb, ltb, ◌==◌, if◌then◌else◌}
use omwj.Prelude.Lists.{length, get_elem?, set, take}
use omwj.Prelude.Partial.{◌>>=◌}
use omwj.Prelude.Word.{modulus, is_neg}

-- `(int)(size / 2)` nodes are visited: none for a negative value, and for INT_MIN the `- 1` overflows.
unfoldable pub first_node : ℕ → Option ℕ
first_node half =
    let nodes = half % modulus in
    if nodes == 2147483648 then none else (if is_neg nodes then some 0 else some nodes)

module _ {A : Type 0} where
  -- heap_swap, and the swaps written out in heap_sort
  unfoldable pub heap_swap : ℕ → ℕ → List A → Option (List A)
  heap_swap i j arr = do x ← get_elem? arr i; y ← get_elem? arr j; some (set (set arr i y) j x)

  module _ (before : A → A → Bool) where
    -- The child, if it is in the heap and comes before the element chosen so far.
    unfoldable pub pick_child : ℕ → ℕ → ℕ → List A → Option ℕ
    pick_child size child chosen arr =
        if ltb child size
        then get_elem? arr child
          >>= (λ x. get_elem? arr chosen >>= (λ y. some (if before x y then child else chosen)))
        else some chosen

    -- heapify_down, and the two loops of heap_sort that are the same
    unfoldable pub heapify_down : ℕ → ℕ → ℕ → List A → Option (List A)
    unfolding pick_child heap_swap
    heapify_down zero size i arr = none
    heapify_down (suc fuel) size i arr = do
      by_left ← pick_child size (2 * i + 1) i arr
      smallest ← pick_child size (2 * i + 2) by_left arr
      if smallest == i
          then some arr
          else heap_swap i smallest arr >>= heapify_down fuel size smallest

  module _ (compare : A → A → ℕ) where
    -- the order of heap_sort, which wants larger elements at the top
    abbrev pub larger : A → A → Bool
    larger x y = compare y x == 1

    -- the first loop, over the nodes below i, which an int numbers
    unfoldable pub build_heap : ℕ → ℕ → List A → Option (List A)
    unfolding heapify_down
    build_heap size zero arr = some arr
    build_heap size (suc i) arr = heapify_down larger size size i arr >>= build_heap size i

    -- the second loop, from the last slot of the heap on
    unfoldable pub extract : ℕ → List A → Option (List A)
    unfolding heapify_down heap_swap
    extract zero arr = some arr
    extract (suc end) arr =
        heap_swap 0 (suc end) arr >>= heapify_down larger (suc end) (suc end) 0 >>= extract end

    unfoldable pub heap_sort : List A → Option (List A)
    unfolding build_heap extract first_node
    heap_sort arr =
        if leb (length arr) 1
        then some arr
        else (first_node (length arr / 2)
            >>= (λ nodes. build_heap (length arr) nodes arr >>= extract (length arr - 1)))

    -- heapify_up: `compare(parent, child) == 0 && compare(child, parent) == 1`
    unfoldable pub heapify_up : ℕ → ℕ → List A → Option (List A)
    unfolding heap_swap
    heapify_up zero i arr = none
    heapify_up (suc fuel) i arr =
        if i == 0
        then some arr
        else get_elem? arr ((i - 1) / 2) >>= (λ p. get_elem? arr i >>= (λ x.
          if (compare p x == 0) && (compare x p == 1)
          then heap_swap i ((i - 1) / 2) arr >>= heapify_up fuel ((i - 1) / 2)
          else some arr))

    -- heap_push, into a heap of a capacity
    unfoldable pub heap_push : ℕ → A → List A → Option (List A)
    unfolding heapify_up
    heap_push capacity entry heap =
        if leb capacity (length heap)
        then some heap
        else heapify_up (suc (length heap)) (length heap) (heap ++ entry ∷ [])

    -- heap_pop: the minimum and the other elements, or 0 for an empty heap
    unfoldable pub heap_pop : List A → Option (Option (A × List A))
    unfolding heapify_down
    heap_pop [] = some none
    heap_pop (root ∷ rest) =
        let size = length rest in
        if size == 0
        then some (some (root, []))
        else get_elem? (root ∷ rest) size >>= (λ last.
          heapify_down (λ x y. compare x y == 1) size size 0 (take size (last ∷ rest))
          >>= (λ heap. some (some (root, heap))))
