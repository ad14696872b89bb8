-- ===== src/Batching/Heap/Kept.antt =====
-- heap_sort ends inside its array and keeps its elements.
use mathlib.Core.List.Perm
use omwj.Prelude.{
  ℕ, zero, suc, ◌+◌, ◌-◌, ◌*◌, ◌/◌, ◌^◌, ◌≤◌, ◌<◌, ◌≡◌, ◌≢◌, refl, ◌∙◌, Bool, true, List, Option,
  some, Perm, inl, inr, ◌⊎◌, arith,
}
use omwj.Prelude.Tests.{leb, ltb, ◌==◌, if◌then◌else◌, Bool-cases}
use omwj.Prelude.Lists.{length, set, get_elem?-lt}
use omwj.Prelude.Partial.{◌>>=◌}
use omwj.Prelude.Word.{is_neg}
use omwj.Order.Carried.{length-Perm}
use omwj.Waksman.Switch.{exchange-perm}
use omwj.Batching.Heap.{
  heap_swap, pick_child, heapify_down, larger, build_heap, extract, first_node, heap_sort,
}

-- Below 2 ^ 32 elements the conversion to an int keeps the number of nodes.
pub first_node_lem : (size : ℕ) → size < 2 ^ 32 → first_node (size / 2) ≡ some (size / 2)
unfolding first_node is_neg
first_node_lem size small = ground (arith, small)

module _ {A : Type 0} where
  -- A run that returns a permutation of the array.
  abbrev pub Keeps : List A → Option (List A) → Type 0
  Keeps arr r = (out : List A) × (r ≡ some out) × Perm out arr

  then-Keeps :
      (arr : List A) (r : Option (List A)) (f : List A → Option (List A))
      → Keeps arr r
      → ((mid : List A) → length mid ≡ length arr → Keeps mid (f mid))
      → Keeps arr (r >>= f)
  then-Keeps arr r f (mid, run, p) rest =
      let (out, run', q) = rest mid (length-Perm p) in (out, rw (run, ◌>>=◌) run', Perm.trans q p)

  heap_swap-Keeps :
      (i j : ℕ) (arr : List A)
      → i < length arr
      → j < length arr
      → i ≢ j
      → Keeps arr (heap_swap i j arr)
  unfolding heap_swap
  heap_swap-Keeps i j arr h k apart =
      let (x, at_i) = get_elem?-lt arr i h in
      let (y, at_j) = get_elem?-lt arr j k in
      (set (set arr i y) j x, rw (at_i, at_j) refl, exchange-perm arr i j x y at_i at_j apart true)

  module _ (before : A → A → Bool) where
    -- The chosen slot is the one so far, or the child inside the heap.
    pick_child-ok :
        (size child chosen : ℕ) (arr : List A)
        → size ≤ length arr
        → chosen < length arr
        → (k : ℕ) × (pick_child before size child chosen arr ≡ some k)
          × ((k ≡ chosen) ⊎ ((k ≡ child) × (child < size)))
    unfolding pick_child
    pick_child-ok size child chosen arr fits inside = elim (Bool-cases (ltb child size)) [
      | inr out ↦ (chosen, rw out refl, inl refl)
      | inl here ↦
          let (x, at_child) = get_elem?-lt arr child (ground (arith, here, fits)) in
          let (y, at_chosen) = get_elem?-lt arr chosen inside in
          let below : child < size = ground (arith, here) in
          elim (Bool-cases (before x y)) [
            | inl first ↦ (child, rw (here, at_child, at_chosen, first) refl, inr (refl, below))
            | inr later ↦ (chosen, rw (here, at_child, at_chosen, later) refl, inl refl)
          ]
    ]

    pub down_step :
        (fuel size i l s : ℕ) (arr : List A) {r : Option (List A)}
        → pick_child before size (2 * i + 1) i arr ≡ some l
        → pick_child before size (2 * i + 2) l arr ≡ some s
        → (if s == i then some arr else heap_swap i s arr >>= heapify_down before fuel size s) ≡ r
        → heapify_down before (suc fuel) size i arr ≡ r
    unfolding heapify_down
    down_step fuel size i l s arr left right run = rw (left, ◌>>=◌) (rw (right, ◌>>=◌) run)

    heapify_down-Keeps :
        (fuel size i : ℕ) (arr : List A)
        → size ≤ length arr
        → i < size
        → size ≤ i + fuel
        → Keeps arr (heapify_down before fuel size i arr)
    unfolding heapify_down
    heapify_down-Keeps zero size i arr fits inside enough = absurd (omega arith)
    heapify_down-Keeps (suc fuel) size i arr fits inside enough =
        let (l, left, by_left) = pick_child-ok size (2 * i + 1) i arr fits (omega arith) in
        let l_inside : l < length arr = elim by_left [
          | inl e ↦ omega arith
          | inr (e, b) ↦ omega arith
        ] in
        let (s, right, by_right) = pick_child-ok size (2 * i + 2) l arr fits l_inside in
        let s_inside : s < length arr = elim by_right [
          | inl e ↦ omega arith
          | inr (e, b) ↦ omega arith
        ] in
        elim (Bool-cases (s == i)) [
          | inl same ↦ (arr, down_step fuel size i l s arr left right (rw same refl), Perm.rfl)
          | inr other ↦
              let apart : s ≢ i = λ e. ground (arith, other, e) in
              let low : (l ≡ i) ⊎ ((i < l) × (l < size)) = elim by_left [
                | inl e ↦ inl e
                | inr (e, b) ↦ inr (omega arith, omega arith)
              ] in
              let high : (i < s) × (s < size) = elim by_right [
                | inl e ↦ elim low [
                  | inl f ↦ absurd (apart (e ∙ f))
                  | inr (f, g) ↦ (omega arith, omega arith)
                ]
                | inr (e, b) ↦ (omega arith, omega arith)
              ] in
              let (out, run, p) =
                then-Keeps arr (heap_swap i s arr) (heapify_down before fuel size s)
                  (heap_swap-Keeps i s arr (omega arith) s_inside (λ e. omega (arith, high, e)))
                  (λ mid same.
                    heapify_down-Keeps fuel size s mid (omega (arith, same)) high.1
                      (omega (arith, high))) in
              (out, down_step fuel size i l s arr left right (rw other run), p)
        ]

  module _ (compare : A → A → ℕ) where
    build_heap-Keeps :
        (size i : ℕ) (arr : List A)
        → size ≤ length arr
        → i ≤ size
        → Keeps arr (build_heap compare size i arr)
    unfolding build_heap
    build_heap-Keeps size zero arr fits inside = (arr, refl, Perm.rfl)
    build_heap-Keeps size (suc i) arr fits inside =
        then-Keeps arr (heapify_down (larger compare) size size i arr) (build_heap compare size i)
          (heapify_down-Keeps (larger compare) size size i arr fits (omega arith) (omega arith))
          (λ mid same. build_heap-Keeps size i mid (omega (arith, same)) (omega arith))

    extract-Keeps :
        (end : ℕ) (arr : List A) → end < length arr → Keeps arr (extract compare end arr)
    unfolding extract
    extract-Keeps zero arr inside = (arr, refl, Perm.rfl)
    extract-Keeps (suc end) arr inside =
        let heap = heapify_down (larger compare) (suc end) (suc end) 0 in
        let step =
          then-Keeps arr (heap_swap 0 (suc end) arr) heap
            (heap_swap-Keeps 0 (suc end) arr (omega arith) inside (λ e. omega (arith, e)))
            (λ mid same.
              heapify_down-Keeps (larger compare) (suc end) (suc end) 0 mid (omega (arith, same))
                (omega arith) (omega arith)) in
        then-Keeps arr (heap_swap 0 (suc end) arr >>= heap) (extract compare end) step
          (λ mid same. extract-Keeps end mid (omega (arith, same)))

    -- For any comparison and any array of less than 2 ^ 32 elements, heap_sort ends without an access
    -- out of bounds, and its result is a permutation of the array.
    pub heap_sort-Keeps : (arr : List A) → length arr < 2 ^ 32 → Keeps arr (heap_sort compare arr)
    unfolding heap_sort
    heap_sort-Keeps arr small = elim (Bool-cases (leb (length arr) 1)) [
      | inl short ↦ (arr, rw short refl, Perm.rfl)
      | inr long ↦
          let (out, run, p) =
            then-Keeps arr (build_heap compare (length arr) (length arr / 2) arr)
              (extract compare (length arr - 1))
              (build_heap-Keeps (length arr) (length arr / 2) arr (omega arith) (omega arith))
              (λ mid same. extract-Keeps (length arr - 1) mid (ground (arith, same, long))) in
          (out, rw (long, first_node_lem (length arr) small, ◌>>=◌) run, p)
    ]
