-- ===== src/Batching/Heap/Sifts.antt =====
-- One sift of heap_sort: an array whose edges are in order but for those below one node becomes a
-- heap. The order is that of a rank, which the comparator tells for elements of a kind.
use omwj.Prelude.{
  ℕ, zero, suc, ◌-◌, ◌/◌, ◌≤◌, ◌<◌, ◌≡◌, refl, ◌∙◌, List, [], ◌∷◌, Option, some, inl, inr, ◌⊎◌,
  arith,
}
use omwj.Prelude.Tests.{ltb, ◌==◌, if◌then◌else◌, Bool-cases}
use omwj.Prelude.Lists.{length, get_elem?, set, get_elem?-lt, length-set, All}
use omwj.Batching.Heap.{heap_swap, pick_child, larger}

abbrev pub parent : ℕ → ℕ
parent c = (c - 1) / 2

module _ {A : Type 0} (rank : A → ℕ) where
  -- The rank of an element by its place.
  abbrev pub key : List A → ℕ → ℕ
  key [] i = 0
  key (x ∷ xs) zero = rank x
  key (x ∷ xs) (suc i) = key xs i

  key-get_elem? : (xs : List A) (i : ℕ) {x : A} → get_elem? xs i ≡ some x → key xs i ≡ rank x
  key-get_elem? [] i e = cc
  key-get_elem? (y ∷ xs) zero e = cc
  key-get_elem? (y ∷ xs) (suc i) e = key-get_elem? xs i e

  key-set :
      (xs : List A) (i : ℕ) (v : A) (c : ℕ)
      → i < length xs
      → key (set xs i v) c ≡ (if c == i then rank v else key xs c)
  key-set [] i v c h = absurd (omega arith)
  key-set (y ∷ xs) zero v zero h = refl
  key-set (y ∷ xs) zero v (suc c) h = ground arith
  key-set (y ∷ xs) (suc i) v zero h = ground arith
  key-set (y ∷ xs) (suc i) v (suc c) h = ground (arith, key-set xs i v c (omega arith))

  pub All-get_elem? :
      (P : A → Type 0) (xs : List A) (i : ℕ) {x : A} → All P xs → get_elem? xs i ≡ some x → P x
  All-get_elem? P [] i h e = cc
  All-get_elem? P (y ∷ xs) zero h e = let same : y ≡ _ = cc in rw same at h.0
  All-get_elem? P (y ∷ xs) (suc i) h e = All-get_elem? P xs i h.1 e

  pub All-set : (P : A → Type 0) (xs : List A) (i : ℕ) (v : A) → All P xs → P v → All P (set xs i v)
  All-set P [] i v h p = tt
  All-set P (y ∷ xs) zero v h p = (p, h.1)
  All-set P (y ∷ xs) (suc i) v h p = (h.0, All-set P xs i v h.1 p)

  -- The comparator tells the order of the ranks for elements of the kind.
  abbrev pub Tells : (A → Type 0) → (A → A → ℕ) → Type 0
  Tells P compare = (x y : A) → P x → P y → (compare x y == 1) ≡ ltb (rank x) (rank y)

  -- A run of two changed places.
  pub record Swapped (P : A → Type 0) (i j : ℕ) (arr : List A) (r : Option (List A)) : Type 0 where
    pub out : List A
    pub returns : r ≡ some out
    pub size : length out ≡ length arr
    pub kind : All P out
    pub keys :
        (c : ℕ)
        → key out c ≡ (if c == j then key arr i else (if c == i then key arr j else key arr c))

  pub heap_swap-Swapped :
      (P : A → Type 0) (i j : ℕ) (arr : List A)
      → i < length arr
      → j < length arr
      → All P arr
      → Swapped P i j arr (heap_swap i j arr)
  unfolding heap_swap
  heap_swap-Swapped P i j arr h k kind =
      let (x, at_i) = get_elem?-lt arr i h in
      let (y, at_j) = get_elem?-lt arr j k in
      let first = set arr i y in
      let same = length-set arr i y in
      let kind' = All-set P arr i y kind (All-get_elem? P arr j kind at_j) in
      record {
        out = set first j x;
        returns = rw (at_i, at_j) refl;
        size = length-set first j x ∙ same;
        kind = All-set P first j x kind' (All-get_elem? P arr i kind at_i);
        keys = λ c. ground (
          arith,
          key-set first j x c (omega (arith, same)),
          key-set arr i y c h,
          key-get_elem? arr i at_i,
          key-get_elem? arr j at_j,
        );
      }

  module _ (P : A → Type 0) (compare : A → A → ℕ) (tells : Tells P compare) where
    -- The slot so far, with no greater child, or the child, which is greater.
    pub pick_child-key :
        (size child chosen : ℕ) (arr : List A)
        → All P arr
        → size ≤ length arr
        → chosen < length arr
        → (k : ℕ) × (pick_child (larger compare) size child chosen arr ≡ some k)
          × (((k ≡ chosen) × (child < size → key arr child ≤ key arr chosen))
              ⊎ ((k ≡ child) × (child < size) × (key arr chosen < key arr child)))
    unfolding pick_child
    pick_child-key size child chosen arr kind fits inside = elim (Bool-cases (ltb child size)) [
      | inr out ↦ (chosen, rw out refl, inl (refl, λ here. absurd (ground (arith, out, here))))
      | inl here ↦
          let below : child < size = ground (arith, here) in
          let (x, at_child) = get_elem?-lt arr child (omega (arith, fits, below)) in
          let (y, at_chosen) = get_elem?-lt arr chosen inside in
          let told =
            tells y x (All-get_elem? P arr chosen kind at_chosen)
              (All-get_elem? P arr child kind at_child) in
          let kx = key-get_elem? arr child at_child in
          let ky = key-get_elem? arr chosen at_chosen in
          elim (Bool-cases (ltb (rank y) (rank x))) [
            | inl first ↦ (
              child,
              rw (here, at_child, at_chosen, told ∙ first) refl,
              inr (refl, below, ground (arith, kx, ky, first)),
            )
            | inr later ↦ (
              chosen,
              rw (here, at_child, at_chosen, told ∙ later) refl,
              inl (refl, λ _. ground (arith, kx, ky, later)),
            )
          ]
    ]
