-- ===== src/Order/Split.antt =====
-- What a sorted permutation of a list looks like: the elements below a rank come first, and a
-- strictly ascending list is its only sorted permutation.
use mathlib.Core.List.Permᴰ
use mathlib.Core.List.{Permᴰ}
use omwj.Prelude.{
  ℕ, suc, ◌≤◌, ◌<◌, ◌≡◌, refl, ap, ◌∙◌, Bool, true, false, List, [], ◌∷◌, ◌++◌, not, inl, inr,
  arith,
}
use omwj.Prelude.Tests.{ltb, Bool-cases, lt→ltb}
use omwj.Prelude.Lists.{length, All}
use omwj.Order.Sorted.{
  length-Permᴰ, All-Permᴰ, All-imp, keep, keep-Permᴰ, keep-append, keep-All, keep_none, IsSorted,
  IsStrict, IsSorted-left, IsSorted-right,
}

module _ {ℓ} {A : Type ℓ} (rank : A → ℕ) (k : ℕ) where
  abbrev low : A → Bool
  low x = ltb (rank x) k

  abbrev high : A → Bool
  high x = not (ltb (rank x) k)

  pub below : List A → List A
  below = keep low

  pub above : List A → List A
  above = keep high

  All-low : (xs : List A) → All (λ x. rank x < k) xs → All (λ x. low x ≡ true) xs
  All-low = All-imp _ _ λ x h. lt→ltb _ _ h

  All-high : (xs : List A) → All (λ x. k ≤ rank x) xs → All (λ x. high x ≡ true) xs
  All-high = All-imp _ _ λ x h. ground arith

  no_high : (xs : List A) → All (λ x. rank x < k) xs → All (λ x. high x ≡ false) xs
  no_high = All-imp _ _ λ x h. ground arith

  no_low : (xs : List A) → All (λ x. k ≤ rank x) xs → All (λ x. low x ≡ false) xs
  no_low = All-imp _ _ λ x h. ground arith

  -- A sorted list is its elements below `k`, then the others.
  pub below-append-above : (xs : List A) → IsSorted rank xs → xs ≡ below xs ++ above xs
  unfolding below above keep
  below-append-above [] s = refl
  below-append-above (x ∷ xs) s = elim (Bool-cases (ltb (rank x) k)) [
    | inl h ↦ rw h (ap (◌∷◌ x) (below-append-above xs s.1))
    | inr h ↦
        let rest = All-imp _ _ (λ y (p : rank x ≤ rank y). absurd_le x y h p) xs s.0 in
        rw (h, keep_none low xs (no_low xs rest), keep-All high xs (All-high xs rest))
  ]
    where
      absurd_le : (x y : A) → ltb (rank x) k ≡ false → rank x ≤ rank y → k ≤ rank y
      absurd_le x y h p = ground arith

  module _ {xs : List A} (ys zs : List A) (s : IsSorted rank xs) (p : Permᴰ xs (ys ++ zs))
      (lows : All (λ x. rank x < k) ys) (highs : All (λ x. k ≤ rank x) zs) where
    pub below-Permᴰ : Permᴰ (below xs) ys
    unfolding below
    below-Permᴰ =
        let e : keep low (ys ++ zs) ≡ ys =
          rw
            (
              keep-append low ys zs,
              keep-All low ys (All-low ys lows),
              keep_none low zs (no_low zs highs),
            )
            (mathlib.Core.List.append-nil ys) in
        rw e at (keep-Permᴰ low p)

    pub above-Permᴰ : Permᴰ (above xs) zs
    unfolding above
    above-Permᴰ =
        let e : keep high (ys ++ zs) ≡ zs =
          rw
            (
              keep-append high ys zs,
              keep_none high ys (no_high ys lows),
              keep-All high zs (All-high zs highs),
            )
            refl in
        rw e at (keep-Permᴰ high p)

  pub below-IsSorted : (xs : List A) → IsSorted rank xs → IsSorted rank (below xs)
  below-IsSorted xs s = IsSorted-left rank (below xs) (above xs) (rw (below-append-above xs s) at s)

  pub above-IsSorted : (xs : List A) → IsSorted rank xs → IsSorted rank (above xs)
  above-IsSorted xs s =
      IsSorted-right rank (below xs) (above xs) (rw (below-append-above xs s) at s)

module _ {ℓ} {A : Type ℓ} (rank : A → ℕ) where
  singleton_Permᴰ : (a : A) {xs : List A} → Permᴰ xs (a ∷ []) → xs ≡ a ∷ []
  singleton_Permᴰ a {xs} p =
      go xs (length-Permᴰ p) (All-Permᴰ (λ y. y ≡ a) (Permᴰ.symm p) (refl, tt))
    where
      go : (ys : List A) → length ys ≡ 1 → All (λ y. y ≡ a) ys → ys ≡ a ∷ []
      go [] e h = absurd (omega arith)
      go (y ∷ []) e h = ap (λ z. z ∷ []) h.0
      go (y ∷ z ∷ zs) e h = absurd (omega arith)

  -- The only sorted permutation of a strictly ascending list is the list itself.
  pub sorted-eq_of_strict :
      (ys : List A) {xs : List A} → IsStrict rank ys → IsSorted rank xs → Permᴰ xs ys → xs ≡ ys
  sorted-eq_of_strict [] {xs} st s p = go xs (length-Permᴰ p)
    where
      go : (zs : List A) → length zs ≡ 0 → zs ≡ []
      go [] e = refl
      go (z ∷ zs) e = absurd (omega arith)
  sorted-eq_of_strict (a ∷ ys) {xs} st s p =
      let k = suc (rank a) in
      let front = below-Permᴰ rank k (a ∷ []) ys s p (omega arith, tt) st.0 in
      let back = above-Permᴰ rank k (a ∷ []) ys s p (omega arith, tt) st.0 in
      let rest = sorted-eq_of_strict ys st.1 (above-IsSorted rank k xs s) back in
      below-append-above rank k xs s ∙ rw (singleton_Permᴰ a front, rest) refl
