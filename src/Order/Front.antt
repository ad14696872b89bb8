-- ===== src/Order/Front.antt =====
-- The elements of a sorted list below a rank, where these can be put in strictly ascending order.
use mathlib.Core.Logic.{∥∥₁_elim, ∥∥₁_map}
use mathlib.Core.List.{Permᴰ}
use omwj.Prelude.{ℕ, ◌≤◌, ◌<◌, ◌≡◌, ap, ◌∙◌, List, ◌++◌, map, Perm}
use omwj.Prelude.Lists.{All}
use omwj.Order.Sorted.{IsSorted, IsStrict}
use omwj.Order.Split.{
  above, below-append-above, below-Permᴰ, above-Permᴰ, below-IsSorted, sorted-eq_of_strict,
}

module _ {ℓ κ} {A : Type ℓ} {B : Type κ} (f : A → B) where
  pub map-Permᴰ : {xs ys : List A} → Permᴰ xs ys → Permᴰ (map f xs) (map f ys)
  map-Permᴰ Permᴰ.nil = Permᴰ.nil
  map-Permᴰ (Permᴰ.cons e p) = Permᴰ.cons (ap f e) (map-Permᴰ p)
  map-Permᴰ (Permᴰ.swap e g) = Permᴰ.swap (ap f e) (ap f g)
  map-Permᴰ (Permᴰ.trans p q) = Permᴰ.trans (map-Permᴰ p) (map-Permᴰ q)

module _ {A : Type 0} (A_set : IsSet (List A)) (rank : A → ℕ) (k : ℕ) (xs front back : List A)
    (strict : IsStrict rank front) (s : IsSorted rank xs) (p : Perm xs (front ++ back))
    (lows : All (λ x. rank x < k) front) (highs : All (λ x. k ≤ rank x) back) where
  -- The list starts with the front, in the front's order.
  pub sorted_front : xs ≡ front ++ above rank k xs
  sorted_front = ∥∥₁_elim p (A_set _ _) λ q.
      let same =
        sorted-eq_of_strict rank front strict (below-IsSorted rank k xs s)
          (below-Permᴰ rank k front back s q lows highs) in
      below-append-above rank k xs s ∙ ap (λ l. l ++ above rank k xs) same

  -- and goes on with the others.
  pub sorted_back : Perm (above rank k xs) back
  sorted_back = ∥∥₁_map p λ q. above-Permᴰ rank k front back s q lows highs
