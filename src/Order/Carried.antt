-- ===== src/Order/Carried.antt =====
-- What a permutation carries from one list to the other.
use mathlib.Core.Logic.{∥∥₁_elim}
use mathlib.Core.List.Permᴰ
use native.Mathlib.Nat.{ℕ_set}
use omwj.Prelude.{◌≡◌, List, [], ◌∷◌, Perm}
use omwj.Prelude.Lists.{length, All}
use omwj.Order.Sorted.{All-Permᴰ, length-Permᴰ}

module _ {ℓ} {A : Type ℓ} where
  pub length-Perm : {xs ys : List A} → Perm xs ys → length xs ≡ length ys
  length-Perm p = ∥∥₁_elim p (ℕ_set _ _) length-Permᴰ

  All-prop {κ} : (P : A → Type κ) → ((x : A) → IsProp (P x)) → (xs : List A) → IsProp (All P xs)
  All-prop P prop [] = hlevel
  All-prop P prop (x ∷ xs) = hlevel (prop x, All-prop P prop xs)

  -- A permutation of a list has what each element of the list has.
  pub All-Perm {κ} :
      (P : A → Type κ)
      → ((x : A) → IsProp (P x))
      → {xs ys : List A} → Perm ys xs
      → All P xs
      → All P ys
  All-Perm P prop {ys = ys} p h =
      ∥∥₁_elim p (All-prop P prop ys) (λ q. All-Permᴰ P (Permᴰ.symm q) h)
