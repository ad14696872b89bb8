-- ===== src/Order.antt =====
-- Comparators in the convention of qsort, and the orders that they stand for.
pub mod Sorted
pub mod Carried
pub mod Split
pub mod Front
use omwj.Prelude.{ℕ, ◌≡◌}
use omwj.Prelude.Tests.{ltb}
use omwj.Prelude.Word.{is_neg, is_pos}

-- The sign of `cmp a b` is the order of the two ranks.
abbrev pub Agrees {ℓ} : {A : Type ℓ} → (A → A → ℕ) → (A → ℕ) → Type ℓ
Agrees {A = A} cmp rank =
    (a b : A)
    → (is_neg (cmp a b) ≡ ltb (rank a) (rank b)) × (is_pos (cmp a b) ≡ ltb (rank b) (rank a))

-- The rank of sort padding.
abbrev pub pad_rank : ℕ
pad_rank = 1267650600228229401496703205376
