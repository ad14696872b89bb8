-- ===== src/Batching/Operations/Plain.antt =====
-- A batch of decrypted rows stays one under every operation of the dispatcher.
use Prim.Native.Nat.{bit_and, bit_and-bitwise}
use omwj.Prelude.{ℕ, zero, suc, ◌%◌, ◌≡◌, refl, ◌∙◌, List, [], ◌∷◌, Option, none, some, inl, inr}
use omwj.Prelude.Tests.{Bool-cases}
use omwj.Prelude.Lists.{length, get_elem?, set, All, length-set}
use omwj.Prelude.Partial.{◌>>=◌}
use omwj.Prelude.Word.{modulus, minus_one, eq32, is_neg}
use omwj.Entry.{Entry}
use omwj.Swap.{swap_loop}
use omwj.Batching.Oblivious.{oblivious_swap, wide_mask}
use omwj.Batching.Operations.{
  BatchOperation, Batch, entry_at, on_row, on_pair, compare_swap, if_paired,
}

-- A property of the result, if there is one.
abbrev pub IfSome {ℓ κ} : {A : Type ℓ} → (A → Type κ) → Option A → Type κ
IfSome P none = Unit
IfSome P (some a) = P a

module _ {ℓ κ} {A : Type ℓ} {B : Type κ} where
  pub IfSome-bind :
      (Q : A → Type 0) (P : B → Type 0) (m : Option A) (f : A → Option B)
      → IfSome Q m
      → ((a : A) → Q a → IfSome P (f a))
      → IfSome P (m >>= f)
  IfSome-bind Q P none f q next = tt
  IfSome-bind Q P (some a) f q next = next a q

abbrev pub IsPlain : Entry → Type 0
IsPlain e = e.is_encrypted ≡ 0

-- As many rows as before, and all of them decrypted.
abbrev pub Steady : ℕ → Batch → Type 0
Steady n b = (length b.data_array ≡ n) × All IsPlain b.data_array

get_elem?-IsPlain :
    (rows : List Entry) (i : ℕ) → All IsPlain rows → IfSome IsPlain (get_elem? rows i)
get_elem?-IsPlain [] i h = tt
get_elem?-IsPlain (e ∷ rows) zero h = h.0
get_elem?-IsPlain (e ∷ rows) (suc i) h = get_elem?-IsPlain rows i h.1

entry_at-IsPlain :
    (rows : List Entry) (idx : ℕ) → All IsPlain rows → IfSome IsPlain (entry_at rows idx)
entry_at-IsPlain rows idx h = elim (Bool-cases (is_neg idx)) [
  | inl negative ↦ rw negative tt
  | inr inside ↦ rw inside (get_elem?-IsPlain rows (idx % modulus) h)
]

set-IsPlain :
    (rows : List Entry) (i : ℕ) (e : Entry)
    → All IsPlain rows
    → IsPlain e
    → All IsPlain (set rows i e)
set-IsPlain [] i e h plain = tt
set-IsPlain (x ∷ rows) zero e h plain = (plain, h.1)
set-IsPlain (x ∷ rows) (suc i) e h plain = (h.0, set-IsPlain rows i e h.1 plain)

pub on_row-Steady :
    (f : Entry → ℕ → Entry × ℕ) (op : BatchOperation) (b : Batch) {n : ℕ}
    → ((e : Entry) (c : ℕ) → IsPlain e → IsPlain (f e c).0)
    → Steady n b
    → IfSome (Steady n) (on_row f op b)
on_row-Steady f op b keeps (size, plain) =
    IfSome-bind IsPlain (Steady _) (entry_at b.data_array op.idx1) _
      (entry_at-IsPlain b.data_array op.idx1 plain)
      λ e h.
        let e' = (f e b.counter).0 in
        let i = op.idx1 % modulus in
        (
          length-set b.data_array i e' ∙ size,
          set-IsPlain b.data_array i e' plain (keeps e b.counter h),
        )

pub on_pair-Steady :
    (f : Entry → Entry → ℕ → Entry × Entry × ℕ) (op : BatchOperation) (b : Batch) {n : ℕ}
    → ((e1 e2 : Entry) (c : ℕ)
        → IsPlain e1
        → IsPlain e2
        → IsPlain (f e1 e2 c).0 × IsPlain (f e1 e2 c).1)
    → Steady n b
    → IfSome (Steady n) (on_pair f op b)
on_pair-Steady f op b keeps (size, plain) =
    IfSome-bind IsPlain (Steady _) (entry_at b.data_array op.idx1) _
      (entry_at-IsPlain b.data_array op.idx1 plain)
      λ e1 h1.
        IfSome-bind IsPlain (Steady _) (entry_at b.data_array op.idx2) _
          (entry_at-IsPlain b.data_array op.idx2 plain)
          λ e2 h2.
            let e1' = (f e1 e2 b.counter).0 in
            let e2' = (f e1 e2 b.counter).1 in
            let (k1, k2) = keeps e1 e2 b.counter h1 h2 in
            let i = op.idx1 % modulus in
            let j = op.idx2 % modulus in
            let first = set b.data_array i e1' in
            (
              length-set first j e2' ∙ length-set b.data_array i e1' ∙ size,
              set-IsPlain first j e2' (set-IsPlain b.data_array i e1' plain k1) k2,
            )

pub if_paired-Steady :
    (f : Entry → Entry → ℕ → Entry × Entry × ℕ) (op : BatchOperation) (b : Batch) {n : ℕ}
    → ((e1 e2 : Entry) (c : ℕ)
        → IsPlain e1
        → IsPlain e2
        → IsPlain (f e1 e2 c).0 × IsPlain (f e1 e2 c).1)
    → Steady n b
    → IfSome (Steady n) (if_paired f op b)
if_paired-Steady f op b keeps h = elim (Bool-cases (eq32 op.idx2 minus_one)) [
  | inl single ↦ rw single h
  | inr pair ↦ rw pair (on_pair-Steady f op b keeps h)
]

pub compare_swap-Steady :
    (f : Entry → Entry → Entry × Entry) (op : BatchOperation) (b : Batch) {n : ℕ}
    → ((e1 e2 : Entry) → IsPlain e1 → IsPlain e2 → IsPlain (f e1 e2).0 × IsPlain (f e1 e2).1)
    → Steady n b
    → IfSome (Steady n) (compare_swap f op b)
compare_swap-Steady f op b keeps h = elim (Bool-cases (eq32 op.idx2 minus_one)) [
  | inl single ↦ rw single tt
  | inr pair ↦ rw pair (
      on_pair-Steady (λ e1 e2 c. let (e1', e2') = f e1 e2 in (e1', e2', c)) op b
        (λ e1 e2 c. keeps e1 e2) h)
]

bit_and_zero : (m : ℕ) → bit_and 0 m ≡ 0
bit_and_zero m = bit_and-bitwise 0 m

-- The masked swap leaves two flags that are both 0.
pub oblivious_swap-IsPlain :
    (e1 e2 : Entry) (s : ℕ)
    → IsPlain e1
    → IsPlain e2
    → IsPlain (oblivious_swap e1 e2 s).0 × IsPlain (oblivious_swap e1 e2 s).1
unfolding oblivious_swap swap_loop
oblivious_swap-IsPlain e1 e2 s h1 h2 = rw (h1, h2, bit_and_zero (wide_mask s)) (refl, refl)
