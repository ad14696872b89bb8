-- ===== src/Distribute/Routes.antt =====
-- One step of the distribution network over an array of rows in known slots.
use omwj.Prelude.{
  ℕ, zero, suc, ◌≤◌, ◌<◌, ◌≡◌, ◌≢◌, refl, sym, ap, ◌∙◌, ◌⊎◌, Bool, true, false, ◌&&◌, not, List, [],
  ◌∷◌, some, inl, inr, arith,
}
use omwj.Prelude.Tests.{leb, ltb}
use omwj.Prelude.Lists.{get_elem?, set}
use omwj.Prelude.Word.{eq32, lt32, skey}
use omwj.Constants.{dist_padding}
use omwj.Swap.{exchange}
use omwj.Trow.{Trow}
use omwj.Distribute.{dist_pair, pair_at}

pub get_elem?-set :
    {A : Type 0} (xs : List A) (i : ℕ) {x : A} (v : A)
    → get_elem? xs i ≡ some x
    → get_elem? (set xs i v) i ≡ some v
get_elem?-set [] i v e = cc
get_elem?-set (y ∷ xs) zero v e = refl
get_elem?-set (y ∷ xs) (suc i) v e = get_elem?-set xs i v e

set_same : {A : Type 0} (xs : List A) (i : ℕ) {x : A} → get_elem? xs i ≡ some x → set xs i x ≡ xs
set_same [] i e = refl
set_same (y ∷ xs) zero {x} e = let same : y ≡ x = cc in ap (λ z. z ∷ xs) (sym same)
set_same (y ∷ xs) (suc i) e = ap (◌∷◌ y) (set_same xs i e)

-- whether the network moves the first row to the second slot
abbrev pub moves : Trow → Trow → Bool
moves e1 e2 = not (lt32 e1.dst_idx e2.index) && not (eq32 e1.field_type dist_padding)

module _ (arr : List Trow) (i j : ℕ) (e1 e2 : Trow) (at_i : get_elem? arr i ≡ some e1)
    (at_j : get_elem? arr j ≡ some e2) where
  abbrev after : Bool → List Trow
  after t =
      let both = exchange t e1 e2 in
      set (set arr i (record both.0 { index = e1.index })) j (record both.1 { index = e2.index })

  pair_run : pair_at i j arr ≡ some (after (moves e1 e2))
  unfolding pair_at dist_pair
  pair_run = rw (at_i, at_j) refl

  pub pair_stays : moves e1 e2 ≡ false → pair_at i j arr ≡ some arr
  pair_stays h =
      let same_i : set arr i e1 ≡ arr = set_same arr i at_i in
      let same_j : set arr j e2 ≡ arr = set_same arr j at_j in
      pair_run ∙ ap (λ t. some (after t)) h ∙ ap (λ xs. some (set xs j e2)) same_i ∙ ap some same_j

  pub pair_moves :
      moves e1 e2 ≡ true
      → pair_at i j arr
        ≡ some (set (set arr i (record e2 { index = e1.index })) j (record e1 { index = e2.index }))
  pair_moves h = pair_run ∙ ap (λ t. some (after t)) h

-- Below 2 ^ 31 the sign does not matter.
lt32-small : (a b : ℕ) → a < 2147483648 → b < 2147483648 → lt32 a b ≡ ltb a b
unfolding lt32 skey
lt32-small a b h k = ground (arith, h, k)

abbrev pub bare : Trow → Trow
bare t = record t { index = 0 }

-- An array of n slots and m rows, row i with the destination d i and the content c i.
module _ (n m : ℕ) (d : ℕ → ℕ) (c : ℕ → Trow)
    (known : (i : ℕ) → i < m → ((c i).dst_idx ≡ d i) × (eq32 (c i).field_type dist_padding ≡ false))
    (inside : (i : ℕ) → i < m → d i < n) (small : n ≤ 2147483648) where
  -- The row in slot p, where row i is in slot q i, or padding.
  abbrev pub Slot : (ℕ → ℕ) → ℕ → Trow → Type 0
  Slot q p t =
      ((i : ℕ) × (i < m) × (q i ≡ p) × (bare t ≡ c i))
      ⊎ ((eq32 t.field_type dist_padding ≡ true) × ((i : ℕ) → i < m → q i ≢ p))

  abbrev pub Cover : (ℕ → ℕ) → List Trow → Type 0
  Cover q arr =
      (p : ℕ) → p < n → (t : Trow) × (get_elem? arr p ≡ some t) × (t.index ≡ p) × Slot q p t

  -- The slots depend on the places of the m rows only.
  pub Cover-same :
      (q q' : ℕ → ℕ) (arr : List Trow) → ((i : ℕ) → i < m → q i ≡ q' i) → Cover q arr → Cover q' arr
  Cover-same q q' arr same cover p h =
      let (t, at_p, index, slot) = cover p h in (t, at_p, index, moved t slot)
    where
      moved : (t : Trow) → Slot q p t → Slot q' p t
      moved t (inl (i, k, at, row)) = inl (i, k, sym (same i k) ∙ at, row)
      moved t (inr (pad, free)) = inr (pad, λ i k e. free i k (same i k ∙ e))

  pub padding_stays : (e1 e2 : Trow) → eq32 e1.field_type dist_padding ≡ true → moves e1 e2 ≡ false
  padding_stays e1 e2 h = ground (arith, h)

  pub row_moves :
      (e1 e2 : Trow) (i j : ℕ)
      → i < m
      → bare e1 ≡ c i
      → e2.index ≡ j
      → j < n
      → moves e1 e2 ≡ leb j (d i)
  row_moves e1 e2 i j h row index below =
      let (dst, real) = known i h in
      let dst' : e1.dst_idx ≡ d i = ap (λ t. t.dst_idx) row ∙ dst in
      let real' : eq32 e1.field_type dist_padding ≡ false =
        ap (λ t. eq32 t.field_type dist_padding) row ∙ real in
      let order : lt32 e1.dst_idx e2.index ≡ ltb (d i) j =
        ap (λ x. lt32 x e2.index) dst'
        ∙ ap (lt32 (d i)) index
        ∙ lt32-small (d i) j (omega (arith, inside i h, small)) (omega arith) in
      rw (order, real') (ground arith)
