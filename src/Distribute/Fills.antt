-- ===== src/Distribute/Fills.antt =====
-- The distribution network and the expansion together: each slot holds the row whose copies it is
-- meant for.
use mathlib.Core.Path.{subst}
use omwj.Prelude.{
  ℕ, zero, suc, ◌+◌, ◌≤◌, ◌<◌, ◌≡◌, refl, sym, ap, ◌∙◌, Bool, true, false, List, [], ◌∷◌, some, inl,
  inr, arith,
}
use omwj.Prelude.Tests.{if◌then◌else◌}
use omwj.Prelude.Lists.{get_elem?, pass_from, linear_pass}
use omwj.Prelude.Word.{eq32}
use omwj.Constants.{dist_padding}
use omwj.Trow.{Trow}
use omwj.Distribute.{expand_step, network}
use omwj.Distribute.Routes.{bare, Slot, Cover}
use omwj.Distribute.Arrives.{spread, network-arrives}

expand_row : (prev t : Trow) → eq32 t.field_type dist_padding ≡ false → expand_step prev t ≡ t
unfolding expand_step
expand_row prev t h =
    let chosen : Bool → Trow = λ b. if b then prev else t in
    ap (λ b. record (chosen b) { index = t.index }) h

expand_pad :
    (prev t : Trow)
    → eq32 t.field_type dist_padding ≡ true
    → expand_step prev t ≡ record prev { index = t.index }
unfolding expand_step
expand_pad prev t h =
    let chosen : Bool → Trow = λ b. if b then prev else t in
    ap (λ b. record (chosen b) { index = t.index }) h

module _ (n m : ℕ) (d : ℕ → ℕ) (c : ℕ → Trow)
    (known : (i : ℕ) → i < m → ((c i).dst_idx ≡ d i) × (eq32 (c i).field_type dist_padding ≡ false))
    (inside : (i : ℕ) → i < m → d i < n) (small : n ≤ 2147483648)
    (ordered : (i : ℕ) → suc i < m → d i < d (suc i)) where
  -- Row i is the last whose destination is at most p.
  abbrev pub LastBefore : ℕ → ℕ → Type 0
  LastBefore p i = (i < m) × (d i ≤ p) × ((k : ℕ) → i < k → k < m → p < d k)

  abbrev pub Filled : ℕ → Trow → Type 0
  Filled p t = (i : ℕ) × LastBefore p i × (bare t ≡ c i)

  abbrev Shifted : ℕ → List Trow → Type 0
  Shifted p xs =
      (r : ℕ)
      → p + r < n
      → (t : Trow) × (get_elem? xs r ≡ some t)
        × (t.index ≡ p + r)
        × Slot n m d c known inside small d (p + r) t

  abbrev FilledFrom : ℕ → List Trow → Type 0
  FilledFrom p xs =
      (r : ℕ)
      → p + r < n
      → (t : Trow) × (get_elem? xs r ≡ some t) × (t.index ≡ p + r) × Filled (p + r) t

  Shifted-tail : (p : ℕ) (x : Trow) (xs : List Trow) → Shifted p (x ∷ xs) → Shifted (suc p) xs
  Shifted-tail p x xs h r b =
      let (t, at, index, slot) = h (suc r) (omega (arith, b)) in
      let same : p + suc r ≡ suc p + r = omega arith in
      (t, at, index ∙ same, subst (λ q. Slot n m d c known inside small d q t) same slot)

  -- a row that arrived at slot p
  arrived : (p i : ℕ) → i < m → d i ≡ p → LastBefore p i
  arrived p i h e = (
    h,
    omega (arith, e),
    λ k a b.
        let apart = spread n m d c known inside small ordered i k a b in omega (arith, e, apart),
  )

  -- One slot: a row of its own, or a copy of the row before.
  fill_next :
      (p : ℕ) (prev x : Trow)
      → Filled p prev
      → x.index ≡ suc p
      → Slot n m d c known inside small d (suc p) x
      → ((expand_step prev x).index ≡ suc p) × Filled (suc p) (expand_step prev x)
  fill_next p prev x filled index (inl (i, h, e, row)) =
      let real : eq32 x.field_type dist_padding ≡ false =
        ap (λ t. eq32 t.field_type dist_padding) row ∙ (known i h).1 in
      rw (expand_row prev x real) (index, (i, arrived (suc p) i h e, row))
  fill_next p prev x (i, (h, low, next), row) index (inr (pad, free)) = rw (expand_pad prev x pad) (
    index,
    (
      i,
      (
        h,
        omega (arith, low),
        λ k a b. let later = next k a b in let other = free k b in ground (arith, later, other),
      ),
      row,
    ),
  )

  head_index :
      (p : ℕ) (x : Trow) (xs : List Trow)
      → p < n
      → Shifted p (x ∷ xs)
      → (x.index ≡ p) × Slot n m d c known inside small d p x
  head_index p x xs b h =
      let (t, at, index, slot) = h 0 (omega (arith, b)) in
      let same : t ≡ x = cc in
      let here : p + 0 ≡ p = omega arith in
      (
        ap (λ y. y.index) (sym same) ∙ index ∙ here,
        subst (λ y. Slot n m d c known inside small d p y) same
            (subst (λ q. Slot n m d c known inside small d q t) here slot),
      )

  fill_from :
      (p : ℕ) (prev : Trow) (xs : List Trow)
      → Filled p prev
      → Shifted (suc p) xs
      → FilledFrom (suc p) (pass_from expand_step prev xs)
  fill_from p prev [] filled h r b =
      let (t, at, index, slot) = h r b in let no : ⊥ = cc in absurd no
  fill_from p prev (x ∷ xs) filled h zero b =
      let (at, slot) = head_index (suc p) x xs (omega (arith, b)) h in
      let (index, filled') = fill_next p prev x filled at slot in
      let here : suc p ≡ suc p + 0 = omega arith in
      (
        expand_step prev x,
        refl,
        index ∙ here,
        subst (λ q. Filled q (expand_step prev x)) here filled',
      )
  fill_from p prev (x ∷ xs) filled h (suc r) b =
      let (at, slot) = head_index (suc p) x xs (omega (arith, b)) h in
      let (index, filled') = fill_next p prev x filled at slot in
      let (t, at', index', filled'') =
        fill_from (suc p) (expand_step prev x) xs filled' (Shifted-tail (suc p) x xs h) r
          (omega (arith, b)) in
      let same : suc (suc p) + r ≡ suc p + suc r = omega arith in
      (t, at', index' ∙ same, subst (λ q. Filled q t) same filled'')

  fill_all :
      (arr : List Trow)
      → 0 < m
      → d 0 ≡ 0
      → Shifted 0 arr
      → (p : ℕ) → p < n
      → (t : Trow) × (get_elem? (linear_pass expand_step arr) p ≡ some t)
        × (t.index ≡ p)
        × Filled p t
  fill_all [] some_rows first h p b =
      let (t, at, index, slot) = h p (omega (arith, b)) in let no : ⊥ = cc in absurd no
  fill_all (x ∷ xs) some_rows first h p b =
      let some_slots : 0 < n = omega (arith, inside 0 some_rows) in
      let (index, slot) = head_index 0 x xs some_slots h in
      by_place x xs h index (first_row slot) p b
    where
      first_row : Slot n m d c known inside small d 0 x → Filled 0 x
      first_row (inl (i, k, e, row)) = (i, arrived 0 i k e, row)
      first_row (inr (pad, free)) = absurd (free 0 some_rows first)

      by_place :
          (x : Trow) (xs : List Trow)
          → Shifted 0 (x ∷ xs)
          → x.index ≡ 0
          → Filled 0 x
          → (p : ℕ) → p < n
          → (t : Trow) × (get_elem? (linear_pass expand_step (x ∷ xs)) p ≡ some t)
            × (t.index ≡ p)
            × Filled p t
      by_place x xs h index filled zero b = (x, refl, index, filled)
      by_place x xs h index filled (suc p) b =
          let (t, at, index', filled') =
            fill_from 0 x xs filled (Shifted-tail 0 x xs h) p (omega (arith, b)) in
          let same : suc 0 + p ≡ suc p = omega arith in
          (t, at, index' ∙ same, subst (λ q. Filled q t) same filled')

  at_start : (arr : List Trow) → Cover n m d c known inside small d arr → Shifted 0 arr
  at_start arr h r b =
      let same : r ≡ 0 + r = omega arith in
      let (t, at, index, slot) = h r (omega (arith, b)) in
      (t, at, index ∙ same, subst (λ q. Slot n m d c known inside small d q t) same slot)

  -- Let an array of n slots, n at most 2 ^ 31, hold m rows in its first slots, m at least 1, whose
  -- destinations start at 0, strictly increase and are below n, and distribution padding in the
  -- other slots, and let each slot have its number as its index. Then the distribution network
  -- and the expansion pass give an array in which every slot below n holds, with all its fields but
  -- the index, the last row whose destination is not behind the slot: a row fills the slots from its
  -- destination up to that of the next row.
  pub network-LastBefore :
      (arr : List Trow)
      → 0 < m
      → d 0 ≡ 0
      → Cover n m d c known inside small (λ i. i) arr
      → (out : List Trow) × (network n arr ≡ some out)
        × ((p : ℕ)
            → p < n
            → (t : Trow) × (get_elem? (linear_pass expand_step out) p ≡ some t)
              × (t.index ≡ p)
              × Filled p t)
  network-LastBefore arr some_rows first cover =
      let some_slots : 0 < n = omega (arith, inside 0 some_rows) in
      let (out, run, placed) =
        network-arrives n m d c known inside small ordered arr some_slots cover in
      (out, run, fill_all out some_rows first (at_start out placed))
