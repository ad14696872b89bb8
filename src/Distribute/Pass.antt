-- ===== src/Distribute/Pass.antt =====
-- One pass of the distribution network: each row that is a distance or more before its destination
-- moves on by the distance.
use mathlib.Core.Path.{subst}
use omwj.Prelude.{
  ℕ, suc, ◌+◌, ◌≤◌, ◌<◌, ◌≡◌, ◌≢◌, refl, sym, ap, ◌∙◌, true, false, List, some, inl, inr, arith,
}
use omwj.Prelude.Tests.{leb, ◌==◌, if◌then◌else◌, Bool-cases}
use omwj.Prelude.Lists.{get_elem?, set}
use omwj.Prelude.Word.{eq32}
use omwj.Constants.{dist_padding}
use omwj.Trow.{Trow}
use omwj.Waksman.Switch.{get_elem?-set_ne}
use omwj.Distribute.{pair_at}
use omwj.Distribute.Routes.{
  get_elem?-set, moves, bare, Slot, Cover, Cover-same, pair_stays, pair_moves, padding_stays,
  row_moves,
}

-- The place of a row after a pass, and in a pass that has reached slot j.
abbrev pub next : ℕ → (ℕ → ℕ) → (ℕ → ℕ) → ℕ → ℕ
next distance d pos i = if leb (pos i + distance) (d i) then pos i + distance else pos i

abbrev pub midway : ℕ → (ℕ → ℕ) → (ℕ → ℕ) → ℕ → ℕ → ℕ
midway distance d pos j i = if leb j (pos i) then next distance d pos i else pos i

module _ (n m : ℕ) (d : ℕ → ℕ) (c : ℕ → Trow)
    (known : (i : ℕ) → i < m → ((c i).dst_idx ≡ d i) × (eq32 (c i).field_type dist_padding ≡ false))
    (inside : (i : ℕ) → i < m → d i < n) (small : n ≤ 2147483648) (distance : ℕ)
    (positive : 0 < distance) (pos : ℕ → ℕ)
    (apart : (i k : ℕ) → i < m → k < m → pos i ≡ pos k → i ≡ k)
    (apart' : (i k : ℕ)
      → i < m
      → k < m
      → next distance d pos i ≡ next distance d pos k
      → i ≡ k) where
  abbrev At : ℕ → ℕ → ℕ
  At = midway distance d pos

  other_same : (j i : ℕ) → pos i ≢ j → At (suc j) i ≡ At j i
  other_same j i h = elim (Bool-cases (leb j (pos i))) [
    | inl e ↦
        let e' : leb (suc j) (pos i) ≡ true = elim (Bool-cases (leb (suc j) (pos i))) [
          | inl f ↦ f
          | inr f ↦ absurd (h (ground (arith, e, f)))
        ] in
        rw (e, e') refl
    | inr e ↦ let e' : leb (suc j) (pos i) ≡ false = ground (arith, e) in rw (e, e') refl
  ]

  stay_same : (j i : ℕ) → pos i ≡ j → leb (j + distance) (d i) ≡ false → At (suc j) i ≡ At j i
  stay_same j i h k = ground (arith, h, k)

  at_slot : (j i : ℕ) → At (suc j) i ≡ j → pos i ≡ j
  at_slot j i h = ground (arith, h)

  slot_at : (j i : ℕ) → pos i ≡ j → At (suc j) i ≡ j
  slot_at j i h = ground (arith, h)

  ahead :
      (j i : ℕ) → At (suc j) i ≡ j + distance → (j < pos i) × (next distance d pos i ≡ j + distance)
  ahead j i h = (ground (arith, h, positive), ground (arith, h, positive))

  moved_on : (j i : ℕ) → pos i ≡ j → leb (j + distance) (d i) ≡ true → At j i ≡ j + distance
  moved_on j i h k = ground (arith, h, k)

  module _ (j : ℕ) (below : j + distance < n) (arr : List Trow)
      (cover : Cover n m d c known inside small (At (suc j)) arr) where
    abbrev Result : Type 0
    Result =
        (out : List Trow) × (pair_at j (j + distance) arr ≡ some out)
        × Cover n m d c known inside small (At j) out

    row_stays :
        (e1 e2 : Trow)
        → get_elem? arr j ≡ some e1
        → get_elem? arr (j + distance) ≡ some e2
        → moves e1 e2 ≡ false
        → ((i : ℕ) → i < m → At (suc j) i ≡ At j i)
        → Result
    row_stays e1 e2 at1 at2 stay same = (
      arr,
      pair_stays arr j (j + distance) e1 e2 at1 at2 stay,
      Cover-same n m d c known inside small (At (suc j)) (At j) arr same cover,
    )

    module _ (e1 e2 : Trow) (at1 : get_elem? arr j ≡ some e1)
        (at2 : get_elem? arr (j + distance) ≡ some e2) (index1 : e1.index ≡ j)
        (index2 : e2.index ≡ j + distance) (i : ℕ) (k : i < m) (here : pos i ≡ j)
        (row : bare e1 ≡ c i) where
      row_stuck : leb (j + distance) (d i) ≡ false → Result
      row_stuck h =
          let stay =
            row_moves n m d c known inside small e1 e2 i (j + distance) k row index2 below ∙ h in
          row_stays e1 e2 at1 at2 stay λ i' k'. elim (Bool-cases (pos i' == j)) [
            | inl e ↦
                let there : pos i' ≡ j = ground (arith, e) in
                let same : i' ≡ i = apart i' i k' k (there ∙ sym here) in
                stay_same j i' there (ap (λ x. leb (j + distance) (d x)) same ∙ h)
            | inr e ↦ other_same j i' (λ there. ground (arith, e, there))
          ]

      abbrev f1 : Trow
      f1 = record e2 { index = e1.index }

      abbrev f2 : Trow
      f2 = record e1 { index = e2.index }

      abbrev moved_arr : List Trow
      moved_arr = set (set arr j f1) (j + distance) f2

      abbrev There : ℕ → Type 0
      There p =
          (t : Trow) × (get_elem? moved_arr p ≡ some t)
          × (t.index ≡ p)
          × Slot n m d c known inside small (At j) p t

      module _ (h : leb (j + distance) (d i) ≡ true)
          (pad : eq32 e2.field_type dist_padding ≡ true) where
        -- Where row i was there is padding now.
        first_vacated : There j
        first_vacated = (
          f1,
          get_elem?-set_ne (set arr j f1) (j + distance) j f2 (λ e. omega (arith, e, positive))
              ∙ get_elem?-set arr j f1 at1,
          index1,
          inr (
            pad,
            λ i' k' e.
                let there : pos i' ≡ j = ground (arith, e) in
                let same : i' ≡ i = apart i' i k' k (there ∙ sym here) in
                let gone = ap (At j) same ∙ moved_on j i here h in omega (arith, e, gone, positive),
          ),
        )

        second_taken : There (j + distance)
        second_taken = (
          f2,
          get_elem?-set (set arr j f1) (j + distance) f2
              (get_elem?-set_ne arr j (j + distance) f1 (λ e. omega (arith, e, positive)) ∙ at2),
          index2,
          inl (i, k, moved_on j i here h, row),
        )

        others_kept : (p : ℕ) → p < n → p ≢ j → p ≢ j + distance → There p
        others_kept p q not_j not_k =
            let (t, at, index, slot) = cover p q in
            (
              t,
              get_elem?-set_ne (set arr j f1) (j + distance) p f2 (λ e. not_k (sym e))
                  ∙ get_elem?-set_ne arr j p f1 (λ e. not_j (sym e))
                  ∙ at,
              index,
              kept t slot,
            )
          where
            kept :
                (t : Trow)
                → Slot n m d c known inside small (At (suc j)) p t
                → Slot n m d c known inside small (At j) p t
            kept t (inl (i', k', at', row')) =
                inl (
                  i',
                  k',
                  sym (other_same j i' (λ e. not_j (sym at' ∙ slot_at j i' e))) ∙ at',
                  row',
                )
            kept t (inr (pad', free')) = inr (
              pad',
              λ i' k' e. elim (Bool-cases (pos i' == j)) [
                | inl f ↦
                    let there : pos i' ≡ j = ground (arith, f) in
                    let same : i' ≡ i = apart i' i k' k (there ∙ sym here) in
                    not_k (sym e ∙ ap (At j) same ∙ moved_on j i here h)
                | inr f ↦ free' i' k' (other_same j i' (λ there. ground (arith, f, there)) ∙ e)
              ],
            )

        row_goes : Result
        row_goes = (
          moved_arr,
          pair_moves arr j (j + distance) e1 e2 at1 at2
              (row_moves n m d c known inside small e1 e2 i (j + distance) k row index2 below ∙ h),
          λ p q. elim (Bool-cases (p == j)) [
            | inl e ↦ let e' : p ≡ j = ground (arith, e) in subst There (sym e') first_vacated
            | inr e ↦ elim (Bool-cases (p == j + distance)) [
              | inl f ↦
                  let f' : p ≡ j + distance = ground (arith, f) in subst There (sym f') second_taken
              | inr f ↦ others_kept p q (λ g. ground (arith, e, g)) (λ g. ground (arith, f, g))
            ]
          ],
        )

    pub pair_step : Result
    pair_step =
        let (e1, at1, index1, slot1) = cover j (omega (arith, below)) in
        let (e2, at2, index2, slot2) = cover (j + distance) below in
        elim slot1 [
          | inl (i, k, at, row) ↦
              let here = at_slot j i at in
              elim (Bool-cases (leb (j + distance) (d i))) [
                | inr h ↦ row_stuck e1 e2 at1 at2 index1 index2 i k here row h
                | inl h ↦ elim slot2 [
                  | inl (i2, k2, at', row2) ↦
                      let (later, same) = ahead j i2 at' in
                      let arrives : next distance d pos i ≡ j + distance =
                        ground (arith, here, h) in
                      let one = apart' i2 i k2 k (same ∙ sym arrives) in
                      absurd (omega (arith, later, here, ap pos one))
                  | inr (pad, free) ↦ row_goes e1 e2 at1 at2 index1 index2 i k here row h pad
                ]
              ]
          | inr (pad, free) ↦
              row_stays e1 e2 at1 at2 (padding_stays n m d c known inside small e1 e2 pad)
                (λ i k. other_same j i (λ e. free i k (slot_at j i e)))
        ]
