-- ===== src/Distribute/Total.antt =====
-- expand_single_table as a whole: as many rows as the multiplicities add up to.
use omwj.Prelude.{
  ℕ, suc, ◌*◌, ◌^◌, ◌≤◌, ◌<◌, ◌≡◌, refl, ap, ◌∙◌, false, List, [], ◌∷◌, map, some, inl, inr, arith,
}
use omwj.Prelude.Tests.{◌==◌, if◌then◌else◌, Bool-cases, le→leb}
use omwj.Prelude.Lists.{length, All, length-map}
use omwj.Prelude.Partial.{◌>>=◌}
use omwj.Prelude.Word.{modulus, eq32, add32, mul32, sub32, is_neg}
use omwj.Constants.{sort_padding}
use omwj.Entry.{Entry}
use omwj.Trow.{Trow}
use omwj.Runtime.{
  Runtime, Lawful, Healthy, Returns, Result, pure, reserve, defined, defined-some, >>=-ok,
}
use omwj.BottomUp.Returns.{reserve_ok}
use omwj.Distribute.{trow_stride, make_dist_padding, trow_of, build_work, size_of, mark_zero}
use omwj.Distribute.Network.{Portable}
use omwj.Distribute.Expand.{Sortable, expand_work-Returns}
use omwj.Distribute.Table.{expand_work, expand_single_table}

-- the sum of the multiplicities, from `dst` on, with its wrap
abbrev pub total_mult : ℕ → List Entry → ℕ
total_mult dst [] = dst
total_mult dst (e ∷ rows) = total_mult (add32 dst e.final_mult) rows

total_mult-lt : (rows : List Entry) (dst : ℕ) → dst < modulus → total_mult dst rows < modulus
unfolding add32
total_mult-lt [] dst h = h
total_mult-lt (e ∷ rows) dst h = total_mult-lt rows (add32 dst e.final_mult) (omega arith)

mark_zero-Sortable : (t : Trow) → eq32 t.field_type sort_padding ≡ false → Sortable (mark_zero t)
unfolding mark_zero eq32 add32 mul32 sub32
mark_zero-Sortable t h = ground (arith, h)

size_of_lem : (dst : ℕ) → dst < modulus → is_neg dst ≡ false → size_of dst ≡ dst
unfolding size_of
size_of_lem dst h k = rw k (omega arith)

-- The table is read, and what follows is steps 2 to 6.
expand_begun :
    (rt : Runtime)
    → Healthy rt
    → Lawful rt
    → (width : ℕ) (e : Entry) (rows : List Entry) (w : rt.World) (work : List Trow) (total : ℕ)
      {r : Result rt.World (List Trow)}
    → build_work width 0 (e ∷ rows) ≡ some (work, total)
    → (if size_of total == 0
          then pure []
          else expand_work rt width (size_of total) (map mark_zero work))
        (rt.alloc (length (e ∷ rows) * trow_stride width) w).1
      ≡ r
    → expand_single_table rt (e ∷ rows) width w ≡ r
unfolding expand_single_table
expand_begun rt healthy lawful width e rows w work total built run =
    let some_rows : (length (e ∷ rows) == 0) ≡ false = ground arith in
    rw some_rows (
      >>=-ok (reserve rt (length (e ∷ rows) * trow_stride width)) _
        (reserve_ok rt healthy lawful _ w)
        (>>=-ok (defined (build_work width 0 (e ∷ rows))) _ (defined-some _ built) run))

module _ (P : Trow → Type 0) (width : ℕ) where
  -- A row of the table with its slots, no sort padding, whose work row has the property wherever
  -- it starts.
  abbrev pub Source : Entry → Type 0
  Source e =
      (width ≤ length e.attributes)
      × (eq32 e.field_type sort_padding ≡ false)
      × ((dst : ℕ) → P (mark_zero (trow_of width dst e)))

  build_step :
      (dst total : ℕ) (e : Entry) (rows : List Entry) (work : List Trow)
      → width ≤ length e.attributes
      → build_work width (add32 dst e.final_mult) rows ≡ some (work, total)
      → build_work width dst (e ∷ rows) ≡ some (trow_of width dst e ∷ work, total)
  unfolding build_work
  build_step dst total e rows work h run = rw (le→leb _ _ h) (rw (run, ◌>>=◌) refl)

  build_work-ok :
      (dst : ℕ) (rows : List Entry)
      → All Source rows
      → (work : List Trow) × (build_work width dst rows ≡ some (work, total_mult dst rows))
        × (length work ≡ length rows)
        × All Sortable (map mark_zero work)
        × All P (map mark_zero work)
  unfolding build_work trow_of
  build_work-ok dst [] h = ([], refl, refl, tt, tt)
  build_work-ok dst (e ∷ rows) h =
      let (here, sortable, keeps) = h.0 in
      let (work, run, size, sorts, kept) = build_work-ok (add32 dst e.final_mult) rows h.1 in
      (
        trow_of width dst e ∷ work,
        build_step dst _ e rows work here run,
        ap suc size,
        (mark_zero-Sortable (trow_of width dst e) sortable, sorts),
        (keeps dst, kept),
      )

  module _ (P_prop : (t : Trow) → IsProp (P t)) (portable : Portable P)
      (padding : P (make_dist_padding width)) where
    -- With memory left, a working generator and a lawful qsort, take at most 2 ^ 57 rows that have
    -- at least `width` slots and are no sort padding, whose final multiplicities add up to no
    -- negative int32_t. Then expand_single_table returns without an error or an access out of
    -- bounds, with as many rows as the multiplicities add up to, modulo 2 ^ 32; and what is true
    -- of the work row of every table row and of a padding row, whatever the slot index, is true of
    -- every row of the result.
    pub expand_single_table-Returns :
        (rt : Runtime)
        → Healthy rt
        → Lawful rt
        → (rows : List Entry) (w : rt.World) → length rows ≤ 2 ^ 57
        → All Source rows
        → is_neg (total_mult 0 rows) ≡ false
        → Returns
            (expand_single_table rt rows width w)
            (λ out. (length out ≡ total_mult 0 rows) × All P out)
    unfolding expand_single_table
    expand_single_table-Returns rt healthy lawful [] w few source positive =
        ([], w, refl, (refl, tt))
    expand_single_table-Returns rt healthy lawful (e ∷ rows) w few source positive =
        let all = e ∷ rows in
        let total = total_mult 0 all in
        let (work, built, size, sorts, kept) = build_work-ok 0 all source in
        let w1 = (rt.alloc (length all * trow_stride width) w).1 in
        let wide : total < modulus = total_mult-lt all 0 (omega arith) in
        let exact : size_of total ≡ total = size_of_lem total wide positive in
        elim (Bool-cases (size_of total == 0)) [
          | inl none_left ↦ (
            [],
            w1,
            expand_begun rt healthy lawful width e rows w work total built (rw none_left refl),
            (ground (arith, exact, none_left), tt),
          )
          | inr some_left ↦
              let positive' : 0 < total = ground (arith, exact, some_left) in
              let few' : length (map mark_zero work) ≤ 2 ^ 57 =
                omega (arith, length-map mark_zero work, size, few) in
              let (out, w2, run, (length_out, kept')) =
                expand_work-Returns P P_prop portable width padding rt healthy lawful total
                  (map mark_zero work) w1 positive' (omega arith) few' sorts kept in
              let run' = ap (λ n. expand_work rt width n (map mark_zero work) w1) exact ∙ run in
              (
                out,
                w2,
                expand_begun rt healthy lawful width e rows w work total built (rw some_left run'),
                (length_out, kept'),
              )
        ]
