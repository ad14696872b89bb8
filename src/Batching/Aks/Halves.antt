-- ===== src/Batching/Aks/Halves.antt =====
-- A block of two halves: the level's swaps, and then a run on each half.
use omwj.Prelude.{
  ℕ, ◌+◌, ◌-◌, ◌*◌, ◌%◌, ◌≤◌, ◌<◌, ◌≡◌, refl, ◌∙◌, Bool, List, Option, some, inl, inr, arith,
}
use omwj.Prelude.Lists.{length}
use omwj.Entry.{Entry}
use omwj.Batching.Aks.{count_below, cross_swaps}
use omwj.Batching.Aks.Swaps.{Rows, Crossed, cross_swaps-Crossed}
use omwj.Batching.Aks.Sequence.{
  Source, Turned, threshold, left_fits, right_fits, left-Source, right-Source,
}
use omwj.Batching.Aks.Turn.{crosses}
use omwj.Batching.Aks.Level.{counted, left-Turned, right-Turned}
use omwj.Batching.Aks.Routed.{Routed, Placed-merge, one-Placed, Placed-same, Turned-same}

module _ (blank : Entry) (n : ℕ) (small : n < 1073741824) where
  pub one-Routed :
      (e : ℕ → Entry) (c index start o : ℕ) (buf : List Entry)
      → Source e c index 1
      → Turned blank n e c start 1 o buf
      → Rows blank buf
      → Routed blank n e c index start 1 buf (some buf)
  one-Routed e c index start o buf s turned rows = record {
    out = buf;
    returns = refl;
    same_size = refl;
    rows = rows;
    placed = one-Placed blank n e c index start o buf s turned;
    others = λ p h. refl;
  }

  module _ (e : ℕ → Entry) (c index start half offset : ℕ) (buf : List Entry)
      (in_range : index + 2 * half ≤ n) (turned : offset < 2 * half)
      (s : Source e c index (2 * half)) (whole : Turned blank n e c start (2 * half) offset buf)
      (fits : start + 2 * half ≤ length buf) (rows : Rows blank buf) where
    -- What a level finds and what its swaps leave.
    pub record Level (cond : ℕ → ℕ → Bool) : Type 0 where
      pub t : ℕ
      pub inside : t ≤ c
      pub left_room : t ≤ half
      pub below : (j : ℕ) → j < t → (e j).dst_idx < index + half
      pub above : (j : ℕ) → t ≤ j → j < c → index + half ≤ (e j).dst_idx
      pub count : count_below (2 * half) start (index + half) 0 buf ≡ some t
      pub run :
          Crossed blank (cond t) half 0 start half buf (cross_swaps (cond t) half 0 start half buf)
      pub first : Turned blank n e t start half (offset % half) run.out
      pub second :
          Turned blank n (λ j. e (t + j)) (c - t) (start + half) half ((offset + t) % half) run.out
      pub first_source : Source e t index half
      pub second_source : Source (λ j. e (t + j)) (c - t) (index + half) half

    pub level_lem :
        (cond : ℕ → ℕ → Bool)
        → ((t i : ℕ) → t ≤ half → i < half → cond t i ≡ crosses half offset t i)
        → Level cond
    level_lem cond crossing =
        let twice : 2 * half ≡ half + half = omega arith in
        let s' : Source e c index (half + half) = rw twice at s in
        let (t, inside, below, above) = threshold e c index (2 * half) (index + half) s in
        let left_room = left_fits e c index half half s' t inside below above in
        let right_room = right_fits e c index half half s' t inside below above in
        let run =
          cross_swaps-Crossed blank (cond t) half 0 start half buf (omega arith)
            (omega (arith, fits)) rows in
        record {
          t = t;
          inside = inside;
          left_room = left_room;
          below = below;
          above = above;
          count =
              counted blank n e c index start half offset buf small in_range turned s t inside below
                above left_room right_room whole fits;
          run = run;
          first =
              left-Turned blank n e c index start half offset buf small in_range turned s t inside
                below above left_room right_room whole (λ i h. crossing t i left_room h) run;
          second =
              right-Turned blank n e c index start half offset buf small in_range turned s t inside
                below above left_room right_room whole (λ i h. crossing t i left_room h) run;
          first_source = left-Source e c index half half s' t inside below above;
          second_source = right-Source e c index half half s' t inside below above;
        }

    pub halves_lem :
        {cond : ℕ → ℕ → Bool} {r r1 r2 : Option (List Entry)} (level : Level cond)
        (second : Routed blank n
          (λ j. e (level.t + j))
          (c - level.t)
          (index + half)
          (start + half)
          half
          level.run.out
          r2)
        (first : Routed blank n e level.t index start half second.out r1)
        → r ≡ some first.out
        → Routed blank n e c index start (2 * half) buf r
    halves_lem level second first runs = record {
      out = first.out;
      returns = runs;
      same_size = first.same_size ∙ second.same_size ∙ level.run.size;
      rows = first.rows;
      placed =
          let twice : 2 * half ≡ half + half = omega arith in
          rw twice (
            Placed-merge blank n e c index start half half level.t first.out level.inside
              level.below level.above first.placed
              (Placed-same blank n _ _ (index + half) (start + half) half second.out first.out
                (λ p h. first.others (start + half + p) (inr (omega arith))) second.placed));
      others = λ p h.
          first.others p
            (elim h [ inl before ↦ inl before | inr behind ↦ inr (omega (arith, behind)) ])
          ∙ second.others p (elim h [
            | inl before ↦ inl (omega (arith, before))
            | inr behind ↦ inr (omega (arith, behind))
          ])
          ∙ level.run.others p (elim h [
            | inl before ↦ inl (omega (arith, before))
            | inr behind ↦ inr (inr (omega (arith, behind)))
          ]);
    }

    -- The run on the right half leaves the left one turned.
    pub first-Turned :
        {cond : ℕ → ℕ → Bool} {r2 : Option (List Entry)} (level : Level cond)
        (second : Routed blank n
          (λ j. e (level.t + j))
          (c - level.t)
          (index + half)
          (start + half)
          half
          level.run.out
          r2)
        → 0 < half
        → Turned blank n e level.t start half (offset % half) second.out
    first-Turned level second pos =
        Turned-same blank n e level.t start half (offset % half) level.run.out second.out pos
          (λ p h. second.others (start + p) (inl (omega (arith, h)))) level.first
