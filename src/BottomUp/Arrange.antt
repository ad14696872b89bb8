-- ===== src/BottomUp/Arrange.antt =====
-- The two sorts after the pass of step 3: the pairs of boundaries in the order of the parent's
-- rows, and then the END records in that order.
use mathlib.Core.List.{Permᴰ}
use mathlib.Core.List.Permᴰ
use omwj.Prelude.{ℕ, ◌+◌, ◌*◌, ◌≤◌, ◌<◌, ◌≡◌, refl, List, [], ◌∷◌, ◌++◌, map, arith}
use omwj.Prelude.Lists.{All}
use omwj.Prelude.Word.{eq32, skey, skey-lt}
use omwj.Entry.{Entry}
use mathlib.Core.List.{append_assoc}
use omwj.Order.Sorted.{IsStrict, All-imp}
use omwj.Skinny.{SkRec}
use omwj.Skinny.Ranks.{pairwise_rank, end_first_rank}
use omwj.BottomUp.{source_rec, start_rec, end_rec}
use omwj.BottomUp.Erase.{erase}

-- f p, g p for each p in turn
abbrev pub interleave {ℓ κ} : {A : Type ℓ} {B : Type κ} → (A → B) → (A → B) → List A → List B
interleave f g [] = []
interleave f g (p ∷ ps) = f p ∷ g p ∷ interleave f g ps

pub interleave-Permᴰ {ℓ κ} :
    {A : Type ℓ} {B : Type κ} (f g : A → B) (ps : List A)
    → Permᴰ (map f ps ++ map g ps) (interleave f g ps)
interleave-Permᴰ f g [] = Permᴰ.nil
interleave-Permᴰ f g (p ∷ ps) = Permᴰ.cons refl (
    Permᴰ.trans (Permᴰ.middle (g p) (map f ps) (map g ps))
      (Permᴰ.cons refl (interleave-Permᴰ f g ps)))

-- The rows' indices ascend.
abbrev pub Ascending : List Entry → Type 0
Ascending = IsStrict (λ p. skey p.original_index)

abbrev pub source_bare : ℕ → Entry → SkRec
source_bare join_col e = erase (source_rec join_col e)

pub sources_high :
    (join_col : ℕ) (child : List Entry)
    → All (λ r. 8589934592 ≤ pairwise_rank r) (map (source_bare join_col) child)
unfolding pairwise_rank eq32
sources_high join_col [] = tt
sources_high join_col (e ∷ child) = (omega arith, sources_high join_col child)

module _ (col dev1 eq1 dev2 eq2 : ℕ) where
  abbrev pub start_bare : Entry → SkRec
  start_bare p = erase (start_rec col dev1 eq1 p)

  abbrev pub end_bare : Entry → SkRec
  end_bare p = erase (end_rec col dev2 eq2 p)

  start_pairwise : (p : Entry) → pairwise_rank (start_bare p) ≡ skey p.original_index * 2
  unfolding pairwise_rank eq32
  start_pairwise p = omega arith

  end_pairwise : (p : Entry) → pairwise_rank (end_bare p) ≡ skey p.original_index * 2 + 1
  unfolding pairwise_rank eq32
  end_pairwise p = omega arith

  pairs_after :
      (k : ℕ) (ps : List Entry)
      → All (λ p. k < skey p.original_index) ps
      → All (λ r. k * 2 + 1 < pairwise_rank r) (interleave start_bare end_bare ps)
  pairs_after k [] h = tt
  pairs_after k (p ∷ ps) h = (
    omega (arith, start_pairwise p, h.0),
    (omega (arith, end_pairwise p, h.0), pairs_after k ps h.1),
  )

  pub pairs-IsStrict :
      (ps : List Entry) → Ascending ps → IsStrict pairwise_rank (interleave start_bare end_bare ps)
  pairs-IsStrict [] a = tt
  pairs-IsStrict (p ∷ ps) a =
      let later = pairs_after (skey p.original_index) ps a.0 in
      let rank1 = start_pairwise p in
      let rank2 = end_pairwise p in
      (
        (omega arith, All-imp _ _ (λ r h. omega arith) _ later),
        (All-imp _ _ (λ r h. omega arith) _ later, pairs-IsStrict ps a.1),
      )

  pub pairs_low :
      (ps : List Entry)
      → All (λ r. pairwise_rank r < 8589934592) (interleave start_bare end_bare ps)
  pairs_low [] = tt
  pairs_low (p ∷ ps) =
      let bound = skey-lt p.original_index in
      (omega (arith, start_pairwise p), (omega (arith, end_pairwise p), pairs_low ps))

  module _ (join_col : ℕ) where
    -- The combined array, with each START before its END and the children last.
    pub combined-Permᴰ :
        (parent child : List Entry)
        → Permᴰ
            (map (source_bare join_col) child ++ (map start_bare parent ++ map end_bare parent))
            (interleave start_bare end_bare parent ++ map (source_bare join_col) child)
    combined-Permᴰ parent child =
        Permᴰ.trans (Permᴰ.append_comm (map (source_bare join_col) child) _) (
          Permᴰ.append_right (map (source_bare join_col) child)
            (interleave-Permᴰ start_bare end_bare parent))

  module _ (value : Entry → ℕ) where
    -- an END with its interval
    abbrev pub end_done : Entry → SkRec
    end_done p = record (end_bare p) { interval = value p }

    ends_after :
        (k : ℕ) (ps : List Entry)
        → All (λ p. k < skey p.original_index) ps
        → All (λ r. k < end_first_rank r) (map end_done ps)
    unfolding end_first_rank eq32
    ends_after k [] h = tt
    ends_after k (p ∷ ps) h = (omega (arith, h.0), ends_after k ps h.1)

    pub ends-IsStrict : (ps : List Entry) → Ascending ps → IsStrict end_first_rank (map end_done ps)
    unfolding end_first_rank eq32
    ends-IsStrict [] a = tt
    ends-IsStrict (p ∷ ps) a = (
      All-imp _ _ (λ r h. omega arith) _ (ends_after (skey p.original_index) ps a.0),
      ends-IsStrict ps a.1,
    )

    pub ends_low : (ps : List Entry) → All (λ r. end_first_rank r < 4294967296) (map end_done ps)
    unfolding end_first_rank eq32
    ends_low [] = tt
    ends_low (p ∷ ps) = (omega (arith, skey-lt p.original_index), ends_low ps)

    pub starts_high :
        (ps : List Entry) → All (λ r. 4294967296 ≤ end_first_rank r) (map start_bare ps)
    unfolding end_first_rank eq32
    starts_high [] = tt
    starts_high (p ∷ ps) = (omega arith, starts_high ps)

    -- The pairs, with the ENDs before the STARTs.
    pub ends-Permᴰ :
        (ps : List Entry) (rest : List SkRec)
        → Permᴰ
            (interleave start_bare end_done ps ++ rest)
            (map end_done ps ++ (map start_bare ps ++ rest))
    ends-Permᴰ ps rest =
        Permᴰ.trans
          (Permᴰ.append_right rest (
            Permᴰ.trans (Permᴰ.symm (interleave-Permᴰ start_bare end_done ps))
              (Permᴰ.append_comm (map start_bare ps) (map end_done ps))))
          (rw (append_assoc (map end_done ps) (map start_bare ps) rest) (Permᴰ.refl _))
