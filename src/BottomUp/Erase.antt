-- ===== src/BottomUp/Erase.antt =====
-- A record without its running sum: the three orders do not read it, so the passes and the sorts of
-- compute_local_mult can be followed up to it.
use native.Mathlib.Nat.{ℕ_set}
use omwj.Prelude.{◌≡◌, refl, ap, List, [], ◌∷◌, map}
use omwj.Prelude.Lists.{pass_from, linear_pass}
use omwj.Skinny.{SkRec}
use omwj.Skinny.Ranks.{pairwise_rank, end_first_rank}
use omwj.BottomUp.{cumsum_step}

abbrev pub erase : SkRec → SkRec
erase r = record r { acc = 0 }

pub SkRec_set : IsSet SkRec
SkRec_set = hlevel (ℕ_set)

pub List-SkRec_set : IsSet (List SkRec)
List-SkRec_set = hlevel (ℕ_set, SkRec_set)

pub pairwise_rank-erase : (r : SkRec) → pairwise_rank (erase r) ≡ pairwise_rank r
unfolding pairwise_rank
pairwise_rank-erase r = refl

pub end_first_rank-erase : (r : SkRec) → end_first_rank (erase r) ≡ end_first_rank r
unfolding end_first_rank
end_first_rank-erase r = refl

-- The pass of step 3 changes running sums only.
pub erase-cumsum : (xs : List SkRec) → map erase (linear_pass cumsum_step xs) ≡ map erase xs
unfolding cumsum_step
erase-cumsum [] = refl
erase-cumsum (x ∷ xs) = ap (◌∷◌ (erase x)) (from x xs)
  where
    from :
        (prev : SkRec) (ys : List SkRec) → map erase (pass_from cumsum_step prev ys) ≡ map erase ys
    from prev [] = refl
    from prev (y ∷ ys) = ap (◌∷◌ (erase y)) (from (cumsum_step prev y) ys)
