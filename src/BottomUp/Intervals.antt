-- ===== src/BottomUp/Intervals.antt =====
-- Step 5 over the array in pairs: the interval of each END is the difference of the two sums.
use mathlib.Core.List.{head-eq_of_cons-eq, tail-eq_of_cons-eq}
use omwj.Prelude.{
  ℕ, ◌+◌, ◌%◌, ◌≡◌, refl, ap, ◌∙◌, true, false, ◌&&◌, List, [], ◌∷◌, ◌++◌, map, arith,
}
use omwj.Prelude.Lists.{All, length, pass_from, linear_pass}
use omwj.Prelude.Word.{modulus, eq32, add32, sub32, mul32, flag}
use omwj.Constants.{start, end}
use omwj.Entry.{Entry}
use omwj.Skinny.{SkRec, is_target}
use omwj.Skinny.Ranks.{join_rank}
use omwj.BottomUp.{interval_step}
use omwj.BottomUp.Erase.{erase}
use omwj.BottomUp.Arrange.{interleave, start_bare, end_bare, end_done}

-- A record that the pass leaves as it is.
abbrev pub Quiet : SkRec → Type 0
Quiet r = (eq32 r.field_type end ≡ false) × (r.interval ≡ 0)

step-Quiet : (prev r : SkRec) → Quiet r → erase (interval_step prev r) ≡ erase r
unfolding interval_step add32 mul32 sub32
step-Quiet prev r (no_end, none) =
    let same : add32
          (mul32 (flag (eq32 prev.field_type start && eq32 r.field_type end))
            (sub32 r.acc prev.acc))
          (mul32 (sub32 1 (flag (eq32 prev.field_type start && eq32 r.field_type end))) r.interval)
        ≡ r.interval =
      ground (arith, no_end, none) in
    ap (λ i. record (erase r) { interval = i }) same

step_pair :
    (s e : SkRec)
    → eq32 s.field_type start ≡ true
    → eq32 e.field_type end ≡ true
    → erase (interval_step s e) ≡ record (erase e) { interval = sub32 e.acc s.acc }
unfolding interval_step add32 mul32 sub32
step_pair s e hs he =
    let same : add32
          (mul32 (flag (eq32 s.field_type start && eq32 e.field_type end)) (sub32 e.acc s.acc))
          (mul32 (sub32 1 (flag (eq32 s.field_type start && eq32 e.field_type end))) e.interval)
        ≡ sub32 e.acc s.acc =
      ground (arith, hs, he) in
    ap (λ i. record (erase e) { interval = i }) same

unpaired_pass :
    (prev : SkRec) (xs : List SkRec)
    → All Quiet (map erase xs)
    → map erase (pass_from interval_step prev xs) ≡ map erase xs
unpaired_pass prev [] h = refl
unpaired_pass prev (x ∷ xs) h =
    rw (step-Quiet prev x h.0, unpaired_pass (interval_step prev x) xs h.1) refl

same_difference :
    (a b k x y : ℕ)
    → a % modulus ≡ (k + x) % modulus
    → b % modulus ≡ (k + y) % modulus
    → sub32 a b ≡ sub32 x y
unfolding sub32
same_difference a b k x y h g = omega (arith, h, g)

module _ (col dev1 eq1 dev2 eq2 k : ℕ) (sum : ℕ → ℕ) where
  abbrev bare_start : Entry → SkRec
  bare_start = start_bare col dev1 eq1 dev2 eq2

  abbrev bare_end : Entry → SkRec
  bare_end = end_bare col dev1 eq1 dev2 eq2

  -- the difference of the two sums
  abbrev pub value : Entry → ℕ
  value p = sub32 (sum (join_rank (bare_end p))) (sum (join_rank (bare_start p)))

  abbrev pub Summed : SkRec → Type 0
  Summed r = is_target r ≡ true → r.acc % modulus ≡ (k + sum (join_rank r)) % modulus

  step-Summed : (prev r : SkRec) → Summed r → Summed (interval_step prev r)
  unfolding interval_step join_rank
  step-Summed prev r h = h

  -- a START of the pair of p, and an END
  start_same :
      (s : SkRec) (p : Entry)
      → erase s ≡ bare_start p
      → (eq32 s.field_type start ≡ true)
        × Quiet s
        × (join_rank s ≡ join_rank (bare_start p))
        × (is_target s ≡ true)
  unfolding eq32 join_rank
  start_same s p h =
      let kind = ap (λ r. r.field_type) h in
      (
        ap (λ x. eq32 x start) kind,
        (ap (λ x. eq32 x end) kind, ap (λ r. r.interval) h),
        ap join_rank h,
        ap (λ r. is_target r) h,
      )

  end_same :
      (e : SkRec) (p : Entry)
      → erase e ≡ bare_end p
      → (eq32 e.field_type end ≡ true)
        × (join_rank e ≡ join_rank (bare_end p))
        × (is_target e ≡ true)
  unfolding eq32 join_rank
  end_same e p h =
      let kind = ap (λ r. r.field_type) h in
      (ap (λ x. eq32 x end) kind, ap join_rank h, ap (λ r. is_target r) h)

  pair_end :
      (s e : SkRec) (p : Entry)
      → erase s ≡ bare_start p
      → erase e ≡ bare_end p
      → Summed s
      → Summed e
      → erase (interval_step s e) ≡ end_done col dev1 eq1 dev2 eq2 value p
  pair_end s e p hs he sum_s sum_e =
      let (kind_s, quiet, rank_s, target_s) = start_same s p hs in
      let (kind_e, rank_e, target_e) = end_same e p he in
      let amount : sub32 e.acc s.acc ≡ value p =
        same_difference e.acc s.acc k _ _ (rw rank_e at (sum_e target_e))
          (rw rank_s at (sum_s target_s)) in
      let with_interval : SkRec → ℕ → SkRec = λ r i. record r { interval = i } in
      step_pair s e kind_s kind_e
      ∙ ap (with_interval (erase e)) amount
      ∙ ap (λ r. with_interval r (value p)) he

  pair_value :
      (prev s e : SkRec) (p : Entry)
      → erase s ≡ bare_start p
      → erase e ≡ bare_end p
      → Summed s
      → Summed e
      → (erase (interval_step prev s) ≡ bare_start p)
        × (erase (interval_step (interval_step prev s) e) ≡ end_done col dev1 eq1 dev2 eq2 value p)
  pair_value prev s e p hs he sum_s sum_e =
      let same_s = step-Quiet prev s (start_same s p hs).1 ∙ hs in
      (same_s, pair_end (interval_step prev s) e p same_s he (step-Summed prev s sum_s) sum_e)

  -- Step 5 over the pairs of the rows `ps`, with what sorts after them.
  pairs_pass :
      (ps : List Entry) (rest : List SkRec)
      → All Quiet rest
      → (prev : SkRec) (xs : List SkRec) → map erase xs ≡ interleave bare_start bare_end ps ++ rest
      → All Summed xs
      → map erase (pass_from interval_step prev xs)
        ≡ interleave bare_start (end_done col dev1 eq1 dev2 eq2 value) ps ++ rest
  pairs_pass [] rest quiet prev xs h sums = unpaired_pass prev xs (rw (← h) at quiet) ∙ h
  pairs_pass (p ∷ ps) rest quiet prev [] h sums = absurd (omega (arith, ap length h))
  pairs_pass (p ∷ ps) rest quiet prev (s ∷ []) h sums = absurd (omega (arith, ap length h))
  pairs_pass (p ∷ ps) rest quiet prev (s ∷ e ∷ xs) h sums =
      let h' = tail-eq_of_cons-eq h in
      let (first, second) =
        pair_value prev s e p (head-eq_of_cons-eq h) (head-eq_of_cons-eq h') sums.0 sums.1.0 in
      let tail =
        pairs_pass ps rest quiet (interval_step (interval_step prev s) e) xs (tail-eq_of_cons-eq h')
          sums.1.1 in
      rw (first, second, tail) refl

  -- the pass itself, which leaves its first record as it is
  pub interval_pass :
      (ps : List Entry) (rest : List SkRec)
      → All Quiet rest
      → (xs : List SkRec) → map erase xs ≡ interleave bare_start bare_end ps ++ rest
      → All Summed xs
      → map erase (linear_pass interval_step xs)
        ≡ interleave bare_start (end_done col dev1 eq1 dev2 eq2 value) ps ++ rest
  interval_pass [] rest quiet [] h sums = h
  interval_pass [] rest quiet (x ∷ xs) h sums =
      let quiet' : All Quiet (map erase (x ∷ xs)) = rw (← h) at quiet in
      ap (◌∷◌ (erase x)) (unpaired_pass x xs quiet'.1) ∙ h
  interval_pass (p ∷ ps) rest quiet [] h sums = absurd (omega (arith, ap length h))
  interval_pass (p ∷ ps) rest quiet (s ∷ []) h sums = absurd (omega (arith, ap length h))
  interval_pass (p ∷ ps) rest quiet (s ∷ e ∷ xs) h sums =
      let hs = head-eq_of_cons-eq h in
      let h' = tail-eq_of_cons-eq h in
      let second = pair_end s e p hs (head-eq_of_cons-eq h') sums.0 sums.1.0 in
      let tail = pairs_pass ps rest quiet (interval_step s e) xs (tail-eq_of_cons-eq h') sums.1.1 in
      rw (hs, second, tail) refl
