-- ===== src/TopDown.antt =====
-- enclave/trusted/join/top_down.c: the final multiplicities of a child's rows.
pub mod Tree
pub mod Returns
pub mod Reversed
pub mod Roots
pub mod Walk
use omwj.Prelude.{ℕ, ◌+◌, ◌*◌, Bool, false, ◌&&◌, ◌||◌, List, [], ◌∷◌, ◌++◌, map}
use omwj.Prelude.Tests.{◌==◌, if◌then◌else◌}
use omwj.Prelude.Lists.{length, linear_pass}
use omwj.Prelude.Word.{eq32, add32, sub32, mul32, neg32, div32, flag, int16, minus_one}
use omwj.Constants.{source, start, end, eq_none, eq_open}
use omwj.Entry.{Entry, attribute, slot_reads}
use omwj.Skinny.{SkRec, sk_cmp_join_attr, sk_cmp_pairwise, sk_cmp_end_first, sk_make_pad}
use omwj.Runtime.{Runtime, M, pure, ◌>>=◌, ◌>>◌, defined, trapped, reserve}
use omwj.Sort.{ej_osort_g}

-- Step 1: the working record of a row; `weight` starts at the row's multiplicity.
abbrev share_rec : Entry → ℕ → ℕ → ℕ → SkRec
share_rec e key kind equality = record {
  join_attr = key;
  field_type = kind;
  equality_type = equality;
  original_index = e.original_index;
  local_mult = e.local_mult;
  acc = 0;
  interval = 0;
  weight = e.local_mult;
  fmult = e.final_mult;
}

-- a parent row, which hands out its final_mult
abbrev pub share_source : ℕ → Entry → SkRec
share_source parent_join_col e = share_rec e (attribute e parent_join_col) source eq_none

-- the lower end of a child row's range: the upper deviation, negated, with its tag
abbrev pub share_start : ℕ → ℕ → ℕ → Entry → SkRec
share_start join_col dev2 eq2 e =
    share_rec e (add32 (attribute e join_col) (neg32 dev2)) start (int16 eq2)

-- the upper end
abbrev pub share_end : ℕ → ℕ → ℕ → Entry → SkRec
share_end join_col dev1 eq1 e =
    share_rec e (add32 (attribute e join_col) (neg32 dev1)) end (int16 eq1)

-- Step 3: the weight of the child ranges that cover the position, and a SOURCE's share by it, where
-- the division has a value.
unfoldable pub share_step : SkRec → SkRec → SkRec
share_step e1 e2 =
    let is_start = flag (eq32 e2.field_type start) in
    let is_end = flag (eq32 e2.field_type end) in
    let is_src = eq32 e2.field_type source in
    let prev_sneq = eq32 e1.field_type start && eq32 e1.equality_type eq_open in
    let same_attr = eq32 e1.join_attr e2.join_attr in
    let skip = prev_sneq && same_attr && is_src in
    let weight =
      sub32 (add32 e1.weight (mul32 is_start e2.local_mult)) (mul32 is_end e2.local_mult) in
    let safe_weight = if eq32 weight 0 then 1 else weight in
    let delta = mul32 (mul32 (flag is_src) (sub32 1 (flag skip))) (div32 e2.fmult safe_weight) in
    record e2 { weight = weight; acc = add32 e1.acc delta }

-- The step divides INT32_MIN by -1. Every record is divided, whatever its kind.
unfoldable pub share_traps : SkRec → SkRec → Bool
unfolding share_step
share_traps e1 e2 = eq32 e2.fmult 2147483648 && eq32 (share_step e1 e2).weight minus_one

-- whether a step of the pass over the records behind e1 does
unfoldable pub pass_traps : SkRec → List SkRec → Bool
unfolding share_traps share_step
pass_traps e1 [] = false
pass_traps e1 (e2 ∷ rest) = share_traps e1 e2 || pass_traps (share_step e1 e2) rest

unfoldable pub any_traps : List SkRec → Bool
unfolding pass_traps
any_traps [] = false
any_traps (e ∷ rest) = pass_traps e rest

-- Step 5: the interval of a START and the END right behind it, which takes the START's sum.
unfoldable pub range_step : SkRec → SkRec → SkRec
range_step e1 e2 =
    let is_pair = flag (eq32 e1.field_type start && eq32 e2.field_type end) in
    let interval = sub32 e2.acc e1.acc in
    record e2 {
      interval = add32 (mul32 is_pair interval) (mul32 (sub32 1 is_pair) e2.interval);
      acc = add32 (mul32 is_pair e1.acc) (mul32 (sub32 1 is_pair) e2.acc);
    }

-- Step 7: row i of the child takes the interval and the sum of record i.
unfoldable pub apply_shares : List Entry → List SkRec → List Entry
apply_shares [] comb = []
apply_shares (e ∷ child) [] = e ∷ child
apply_shares (e ∷ child) (r ∷ comb) =
    record e { final_mult = mul32 r.interval e.local_mult; foreign_sum = r.acc }
    ∷ apply_shares child comb

module _ (parent_join_col join_col dev1 eq1 dev2 eq2 : ℕ) where
  abbrev pub shared : List Entry → List Entry → List SkRec
  shared parent child =
      map (share_source parent_join_col) parent
      ++ (map (share_start join_col dev2 eq2) child ++ map (share_end join_col dev1 eq1) child)

  module _ (rt : Runtime) where
    -- the steps on the combined array, for at least one child row
    unfoldable pub share_out : List Entry → List Entry → M rt.World (List Entry)
    share_out parent child = do
      let total = length parent + 2 * length child
      reserve rt (total * 32)
      defined (slot_reads parent_join_col parent)
      defined (slot_reads join_col child)
      by_key ← ej_osort_g rt 32 sk_cmp_join_attr sk_make_pad (shared parent child)
      shares ← if any_traps by_key then trapped else pure (linear_pass share_step by_key)
      pairs ← ej_osort_g rt 32 sk_cmp_pairwise sk_make_pad shares
      ends ← ej_osort_g rt 32 sk_cmp_end_first sk_make_pad (linear_pass range_step pairs)
      pure (apply_shares child ends)

    -- compute_final_mult: the child's rows with their final multiplicities, or the error return
    unfoldable pub compute_final_mult : List Entry → List Entry → M rt.World (List Entry)
    compute_final_mult parent child =
        if length child == 0 then pure child else share_out parent child
