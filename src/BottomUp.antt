-- ===== src/BottomUp.antt =====
-- enclave/trusted/join/bottom_up.c: the local multiplicities of a parent's rows.
pub mod Cumsum
pub mod Returns
pub mod Sums
pub mod Erase
pub mod Arrange
pub mod Intervals
pub mod Correct
pub mod Product
pub mod Tree
pub mod Bounds
pub mod Walk
use omwj.Prelude.{ℕ, ◌+◌, ◌*◌, Bool, ◌&&◌, List, [], ◌∷◌, ◌++◌, map}
use omwj.Prelude.Tests.{◌==◌, if◌then◌else◌}
use omwj.Prelude.Lists.{length, linear_pass}
use omwj.Prelude.Word.{eq32, add32, sub32, mul32, flag, int16}
use omwj.Constants.{source, start, end, eq_none, eq_open}
use omwj.Entry.{Entry, attribute, slot_reads}
use omwj.Skinny.{SkRec, sk_cmp_join_attr, sk_cmp_pairwise, sk_cmp_end_first, sk_make_pad}
use omwj.Runtime.{Runtime, M, pure, ◌>>=◌, ◌>>◌, defined, reserve}
use omwj.Sort.{ej_osort_g}

-- Step 1: the working record of a row, before its kind is set
abbrev row_rec : Entry → ℕ → ℕ → ℕ → SkRec
row_rec e key kind equality = record {
  join_attr = key;
  field_type = kind;
  equality_type = equality;
  original_index = e.original_index;
  local_mult = e.local_mult;
  acc = e.local_mult;
  interval = 0;
  weight = 0;
  fmult = 0;
}

-- a child row
abbrev pub source_rec : ℕ → Entry → SkRec
source_rec join_col e = row_rec e (attribute e join_col) source eq_none

-- the lower end of a parent row's range
abbrev pub start_rec : ℕ → ℕ → ℕ → Entry → SkRec
start_rec parent_join_col dev1 eq1 e =
    row_rec e (add32 (attribute e parent_join_col) dev1) start (int16 eq1)

-- the upper end
abbrev pub end_rec : ℕ → ℕ → ℕ → Entry → SkRec
end_rec parent_join_col dev2 eq2 e =
    row_rec e (add32 (attribute e parent_join_col) dev2) end (int16 eq2)

-- Step 3: add a SOURCE's multiplicity, unless it follows an open START at the same key.
unfoldable pub cumsum_step : SkRec → SkRec → SkRec
cumsum_step e1 e2 =
    let is_src = eq32 e2.field_type source in
    let prev_sneq = eq32 e1.field_type start && eq32 e1.equality_type eq_open in
    let same_attr = eq32 e1.join_attr e2.join_attr in
    let skip = prev_sneq && same_attr && is_src in
    record e2 {
      acc = add32 e1.acc (mul32 (mul32 (flag is_src) (sub32 1 (flag skip))) e2.local_mult);
    }

-- Step 5: the interval of a START and the END right behind it.
unfoldable pub interval_step : SkRec → SkRec → SkRec
interval_step e1 e2 =
    let is_pair = flag (eq32 e1.field_type start && eq32 e2.field_type end) in
    let interval = sub32 e2.acc e1.acc in
    record e2 { interval = add32 (mul32 is_pair interval) (mul32 (sub32 1 is_pair) e2.interval) }

-- Step 7: row i of the parent takes the interval of record i.
unfoldable pub apply_intervals : List Entry → List SkRec → List Entry
apply_intervals [] comb = []
apply_intervals (e ∷ parent) [] = e ∷ parent
apply_intervals (e ∷ parent) (r ∷ comb) =
    record e { local_mult = mul32 e.local_mult r.interval } ∷ apply_intervals parent comb

module _ (parent_join_col join_col dev1 eq1 dev2 eq2 : ℕ) where
  abbrev pub combined : List Entry → List Entry → List SkRec
  combined parent child =
      map (source_rec join_col) child
      ++ (map (start_rec parent_join_col dev1 eq1) parent
          ++ map (end_rec parent_join_col dev2 eq2) parent)

  module _ (rt : Runtime) where
    -- the steps on the combined array, for at least one parent row
    unfoldable pub multiply_intervals : List Entry → List Entry → M rt.World (List Entry)
    multiply_intervals parent child = do
      let total = length child + 2 * length parent
      reserve rt (total * 32)
      defined (slot_reads join_col child)
      defined (slot_reads parent_join_col parent)
      by_key ← ej_osort_g rt 32 sk_cmp_join_attr sk_make_pad (combined parent child)
      pairs ← ej_osort_g rt 32 sk_cmp_pairwise sk_make_pad (linear_pass cumsum_step by_key)
      ends ← ej_osort_g rt 32 sk_cmp_end_first sk_make_pad (linear_pass interval_step pairs)
      pure (apply_intervals parent ends)

    -- compute_local_mult: the parent's rows with their new multiplicities, or the error return
    unfoldable pub compute_local_mult : List Entry → List Entry → M rt.World (List Entry)
    compute_local_mult parent child =
        if length parent == 0 then pure parent else multiply_intervals parent child
