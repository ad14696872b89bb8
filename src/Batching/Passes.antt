-- ===== src/Batching/Passes.antt =====
-- The bottom-up passes of the batching baseline over rows are those of the enclave over records.
use omwj.Constants.{start, end}
use omwj.Prelude.{ℕ, ◌<◌, ◌≡◌, refl, ap, Bool, true, ◌&&◌, ◌%◌, List, [], ◌∷◌, map, arith}
use omwj.Prelude.Tests.{ltb, lt→ltb}
use omwj.Prelude.Lists.{pass_from, linear_pass}
use omwj.Prelude.Word.{eq32, mul32, flag, int16, modulus}
use omwj.Entry.{Entry}
use omwj.BottomUp.{cumsum_step, interval_step, source_rec, start_rec, end_rec}
use omwj.Batching.Oblivious.{select}
use omwj.Batching.Orders.{sk_view}
use omwj.Batching.Window.{window_compute_local_sum_op, window_compute_local_interval_op}
use omwj.Batching.Transform.{
  transform_set_join_attr_op, transform_to_source_op, transform_to_start_op, transform_to_end_op,
  transform_init_local_temps_op,
}

module _ {ℓ κ} {A : Type ℓ} {B : Type κ} (v : A → B) (f : A → A → A) (g : B → B → B)
    (step : (a b : A) → v (f a b) ≡ g (v a) (v b)) where
  map-pass_from :
      (prev : A) (xs : List A) → map v (pass_from f prev xs) ≡ pass_from g (v prev) (map v xs)
  map-pass_from prev [] = refl
  map-pass_from prev (x ∷ xs) = rw (map-pass_from (f prev x) xs, step prev x) refl

  pub map-linear_pass : (xs : List A) → map v (linear_pass f xs) ≡ linear_pass g (map v xs)
  map-linear_pass [] = refl
  map-linear_pass (x ∷ xs) = ap (◌∷◌ (v x)) (map-pass_from x xs)

sum_step :
    (e1 e2 : Entry)
    → sk_view (window_compute_local_sum_op e1 e2) ≡ cumsum_step (sk_view e1) (sk_view e2)
unfolding window_compute_local_sum_op cumsum_step
sum_step e1 e2 = refl

pub flag-and : (p q : Bool) → mul32 (flag p) (flag q) ≡ flag (p && q)
unfolding mul32
flag-and p q = ground arith

pair_step :
    (e1 e2 : Entry)
    → sk_view (window_compute_local_interval_op e1 e2) ≡ interval_step (sk_view e1) (sk_view e2)
unfolding window_compute_local_interval_op interval_step select
pair_step e1 e2 = rw (flag-and (eq32 e1.field_type start) (eq32 e2.field_type end)) refl

-- On any array of rows, the window passes of the baseline's bottom-up phase compute, record by
-- record, the two linear passes of compute_local_mult: the running sums of step 3 and the
-- intervals of step 5.
pub window_passes :
    (xs : List Entry)
    → (map sk_view (linear_pass window_compute_local_sum_op xs)
        ≡ linear_pass cumsum_step (map sk_view xs))
      × (map sk_view (linear_pass window_compute_local_interval_op xs)
          ≡ linear_pass interval_step (map sk_view xs))
window_passes xs = (
  map-linear_pass sk_view window_compute_local_sum_op cumsum_step sum_step xs,
  map-linear_pass sk_view window_compute_local_interval_op interval_step pair_step xs,
)

int16-small : (a : ℕ) → a < 32768 → int16 a ≡ a
unfolding int16
int16-small a h = ground arith

-- The transforms that the baseline applies to a row before the bottom-up phase make the record
-- that step 1 of compute_local_mult makes, for a column of the row and an equality tag that fits
-- int16_t: for a child row, a parent row's START and a parent row's END, in this order. The
-- baseline's interval is 0 there, and its running sum starts as the row's multiplicity.
pub transforms_lem :
    (e : Entry) (col dev eq : ℕ)
    → col < 64
    → eq < 32768
    → let keyed = transform_set_join_attr_op e col in
      (sk_view (transform_init_local_temps_op (transform_to_source_op keyed)) ≡ source_rec col e)
      × (sk_view (transform_init_local_temps_op (transform_to_start_op keyed dev eq))
          ≡ start_rec col dev eq e)
      × (sk_view (transform_init_local_temps_op (transform_to_end_op keyed dev eq))
          ≡ end_rec col dev eq e)
unfolding transform_init_local_temps_op transform_to_source_op transform_to_start_op
    transform_to_end_op transform_set_join_attr_op
transforms_lem e col dev eq h k =
    let column : col % modulus ≡ col = ground arith in
    let inside : ltb col 64 ≡ true = lt→ltb col 64 h in
    let tag = int16-small eq k in rw (column, inside, tag) (refl, refl, refl)
