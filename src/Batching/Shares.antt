-- ===== src/Batching/Shares.antt =====
-- The top-down passes of the batching baseline over rows are those of the enclave over records.
use omwj.Constants.{start, end, source, eq_open}
use omwj.Prelude.{ℕ, ◌≡◌, refl, ap, ◌&&◌, List, map, arith}
use omwj.Prelude.Tests.{if◌then◌else◌}
use omwj.Prelude.Lists.{linear_pass}
use omwj.Prelude.Word.{eq32, add32, sub32, mul32, div32, flag}
use omwj.Entry.{Entry}
use omwj.Skinny.{SkRec}
use omwj.TopDown.{share_step, range_step}
use omwj.Batching.Oblivious.{select}
use omwj.Batching.Passes.{map-linear_pass, flag-and}
use omwj.Batching.Window.{window_compute_foreign_sum_op, window_compute_foreign_interval_op}

-- A row as the working record of the top-down phase.
abbrev pub share_view : Entry → SkRec
share_view e = record {
  join_attr = e.join_attr;
  field_type = e.field_type;
  equality_type = e.equality_type;
  original_index = e.original_index;
  local_mult = e.local_mult;
  acc = e.foreign_sum;
  interval = e.foreign_interval;
  weight = e.local_weight;
  fmult = e.final_mult;
}

weight_assoc : (w a b : ℕ) → add32 w (sub32 a b) ≡ sub32 (add32 w a) b
unfolding add32 sub32
weight_assoc w a b = omega arith

weigh_step :
    (e1 e2 : Entry)
    → share_view (window_compute_foreign_sum_op e1 e2) ≡ share_step (share_view e1) (share_view e2)
unfolding window_compute_foreign_sum_op share_step
weigh_step e1 e2 =
    let skip =
      eq32 e1.field_type start
      && eq32 e1.equality_type eq_open
      && eq32 e1.join_attr e2.join_attr
      && eq32 e2.field_type source in
    let counts = mul32 (flag (eq32 e2.field_type source)) (sub32 1 (flag skip)) in
    let weighed : ℕ → SkRec = λ w. record (share_view e2) {
      weight = w;
      acc = add32 e1.foreign_sum (mul32 counts (div32 e2.final_mult (if eq32 w 0 then 1 else w)));
    } in
    ap weighed (weight_assoc e1.local_weight _ _)

range_view :
    (e1 e2 : Entry)
    → share_view (window_compute_foreign_interval_op e1 e2)
      ≡ range_step (share_view e1) (share_view e2)
unfolding window_compute_foreign_interval_op range_step select
range_view e1 e2 = rw (flag-and (eq32 e1.field_type start) (eq32 e2.field_type end)) refl

-- On any array of rows, the window passes of the baseline's top-down phase compute, record by
-- record, the two linear passes of compute_final_mult: the weights and shares of step 3 and the
-- intervals of step 5.
pub foreign_passes :
    (xs : List Entry)
    → (map share_view (linear_pass window_compute_foreign_sum_op xs)
        ≡ linear_pass share_step (map share_view xs))
      × (map share_view (linear_pass window_compute_foreign_interval_op xs)
          ≡ linear_pass range_step (map share_view xs))
foreign_passes xs = (
  map-linear_pass share_view window_compute_foreign_sum_op share_step weigh_step xs,
  map-linear_pass share_view window_compute_foreign_interval_op range_step range_view xs,
)
