-- ===== src/Tests/Joins.antt =====
-- Examples of the enclave's sort, its permutation network and the bottom-up phase.
use omwj.Prelude.{
  ℕ, ◌+◌, ◌*◌, ◌%◌, ◌≤◌, ◌<◌, ◌≡◌, refl, inl, inr, true, List, [], ◌∷◌, map, some, Perm, arith,
}
use omwj.Prelude.Tests.{ltb, if◌then◌else◌}
use omwj.Batching.Heap.{heap_sort}
use omwj.Batching.Heap.Kept.{Keeps, heap_sort-Keeps}
use omwj.Prelude.Lists.{All, linear_pass}
use omwj.Prelude.Word.{skey, add32, modulus, is_neg, is_pos, eq32}
use omwj.Order.{pad_rank}
use omwj.Order.Sorted.{IsSorted}
use omwj.Runtime.{Returns}
use omwj.Skinny.{SkRec, sk_cmp_join_attr, sk_cmp_pairwise, sk_cmp_end_first, sk_make_pad, is_target}
use omwj.Skinny.Ranks.{
  join_rank, pairwise_rank, end_first_rank, sk_cmp_join_attr-Agrees, sk_cmp_orders,
}
use omwj.Swap.{swap_words, ej_oblivious_swap_g}
use omwj.Swap.Laws.{swap-eq-exchange}
use omwj.Waksman.{num_switches, Net, waksman}
use omwj.Waksman.Switch.{Ran}
use omwj.Waksman.Network.{waksman-Ran, switch_total}
use omwj.Waksman.Count.{num_switches_closed}
use omwj.Sort.{ej_osort_g}
use omwj.Sort.Laws.{ej_osort_g-sorts}
use omwj.BottomUp.{cumsum_step, source_rec, start_rec, combined, compute_local_mult}
use omwj.BottomUp.Cumsum.{first_acc}
use omwj.Entry.{Entry, TableDesc, JoinNode}
use omwj.Prelude.Word.{minus_one}
use omwj.BottomUp.Tree.{init_tables, bottom_up}
use omwj.BottomUp.Walk.{TreeInside, bottom_up-Returns}
use omwj.BottomUp.Product.{joined, compute_local_mult-joined}
use omwj.BottomUp.Sums.{child_below, boundary_sums}
use omwj.BottomUp.Returns.{below_pad, unmultiplied, compute_local_mult-Returns}
use omwj.Tests.Machine.{machine, machine-Lawful, machine-Healthy, row}

abbrev later : SkRec
later = source_rec 0 (row 1 0 0 9)

abbrev earlier : SkRec
earlier = start_rec 0 0 1 (row 1 0 1 4)

abbrev three : List SkRec
three = later ∷ earlier ∷ later ∷ []

low_ranks : All (λ x. join_rank x < pad_rank) three
unfolding eq32
low_ranks = ((below_pad later refl).0, ((below_pad earlier refl).0, ((below_pad later refl).0, tt)))

ej_osort_g-sorts_example :
    Returns
      (ej_osort_g machine 32 sk_cmp_join_attr sk_make_pad three 0)
      (λ out. Perm out three × IsSorted join_rank out)
unfolding join_rank eq32
ej_osort_g-sorts_example =
    ej_osort_g-sorts machine machine-Healthy machine-Lawful 32 sk_cmp_join_attr join_rank
      sk_make_pad sk_cmp_join_attr-Agrees refl three 0 refl (omega arith) low_ranks

boundary_sums_example :
    Returns
      (ej_osort_g machine 32 sk_cmp_join_attr sk_make_pad
        (combined 0 0 0 1 0 1 (row 0 0 0 5 ∷ []) (row 0 0 0 5 ∷ row 0 0 1 7 ∷ []))
        0)
      (λ by_key.
        All
          (λ r.
            is_target r ≡ true
            → r.acc % modulus
              ≡ (first_acc by_key + child_below 0 (join_rank r) (row 0 0 0 5 ∷ row 0 0 1 7 ∷ []))
                % modulus)
          (linear_pass cumsum_step by_key))
boundary_sums_example =
    boundary_sums 0 0 0 1 0 1 (row 0 0 0 5 ∷ []) (row 0 0 0 5 ∷ row 0 0 1 7 ∷ []) (inl refl)
      (inl refl) machine machine-Healthy machine-Lawful 0 (omega arith)

compute_local_mult-Returns_example :
    Returns
      (compute_local_mult 0 0 0 1 0 1 machine (row 0 0 0 5 ∷ []) (row 0 0 0 5 ∷ row 0 0 1 7 ∷ []) 0)
      (λ out. map unmultiplied out ≡ map unmultiplied (row 0 0 0 5 ∷ []))
compute_local_mult-Returns_example =
    compute_local_mult-Returns machine machine-Healthy machine-Lawful 0 0 0 1 0 1 (row 0 0 0 5 ∷ [])
      (row 0 0 0 5 ∷ row 0 0 1 7 ∷ []) (omega arith) (omega arith, (omega arith, tt))
      (omega arith, tt) 0

abbrev four : Net ℕ
four = record { arr = 10 ∷ 11 ∷ 12 ∷ 13 ∷ []; stream = record { bits = 181 ∷ []; next = 0 } }

waksman-Ran_example : Ran four 5 (waksman 3 0 1 4 four)
waksman-Ran_example =
    waksman-Ran 2 3 0 1 four (omega arith)
      (record { positive = omega arith; inside = omega arith; enough = omega arith })

num_switches_closed_example :
    (num_switches 1024 + 1024 ≡ 10 * 1024 + 1) × (num_switches 1024 ≡ switch_total 10)
num_switches_closed_example = num_switches_closed 10 (omega arith)

swap-eq-exchange_example :
    (swap_words (5 ∷ 6 ∷ []) (7 ∷ 8 ∷ []) 2 1 ≡ (7 ∷ 8 ∷ [], 5 ∷ 6 ∷ []))
    × (ej_oblivious_swap_g (5 ∷ 6 ∷ []) (7 ∷ 8 ∷ []) 16 1 ≡ (7 ∷ 8 ∷ [], 5 ∷ 6 ∷ []))
swap-eq-exchange_example =
    swap-eq-exchange (5 ∷ 6 ∷ []) (7 ∷ 8 ∷ []) 2 1 refl refl (omega arith, (omega arith, tt))
      (omega arith, (omega arith, tt))

sk_cmp_orders_example :
    (is_neg (sk_cmp_join_attr earlier later) ≡ ltb (join_rank earlier) (join_rank later))
    × (is_pos (sk_cmp_join_attr earlier later) ≡ ltb (join_rank later) (join_rank earlier))
    × (is_neg (sk_cmp_pairwise earlier later) ≡ ltb (pairwise_rank earlier) (pairwise_rank later))
    × (is_pos (sk_cmp_pairwise earlier later) ≡ ltb (pairwise_rank later) (pairwise_rank earlier))
    × (is_neg (sk_cmp_end_first earlier later)
        ≡ ltb (end_first_rank earlier) (end_first_rank later))
    × (is_pos (sk_cmp_end_first earlier later)
        ≡ ltb (end_first_rank later) (end_first_rank earlier))
sk_cmp_orders_example = sk_cmp_orders earlier later

abbrev parts : TableDesc
parts = record { offset_rows = 0; num_rows = 1; num_cols = 1 }

abbrev orders : TableDesc
orders = record { offset_rows = 1; num_rows = 2; num_cols = 1 }

abbrev part_node : JoinNode
part_node = record {
  table_idx = 0;
  parent_idx = 1;
  join_col = 0;
  parent_join_col = 0;
  deviation1 = 0;
  equality1 = 1;
  deviation2 = 0;
  equality2 = 1;
}

abbrev root_node : JoinNode
root_node = record {
  table_idx = 1;
  parent_idx = minus_one;
  join_col = minus_one;
  parent_join_col = minus_one;
  deviation1 = 0;
  equality1 = 0;
  deviation2 = 0;
  equality2 = 0;
}

abbrev tables : List TableDesc
tables = parts ∷ orders ∷ []

abbrev tree : List JoinNode
tree = part_node ∷ root_node ∷ []

abbrev stored : List Entry
stored = row 0 0 0 5 ∷ row 0 0 0 5 ∷ row 0 0 1 7 ∷ []

tree-TreeInside : TreeInside machine machine-Healthy machine-Lawful tree tables 3 tree
unfolding is_neg
tree-TreeInside =
    let limit : 3 ≤ 4294967296 = omega arith in
    (
      λ h. (
        root_node,
        orders,
        parts,
        refl,
        refl,
        refl,
        (omega arith, limit),
        (omega arith, limit),
        omega arith,
        omega arith,
        omega arith,
      ),
      ((λ h. absurd (ground (arith, h))), tt),
    )

bottom_up-Returns_example : Returns (bottom_up machine tree tables stored 0) (λ out.
    (ready : List Entry) × (init_tables tables stored ≡ some ready)
    × (map unmultiplied out ≡ map unmultiplied ready))
bottom_up-Returns_example =
    bottom_up-Returns machine machine-Healthy machine-Lawful tree tables stored 0
      ((omega arith, omega arith), ((omega arith, omega arith), tt)) tree-TreeInside
      (refl, (refl, (refl, tt)))

abbrev orders_of : List Entry
orders_of = row 3 0 0 5 ∷ row 4 0 1 2 ∷ []

abbrev items : List Entry
items = row 3 0 0 5 ∷ row 4 0 1 7 ∷ row 9 0 2 1 ∷ []

compute_local_mult-joined_example :
    Returns
      (compute_local_mult 0 0 0 1 1 2 machine orders_of items 0)
      (λ out. out ≡ map (joined 0 0 0 1 1 2 items) orders_of)
unfolding skey add32
compute_local_mult-joined_example =
    compute_local_mult-joined machine machine-Healthy machine-Lawful 0 0 0 1 1 2 orders_of items
      (inl refl) (inr refl) ((omega arith, tt), (tt, tt)) (omega arith, (omega arith, tt))
      (omega arith) (omega arith, (omega arith, (omega arith, tt))) (omega arith, (omega arith, tt))
      0

abbrev is_below : ℕ → ℕ → ℕ
is_below a b = if ltb a b then 1 else 0

heap_sort-Keeps_example : Keeps (3 ∷ 1 ∷ 2 ∷ []) (heap_sort is_below (3 ∷ 1 ∷ 2 ∷ []))
heap_sort-Keeps_example = heap_sort-Keeps is_below (3 ∷ 1 ∷ 2 ∷ []) (omega arith)
