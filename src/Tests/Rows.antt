-- ===== src/Tests/Rows.antt =====
-- Examples of the row comparators, the row encryption, the memory counters and the batching baseline.
use omwj.Prelude.{ℕ, ◌⊎◌, inl, inr, ◌+◌, ◌%◌, ◌≡◌, refl, List, [], ◌∷◌, map, some, arith}
use omwj.Prelude.Tests.{ltb}
use omwj.Prelude.Lists.{linear_pass}
use omwj.Prelude.Word.{skey, flag, eq32}
use omwj.Entry.{Entry}
use omwj.Swap.{exchange, modulus64}
use omwj.Skinny.Ranks.{join_rank, pairwise_rank, end_first_rank}
use omwj.BottomUp.{cumsum_step, interval_step, source_rec, start_rec, end_rec}
use omwj.Crypto.{success, aes_encrypt_entry, aes_decrypt_entry, apply_to_decrypted_entry}
use omwj.Crypto.Laws.{aes_decrypt_entry-aes_encrypt_entry, apply_to_decrypted_entry_lem}
use omwj.MemTrack.{
  Tracker, Call, alloc, calloc, free, run, mt_alloc, mt_calloc, mt_free, header_size, drop_header,
}
use omwj.MemTrack.Laws.{AllRoom, AllTrack, run-Tracks}
use omwj.Trow.{Trow, Rrow, trow_make_pad, t_cmp_join_then_other, rr_cmp_join_then_other}
use omwj.Trow.Orders.{padding_last, lexicographic, cmp_join_then_other_lem}
use omwj.Batching.Comparators.{
  comparator_join_attr_op, comparator_pairwise_op, comparator_end_first_op,
}
use omwj.Batching.Merge.{compare_join_attr, compare_pairwise, compare_end_first}
use omwj.Batching.Orders.{sk_view, IsSafe}
use omwj.Batching.Exchanges.{comparator_join_attr_op-exchange, index_comparators-exchange}
use omwj.Batching.Below.{compare_join_attr_lem, index_compares_lem}
use omwj.Crypto.{apply_to_decrypted_pair, crypt_regions}
use omwj.Crypto.Laws.{apply_to_decrypted_pair_lem}
use omwj.Batching.Window.{
  window_increment_index_op, window_compute_local_sum_op, window_compute_local_interval_op,
}
use omwj.Batching.Transform.{
  transform_set_join_attr_op, transform_to_source_op, transform_to_start_op, transform_to_end_op,
  transform_init_local_temps_op, transform_init_final_mult_op,
}
use omwj.Batching.Passes.{window_passes, transforms_lem}
use omwj.Tests.Machine.{row, row-IsRow, shift_cipher, shift_cipher-Sound}

abbrev high : Entry
high = row 3 20 2 9

abbrev low : Entry
low = row 2 4294967286 1 4

safe : (x : ℕ) → (x ≡ 20) ⊎ (x ≡ 4294967286) ⊎ (x ≡ 1) ⊎ (x ≡ 2) → IsSafe x
unfolding skey
safe x h = ground (arith, h)

comparator_join_attr_op-exchange_example :
    comparator_join_attr_op high low
    ≡ exchange (ltb (join_rank (sk_view low)) (join_rank (sk_view high))) high low
comparator_join_attr_op-exchange_example =
    comparator_join_attr_op-exchange high low (row-IsRow 3 20 2 9 refl)
      (row-IsRow 2 4294967286 1 4 refl) (λ h. safe 20 (inl refl))
      (λ h. safe 4294967286 (inr (inl refl)))

index_comparators-exchange_example :
    (comparator_pairwise_op high low
      ≡ exchange (ltb (pairwise_rank (sk_view low)) (pairwise_rank (sk_view high))) high low)
    × (comparator_end_first_op high low
        ≡ exchange (ltb (end_first_rank (sk_view low)) (end_first_rank (sk_view high))) high low)
index_comparators-exchange_example =
    index_comparators-exchange high low (row-IsRow 3 20 2 9 refl) (row-IsRow 2 4294967286 1 4 refl)
      (λ h. safe 2 (inr (inr (inr refl)))) (λ h. safe 1 (inr (inr (inl refl))))

compare_join_attr_lem_example :
    compare_join_attr low high ≡ flag (ltb (join_rank (sk_view low)) (join_rank (sk_view high)))
unfolding eq32
compare_join_attr_lem_example =
    compare_join_attr_lem low high refl (λ h. safe 4294967286 (inr (inl refl)))
      (λ h. safe 20 (inl refl))

index_compares_lem_example :
    (compare_pairwise low high
      ≡ flag (ltb (pairwise_rank (sk_view low)) (pairwise_rank (sk_view high))))
    × (compare_end_first low high
        ≡ flag (ltb (end_first_rank (sk_view low)) (end_first_rank (sk_view high))))
unfolding eq32
index_compares_lem_example =
    index_compares_lem low high refl (λ h. safe 1 (inr (inr (inl refl))))
      (λ h. safe 2 (inr (inr (inr refl))))

window_passes_example :
    (map sk_view (linear_pass window_compute_local_sum_op (low ∷ high ∷ []))
      ≡ linear_pass cumsum_step (map sk_view (low ∷ high ∷ [])))
    × (map sk_view (linear_pass window_compute_local_interval_op (low ∷ high ∷ []))
        ≡ linear_pass interval_step (map sk_view (low ∷ high ∷ [])))
window_passes_example = window_passes (low ∷ high ∷ [])

transforms_lem_example :
    let keyed = transform_set_join_attr_op low 3 in
    (sk_view (transform_init_local_temps_op (transform_to_source_op keyed)) ≡ source_rec 3 low)
    × (sk_view (transform_init_local_temps_op (transform_to_start_op keyed 10 2))
        ≡ start_rec 3 10 2 low)
    × (sk_view (transform_init_local_temps_op (transform_to_end_op keyed 10 2))
        ≡ end_rec 3 10 2 low)
transforms_lem_example = transforms_lem low 3 10 2 (omega arith) (omega arith)

aes_decrypt_entry-aes_encrypt_entry_example :
    (sealed : Entry) × (aes_encrypt_entry 7 shift_cipher high 5
      ≡ (success, sealed, (5 + 1) % modulus64))
    × (sealed.is_encrypted ≡ 1)
    × (aes_decrypt_entry 7 shift_cipher sealed
        ≡ (success, record high { is_encrypted = 0; nonce = 5 }))
aes_decrypt_entry-aes_encrypt_entry_example =
    aes_decrypt_entry-aes_encrypt_entry 7 shift_cipher-Sound high 5 refl

apply_to_decrypted_entry_lem_example :
    let (status, sealed, next) = aes_encrypt_entry 7 shift_cipher high 5 in
    let (out, next') =
      apply_to_decrypted_entry 7 shift_cipher transform_init_final_mult_op sealed 8 in
    aes_decrypt_entry 7 shift_cipher out ≡ (
      success,
      record (transform_init_final_mult_op (record high { is_encrypted = 0; nonce = 5 })) {
        is_encrypted = 0;
        nonce = 8;
      },
    )
unfolding transform_init_final_mult_op
apply_to_decrypted_entry_lem_example =
    apply_to_decrypted_entry_lem 7 shift_cipher-Sound transform_init_final_mult_op high 5 8 refl
      refl

abbrev calls : List Call
calls = alloc (some 100) 40 ∷ calloc (some 200) 3 8 ∷ free (some 100) ∷ []

abbrev fresh : Tracker
fresh = record { g_live = 0; g_peak = 0; headers = [] }

calls-AllRoom : AllRoom calls fresh
unfolding mt_alloc mt_calloc mt_free header_size drop_header
calls-AllRoom = (omega arith, (omega arith, ((40, refl), tt)))

run-Tracks_example : (states : List Tracker) × (run calls fresh ≡ some states) × AllTrack 0 states
run-Tracks_example =
    run-Tracks calls fresh calls-AllRoom
      (record { exact = refl; below = omega arith; fits = omega arith })

abbrev narrow1 : Rrow
narrow1 = record { field_type = 1; join_attr = 5; attributes = 3 ∷ 4 ∷ [] }

abbrev narrow2 : Rrow
narrow2 = record { field_type = 1; join_attr = 5; attributes = 3 ∷ 9 ∷ [] }

abbrev wide1 : Trow
wide1 = record (trow_make_pad 1) { field_type = 5; original_index = 4; alignment_key = 7 }

abbrev wide2 : Trow
wide2 = record (trow_make_pad 1) { field_type = 1; original_index = 6; alignment_key = 7 }

cmp_join_then_other_lem_example :
    (t_cmp_join_then_other 2 (trow_make_pad 2) (trow_make_pad 2)
      ≡ padding_last 0 0 (lexicographic 2 2147483647 2147483647 (0 ∷ 0 ∷ []) (0 ∷ 0 ∷ [])))
    × (rr_cmp_join_then_other 2 narrow1 narrow2
        ≡ padding_last 1 1 (lexicographic 2 5 5 (3 ∷ 4 ∷ []) (3 ∷ 9 ∷ [])))
cmp_join_then_other_lem_example =
    cmp_join_then_other_lem 2 (trow_make_pad 2) (trow_make_pad 2) narrow1 narrow2

abbrev sealed_high : Entry
sealed_high = record (row 3 20 2 9) { is_encrypted = 1; nonce = 3 }

abbrev sealed_low : Entry
sealed_low = record (row 8 21 3 9) { is_encrypted = 1; nonce = 4 }

abbrev plain : Entry → Entry
plain e = (aes_decrypt_entry 7 shift_cipher e).1

abbrev number_second : Entry → Entry → Entry × Entry
number_second e1 e2 = (e1, window_increment_index_op e1 e2)

sealed_high-decrypts : aes_decrypt_entry 7 shift_cipher sealed_high ≡ (success, plain sealed_high)
unfolding aes_decrypt_entry crypt_regions
sealed_high-decrypts = refl

sealed_low-decrypts : aes_decrypt_entry 7 shift_cipher sealed_low ≡ (success, plain sealed_low)
unfolding aes_decrypt_entry crypt_regions
sealed_low-decrypts = refl

apply_to_decrypted_pair_lem_example :
    let (o1, o2, next) =
      apply_to_decrypted_pair 7 shift_cipher number_second sealed_high sealed_low 30 in
    let (r1, r2) = number_second (plain sealed_high) (plain sealed_low) in
    (aes_decrypt_entry 7 shift_cipher o1 ≡ (success, record r1 { is_encrypted = 0; nonce = 30 }))
    × (aes_decrypt_entry 7 shift_cipher o2
        ≡ (success, record r2 { is_encrypted = 0; nonce = (30 + 1) % modulus64 }))
unfolding aes_decrypt_entry crypt_regions window_increment_index_op
apply_to_decrypted_pair_lem_example =
    apply_to_decrypted_pair_lem 7 shift_cipher-Sound number_second sealed_high sealed_low
      (plain sealed_high) (plain sealed_low) 30 refl refl sealed_high-decrypts sealed_low-decrypts
      refl refl
