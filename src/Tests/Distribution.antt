-- ===== src/Tests/Distribution.antt =====
-- An example of the distribution of a batch: two rows, of which one is encrypted, and padding.
use omwj.Prelude.{
  ℕ, zero, suc, ◌≤◌, ◌<◌, ◌≡◌, refl, true, false, List, [], ◌∷◌, some, inl, inr, arith,
}
use omwj.Prelude.Lists.{length, All, replicate}
use omwj.Prelude.Word.{eq32}
use omwj.Constants.{dist_padding}
use omwj.Entry.{Entry}
use omwj.Entry.Words.{words}
use omwj.Crypto.{aes_decrypt_entry, crypt_regions}
use omwj.Batching.Exchanges.{IsRow}
use omwj.Batching.Batch.Laws.{Opens, AllOpens, AllReseals}
use omwj.Batching.Aks.{aks_distribute}
use omwj.Batching.Aks.Swaps.{slot}
use omwj.Batching.Aks.Call.{Compact, Delivered, aks_distribute-delivers}
use omwj.Tests.Machine.{row, row-IsRow, IsWords-check, shift_cipher, shift_cipher-Sound}

abbrev first : Entry
first = record (row 1 20 0 9) { dst_idx = 1 }

abbrev second : Entry
second = record (row 1 7 0 5) { dst_idx = 2; nonce = 3 }

abbrev gap : Entry
gap = row 5 0 0 0

-- The second row, encrypted under the nonce 3.
abbrev sealed_second : Entry
sealed_second = record (row 4 11 4 9) {
  equality_type = 4;
  is_encrypted = 1;
  nonce = 3;
  local_mult = 5;
  final_mult = 4;
  foreign_sum = 4;
  local_cumsum = 4;
  local_interval = 4;
  foreign_interval = 4;
  local_weight = 4;
  copy_index = 4;
  alignment_key = 4;
  dst_idx = 6;
  index = 4;
}

abbrev batch : List Entry
batch = first ∷ sealed_second ∷ gap ∷ []

abbrev plains : List Entry
plains = first ∷ second ∷ gap ∷ []

batch-AllOpens : AllOpens 5 shift_cipher batch plains
unfolding aes_decrypt_entry crypt_regions
batch-AllOpens =
    let one : Opens 5 shift_cipher first first = record {
      opened = refl;
      bare = refl;
      marked = inl refl;
    } in
    let two : Opens 5 shift_cipher sealed_second second = record {
      opened = refl;
      bare = refl;
      marked = inr refl;
    } in
    let three : Opens 5 shift_cipher gap gap = record {
      opened = refl;
      bare = refl;
      marked = inl refl;
    } in
    (one, (two, (three, tt)))

plains-IsRow : All IsRow plains
plains-IsRow = (
  (refl, IsWords-check (words first) refl),
  ((refl, IsWords-check (words second) refl), (row-IsRow 5 0 0 0 refl, tt)),
)

inside_lem : (j : ℕ) → j < 2 → (slot first plains j).dst_idx < 3
inside_lem zero h = omega arith
inside_lem (suc zero) h = omega arith
inside_lem (suc (suc j)) h = absurd (omega arith)

ordered_lem :
    (j : ℕ) → suc j < 2 → (slot first plains j).dst_idx < (slot first plains (suc j)).dst_idx
ordered_lem zero h = omega arith
ordered_lem (suc j) h = absurd (omega arith)

filled_lem : (j : ℕ) → j < 2 → eq32 (slot first plains j).field_type dist_padding ≡ false
unfolding eq32
filled_lem zero h = refl
filled_lem (suc zero) h = refl
filled_lem (suc (suc j)) h = absurd (omega arith)

padding_lem : (j : ℕ) → 2 ≤ j → j < 3 → eq32 (slot first plains j).field_type dist_padding ≡ true
unfolding eq32
padding_lem zero from h = absurd (omega arith)
padding_lem (suc zero) from h = absurd (omega arith)
padding_lem (suc (suc zero)) from h = refl
padding_lem (suc (suc (suc j))) from h = absurd (omega arith)

plains-Compact : Compact first 2 plains
plains-Compact = record {
  few = omega arith;
  inside = inside_lem;
  ordered = ordered_lem;
  filled = filled_lem;
  padding = padding_lem;
}

aks_distribute-delivers_example :
    (routed sealed : List Entry) × (counter' : ℕ) × (aks_distribute 5 shift_cipher batch 8
      ≡ some (sealed, counter'))
    × AllReseals 5 shift_cipher (replicate (length routed) 1) routed sealed
    × (length routed ≡ length batch)
    × ((p : ℕ) → p < length batch → Delivered first 2 plains routed p)
aks_distribute-delivers_example =
    aks_distribute-delivers 5 shift_cipher shift_cipher-Sound first 2 batch plains 8 (omega arith)
      batch-AllOpens plains-IsRow plains-Compact
