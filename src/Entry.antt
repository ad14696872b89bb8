-- ===== src/Entry.antt =====
-- common/entry_t.h, common/ecall_types.h: the universal row, the table descriptor and the join
-- tree node. The names of columns are left out: no phase reads them.
pub mod Words
pub mod Slots
use omwj.Prelude.{ℕ, List, [], ◌∷◌, Option, some}
use omwj.Prelude.Lists.{get_or, get_elem?}
use omwj.Prelude.Partial.{◌>>=◌}

-- The 64 attribute slots are a list of words.
pub record Entry : Type 0 where
  pub field_type : ℕ
  pub equality_type : ℕ
  pub is_encrypted : ℕ
  pub nonce : ℕ
  pub join_attr : ℕ
  pub original_index : ℕ
  pub local_mult : ℕ
  pub final_mult : ℕ
  pub foreign_sum : ℕ
  pub local_cumsum : ℕ
  pub local_interval : ℕ
  pub foreign_interval : ℕ
  pub local_weight : ℕ
  pub copy_index : ℕ
  pub alignment_key : ℕ
  pub dst_idx : ℕ
  pub index : ℕ
  pub attributes : List ℕ

-- The value of a slot. Where the code does not keep the column below 64, `slot_reads` says whether
-- the read is in bounds.
abbrev pub attribute : Entry → ℕ → ℕ
attribute e col = get_or e.attributes col 0

-- The loop's reads of one slot of each row; `none` is a read out of bounds.
unfoldable pub slot_reads : ℕ → List Entry → Option (Unit {0})
slot_reads col [] = some tt
slot_reads col (e ∷ rows) = get_elem? e.attributes col >>= λ value. slot_reads col rows

pub record TableDesc : Type 0 where
  pub offset_rows : ℕ
  pub num_rows : ℕ
  pub num_cols : ℕ

pub record JoinNode : Type 0 where
  pub table_idx : ℕ
  pub parent_idx : ℕ
  pub join_col : ℕ
  pub parent_join_col : ℕ
  pub deviation1 : ℕ
  pub equality1 : ℕ
  pub deviation2 : ℕ
  pub equality2 : ℕ
