-- ===== src/Entry/Words.antt =====
-- A row as the sequence of its fields, in memory order: the two regions that are encrypted, and
-- the flag and the nonce between them.
use omwj.Prelude.{ℕ, ◌+◌, ◌≡◌, refl, List, [], ◌∷◌, ◌++◌, arith}
use omwj.Prelude.Lists.{length}
use omwj.Entry.{Entry}

abbrev pub head_words : Entry → List ℕ
head_words e = e.field_type ∷ e.equality_type ∷ []

abbrev pub tail_words : Entry → List ℕ
tail_words e =
    e.join_attr ∷ e.original_index ∷ e.local_mult ∷ e.final_mult ∷ e.foreign_sum ∷ e.local_cumsum
    ∷ e.local_interval ∷ e.foreign_interval ∷ e.local_weight ∷ e.copy_index ∷ e.alignment_key
    ∷ e.dst_idx ∷ e.index ∷ e.attributes

abbrev pub words : Entry → List ℕ
words e = head_words e ++ (e.is_encrypted ∷ e.nonce ∷ tail_words e)

-- A write of the first region; a list of another shape changes nothing.
abbrev pub with_head : Entry → List ℕ → Entry
with_head e (ft ∷ et ∷ ws) = record e { field_type = ft; equality_type = et }
with_head e ws = e

-- A write of the second region.
abbrev pub with_tail : Entry → List ℕ → Entry
with_tail e (ja ∷ oi ∷ lm ∷ fm ∷ fs ∷ lc ∷ li ∷ fi ∷ lw ∷ ci ∷ ak ∷ di ∷ ix ∷ attrs) = record e {
  join_attr = ja;
  original_index = oi;
  local_mult = lm;
  final_mult = fm;
  foreign_sum = fs;
  local_cumsum = lc;
  local_interval = li;
  foreign_interval = fi;
  local_weight = lw;
  copy_index = ci;
  alignment_key = ak;
  dst_idx = di;
  index = ix;
  attributes = attrs;
}
with_tail e ws = e

-- A write of all fields.
abbrev pub with_words : Entry → List ℕ → Entry
with_words e (ft ∷ et ∷ enc ∷ n ∷ ws) =
    with_tail (record e { field_type = ft; equality_type = et; is_encrypted = enc; nonce = n }) ws
with_words e ws = e

pub with_words-words : (e f : Entry) → with_words e (words f) ≡ f
with_words-words e f = refl

pub length-words : (e : Entry) → length (words e) ≡ 17 + length e.attributes
length-words e = omega arith
