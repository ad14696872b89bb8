-- ===== src/Entry/Slots.antt =====
-- Rows with all 64 slots: a read of a slot stays inside them.
use mathlib.Core.List.{head-eq_of_cons-eq, tail-eq_of_cons-eq}
use omwj.Prelude.{ℕ, zero, suc, ◌<◌, ◌≡◌, refl, sym, ap, ◌∙◌, List, [], ◌∷◌, map, some, arith}
use omwj.Prelude.Lists.{length, All, get_elem?, get_elem?-lt, set, take, drop}
use omwj.Prelude.Partial.{◌>>=◌}
use omwj.Entry.{Entry, slot_reads}

abbrev pub HasSlot : ℕ → Entry → Type 0
HasSlot col e = col < length e.attributes

abbrev pub IsWhole : Entry → Type 0
IsWhole e = length e.attributes ≡ 64

pub slot_reads_lem :
    (col : ℕ) (rows : List Entry) → All (HasSlot col) rows → slot_reads col rows ≡ some tt
unfolding slot_reads
slot_reads_lem col [] h = refl
slot_reads_lem col (e ∷ rows) h =
    let (x, found) = get_elem?-lt e.attributes col h.0 in
    rw (found, ◌>>=◌) (slot_reads_lem col rows h.1)

-- The rows of a table have the column of a join.
pub table-HasSlot :
    (col o n : ℕ) (rows : List Entry)
    → col < 64
    → All IsWhole rows
    → All (HasSlot col) (take n (drop o rows))
table-HasSlot col zero zero rows small h = tt
table-HasSlot col zero (suc n) [] small h = tt
table-HasSlot col zero (suc n) (e ∷ rows) small h =
    (omega (arith, small, h.0), table-HasSlot col zero n rows small h.1)
table-HasSlot col (suc o) zero rows small h = tt
table-HasSlot col (suc o) (suc n) [] small h = tt
table-HasSlot col (suc o) (suc n) (e ∷ rows) small h = table-HasSlot col o (suc n) rows small h.1

abbrev slots : Entry → List ℕ
slots e = e.attributes

-- A step on rows that leaves the slots alone.
abbrev pub SameSlots : (Entry → Entry) → Type 0
SameSlots f = (e : Entry) → (f e).attributes ≡ e.attributes

pub map-IsWhole :
    (f : Entry → Entry)
    → SameSlots f
    → (rows out : List Entry) → map f out ≡ map f rows
    → All IsWhole rows
    → All IsWhole out
map-IsWhole f same [] [] e h = tt
map-IsWhole f same [] (x ∷ out) e h = cc
map-IsWhole f same (r ∷ rows) [] e h = cc
map-IsWhole f same (r ∷ rows) (x ∷ out) e h =
    let row : f x ≡ f r = head-eq_of_cons-eq e in
    (
      ap length (sym (same x) ∙ ap slots row ∙ same r) ∙ h.0,
      map-IsWhole f same rows out (tail-eq_of_cons-eq e) h.1,
    )

pub set-IsWhole :
    (rows : List Entry) (i : ℕ) {e : Entry} (f : Entry → Entry)
    → SameSlots f
    → get_elem? rows i ≡ some e
    → All IsWhole rows
    → All IsWhole (set rows i (f e))
set-IsWhole [] i f same found h = tt
set-IsWhole (r ∷ rows) zero {e} f same found h =
    let row : r ≡ e = cc in (ap length (same e ∙ ap slots (sym row)) ∙ h.0, h.1)
set-IsWhole (r ∷ rows) (suc i) f same found h = (h.0, set-IsWhole rows i f same found h.1)
