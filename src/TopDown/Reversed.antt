-- ===== src/TopDown/Reversed.antt =====
-- The constraint that compute_final_mult makes of a child row is that of compute_local_mult, read
-- from the other side.
use omwj.Prelude.{ℕ, ◌+◌, ◌≤◌, ◌≡◌, arith}
use omwj.Prelude.Word.{skey, add32, sub32, neg32}
use omwj.Entry.{Entry, attribute}
use omwj.BottomUp.{source_rec, start_rec, end_rec}
use omwj.BottomUp.Product.{within}
use omwj.TopDown.{share_source, share_start, share_end}

-- From -2 ^ 29 to 2 ^ 29, so that sums and negations do not wrap.
abbrev pub IsSmall : ℕ → Type 0
IsSmall x = (1610612736 ≤ skey x) × (skey x ≤ 2684354560)

shift : (a d : ℕ) → IsSmall a → IsSmall d → skey (add32 a d) + 2147483648 ≡ skey a + skey d
unfolding skey add32
shift a d h k = omega (arith, h, k)

turn : (d : ℕ) → IsSmall d → skey (neg32 d) + skey d ≡ 4294967296
unfolding skey neg32 sub32
turn d h = omega (arith, h)

turn-IsSmall : (d : ℕ) → IsSmall d → IsSmall (neg32 d)
turn-IsSmall d h = let e = turn d h in (omega (arith, h, e), omega (arith, h, e))

-- Let the two keys and the two deviations lie between -2 ^ 29 and 2 ^ 29. Then a child row's
-- SOURCE of the bottom-up phase is in the range from a parent row's START to its END exactly when
-- the parent row's SOURCE of the top-down phase is in the range from the child row's START to its
-- END, each boundary with the equality tag of its own record.
pub range-reversed :
    (parent child : Entry) (col1 col2 dev1 eq1 dev2 eq2 : ℕ)
    → IsSmall (attribute parent col1)
    → IsSmall (attribute child col2)
    → IsSmall dev1
    → IsSmall dev2
    → within
        (skey (start_rec col1 dev1 eq1 parent).join_attr)
        (start_rec col1 dev1 eq1 parent).equality_type
        (skey (end_rec col1 dev2 eq2 parent).join_attr)
        (end_rec col1 dev2 eq2 parent).equality_type
        (skey (source_rec col2 child).join_attr)
      ≡ within
          (skey (share_start col2 dev2 eq2 child).join_attr)
          (share_start col2 dev2 eq2 child).equality_type
          (skey (share_end col2 dev1 eq1 child).join_attr)
          (share_end col2 dev1 eq1 child).equality_type
          (skey (share_source col1 parent).join_attr)
unfolding within
range-reversed parent child col1 col2 dev1 eq1 dev2 eq2 p c d1 d2 = ground (
  arith,
  shift (attribute parent col1) dev1 p d1,
  shift (attribute parent col1) dev2 p d2,
  shift (attribute child col2) (neg32 dev2) c (turn-IsSmall dev2 d2),
  shift (attribute child col2) (neg32 dev1) c (turn-IsSmall dev1 d1),
  turn dev1 d1,
  turn dev2 d2,
)
