-- ===== src/Tests/Routing.antt =====
-- An example of the distribution network: two rows of two copies each fill four slots.
use omwj.Prelude.{
  false, ◌≤◌, ℕ, zero, suc, ◌*◌, ◌<◌, ◌≡◌, refl, List, [], ◌∷◌, some, inl, inr, arith,
}
use omwj.Prelude.Word.{eq32}
use omwj.Prelude.Lists.{get_elem?, linear_pass}
use omwj.Trow.{Trow}
use omwj.Distribute.{make_dist_padding, network, expand_step}
use omwj.Distribute.Routes.{Cover}
use omwj.Distribute.Fills.{Filled, network-LastBefore}
use omwj.Tests.Machine.{row}
use omwj.Batching.Rows.{trow_view}

-- 0 and 2
abbrev destination : ℕ → ℕ
destination i = 2 * i

abbrev content : ℕ → Trow
content i = record (trow_view 2 (row 1 3 i 5)) { dst_idx = destination i }

abbrev slot : ℕ → Trow → Trow
slot p t = record t { index = p }

abbrev four : List Trow
four =
    slot 0 (content 0)
    ∷ slot 1 (content 1)
    ∷ slot 2 (make_dist_padding 2)
    ∷ slot 3 (make_dist_padding 2)
    ∷ []

known :
    (i : ℕ)
    → i < 2
    → ((content i).dst_idx ≡ destination i) × (eq32 (content i).field_type 5 ≡ false)
unfolding eq32
known i h = (refl, refl)

inside : (i : ℕ) → i < 2 → destination i < 4
inside i h = omega (arith, h)

small : 4 ≤ 2147483648
small = omega arith

ordered : (i : ℕ) → suc i < 2 → destination i < destination (suc i)
ordered i h = omega arith

four-Cover : Cover 4 2 destination content known inside small (λ i. i) four
unfolding make_dist_padding eq32
four-Cover zero h = (slot 0 (content 0), refl, refl, inl (0, omega arith, refl, refl))
four-Cover (suc zero) h = (slot 1 (content 1), refl, refl, inl (1, omega arith, refl, refl))
four-Cover (suc (suc zero)) h =
    (slot 2 (make_dist_padding 2), refl, refl, inr (refl, λ i k e. omega (arith, k, e)))
four-Cover (suc (suc (suc zero))) h =
    (slot 3 (make_dist_padding 2), refl, refl, inr (refl, λ i k e. omega (arith, k, e)))
four-Cover (suc (suc (suc (suc p)))) h = absurd (omega (arith, h))

network-LastBefore_example :
    (out : List Trow) × (network 4 four ≡ some out)
    × ((p : ℕ)
        → p < 4
        → (t : Trow) × (get_elem? (linear_pass expand_step out) p ≡ some t)
          × (t.index ≡ p)
          × Filled 4 2 destination content known inside small ordered p t)
network-LastBefore_example =
    network-LastBefore 4 2 destination content known inside small ordered four (omega arith) refl
      four-Cover
