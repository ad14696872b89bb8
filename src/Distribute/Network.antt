-- ===== src/Distribute/Network.antt =====
-- The distribution network stays inside its array, moves rows only as wholes, and leaves the slot
-- indices where they are.
use native.Mathlib.Nat.{pow-suc, mod-eq_of_lt}
use omwj.Prelude.{
  ℕ, zero, suc, ◌+◌, ◌-◌, ◌*◌, ◌/◌, ◌%◌, ◌^◌, ◌≤◌, ◌<◌, ◌≡◌, ◌≢◌, refl, sym, ap, ◌∙◌, Bool, true,
  false, List, [], ◌∷◌, map, Option, some, inl, inr, arith,
}
use omwj.Prelude.Tests.{leb, ◌==◌, Bool-cases, leb→le}
use omwj.Prelude.Lists.{length, All, get_elem?, set, length-map, get_elem?-lt}
use omwj.Prelude.Partial.{◌>>=◌}
use omwj.Swap.{exchange, modulus64}
use omwj.Trow.{Trow}
use omwj.Waksman.Switch.{get_elem?-set_ne}
use omwj.Distribute.{dist_pair, pair_at, network_pass, network_from, widest, network}

map-set :
    {A B : Type 0} (f : A → B) (xs : List A) (i : ℕ) (x v : A)
    → get_elem? xs i ≡ some x
    → f v ≡ f x
    → map f (set xs i v) ≡ map f xs
map-set f [] i x v e h = refl
map-set f (y ∷ xs) zero x v e h = let same : y ≡ x = cc in rw (h, same) refl
map-set f (y ∷ xs) (suc i) x v e h = ap (◌∷◌ (f y)) (map-set f xs i x v e h)

All-get_elem? :
    {A : Type 0} (P : A → Type 0) (xs : List A) (i : ℕ) {x : A}
    → get_elem? xs i ≡ some x
    → All P xs
    → P x
All-get_elem? P [] i e h = cc
All-get_elem? P (y ∷ xs) zero {x} e h = let same : y ≡ x = cc in rw (← same) h.0
All-get_elem? P (y ∷ xs) (suc i) e h = All-get_elem? P xs i e h.1

All-set :
    {A : Type 0} (P : A → Type 0) (xs : List A) (i : ℕ) (v : A)
    → P v
    → All P xs
    → All P (set xs i v)
All-set P [] i v p h = tt
All-set P (y ∷ xs) zero v p h = (p, h.1)
All-set P (y ∷ xs) (suc i) v p h = (h.0, All-set P xs i v p h.1)

-- A predicate that does not read the slot index.
abbrev pub Portable : (Trow → Type 0) → Type 0
Portable P = (t : Trow) (i : ℕ) → P t → P (record t { index = i })

abbrev pub slots : List Trow → List ℕ
slots = map λ t. t.index

module _ (P : Trow → Type 0) (portable : Portable P) where
  -- A run that returns, with the same slot indices, and no rows but those it was given.
  abbrev pub Moved : List Trow → Option (List Trow) → Type 0
  Moved arr r =
      (out : List Trow) × (r ≡ some out) × (slots out ≡ slots arr) × (All P arr → All P out)

  exchange-kept :
      (t : Bool) (e1 e2 : Trow) → P e1 → P e2 → P (exchange t e1 e2).0 × P (exchange t e1 e2).1
  exchange-kept true e1 e2 p q = (q, p)
  exchange-kept false e1 e2 p q = (p, q)

  dist_pair-kept : (e1 e2 : Trow) → P e1 → P e2 → P (dist_pair e1 e2).0 × P (dist_pair e1 e2).1
  unfolding dist_pair
  dist_pair-kept e1 e2 p q =
      let both = exchange-kept _ e1 e2 p q in
      (portable _ e1.index both.0, portable _ e2.index both.1)

  pair_at-Moved :
      (i j : ℕ) (arr : List Trow)
      → i < length arr
      → j < length arr
      → i ≢ j
      → Moved arr (pair_at i j arr)
  unfolding pair_at dist_pair
  pair_at-Moved i j arr h k apart =
      let (e1, at_i) = get_elem?-lt arr i h in
      let (e2, at_j) = get_elem?-lt arr j k in
      let (f1, f2) = dist_pair e1 e2 in
      let at_j' = get_elem?-set_ne arr i j f1 apart ∙ at_j in
      (
        set (set arr i f1) j f2,
        rw (at_i, at_j) refl,
        map-set (λ t. t.index) (set arr i f1) j e2 f2 at_j' refl
            ∙ map-set (λ t. t.index) arr i e1 f1 at_i refl,
        λ all.
            let both =
              dist_pair-kept e1 e2 (All-get_elem? P arr i at_i all)
                (All-get_elem? P arr j at_j all) in
            All-set P (set arr i f1) j f2 both.1 (All-set P arr i f1 both.0 all),
      )

  pub Moved-length : (arr out : List Trow) → slots out ≡ slots arr → length out ≡ length arr
  Moved-length arr out h =
      sym (length-map (λ t. t.index) out) ∙ ap length h ∙ length-map (λ t. t.index) arr

  then-Moved :
      (arr mid : List Trow) (next : List Trow → Option (List Trow)) {r : Option (List Trow)}
      → r ≡ some mid
      → slots mid ≡ slots arr
      → (All P arr → All P mid)
      → Moved mid (next mid)
      → Moved arr (r >>= next)
  then-Moved arr mid next run same keeps (out, run', same', keeps') =
      (out, rw (run, ◌>>=◌) run', same' ∙ same, λ all. keeps' (keeps all))

  network_pass-Moved :
      (distance j : ℕ) (arr : List Trow)
      → distance ≢ 0
      → j + distance ≤ length arr
      → Moved arr (network_pass distance j arr)
  unfolding network_pass
  network_pass-Moved distance zero arr h k = (arr, refl, refl, λ all. all)
  network_pass-Moved distance (suc j) arr h k =
      let (mid, run, same, keeps) =
        pair_at-Moved j (j + distance) arr (omega arith) (omega arith)
          (λ e. h (omega (arith, e))) in
      let size = Moved-length arr mid same in
      then-Moved arr mid (network_pass distance j) run same keeps
        (network_pass-Moved distance j mid h (omega (arith, size)))

  network_from-Moved :
      (k distance size : ℕ) (arr : List Trow)
      → distance < 2 ^ k
      → distance ≤ size
      → size ≤ length arr
      → Moved arr (network_from (suc k) distance size arr)
  unfolding network_from
  network_from-Moved zero distance size arr small inside fits = elim (Bool-cases (distance == 0)) [
    | inl done ↦ rw done (arr, refl, refl, λ all. all)
    | inr more ↦ absurd (ground (arith, more))
  ]
  network_from-Moved (suc k) distance size arr small inside fits =
      elim (Bool-cases (distance == 0)) [
        | inl done ↦ rw done (arr, refl, refl, λ all. all)
        | inr more ↦
            let (mid, run, same, keeps) =
              network_pass-Moved distance (size - distance) arr (λ e. ground (arith, more, e))
                (omega arith) in
            let size' = Moved-length arr mid same in
            rw more (
              then-Moved arr mid (network_from (suc k) (distance / 2) size) run same keeps (
                network_from-Moved k (distance / 2) size mid (omega (arith, pow-suc 2 k))
                  (omega arith) (omega (arith, size'))))
      ]

  widest-ok :
      (k distance size : ℕ)
      → 0 < distance
      → distance ≤ size
      → size < 2 ^ 63
      → size < distance * 2 ^ k
      → (d : ℕ) × (widest k distance size ≡ some d) × (d ≤ size)
  unfolding widest
  widest-ok zero distance size pos inside small room = absurd (omega arith)
  widest-ok (suc k) distance size pos inside small room =
      let fits : distance * 2 % modulus64 ≡ distance * 2 = mod-eq_of_lt (omega arith) in
      let room' : distance * 2 ^ suc k ≡ distance * 2 * 2 ^ k =
        ap (λ p. distance * p) (pow-suc 2 k) ∙ grind arith in
      elim (Bool-cases (leb (distance * 2 % modulus64) size)) [
        | inl wider ↦
            let (d, run, ok) =
              widest-ok k (distance * 2) size (omega arith) (omega (arith, fits, leb→le _ _ wider))
                small (omega (arith, room')) in
            let run' = ap (λ x. widest k x size) fits ∙ run in (d, rw wider run', ok)
        | inr found ↦ (distance, rw found refl, inside)
      ]

  -- For a nonempty array shorter than 2 ^ 63 and of the given size, the distribution network of step
  -- 5 ends without an access out of bounds; every slot has its index as before, and what is true
  -- of every row given, whatever the slot index, is true of every row of the result.
  pub network-Moved :
      (size : ℕ) (arr : List Trow)
      → 0 < size
      → size < 2 ^ 63
      → length arr ≡ size
      → Moved arr (network size arr)
  unfolding network
  network-Moved size arr some_rows small fits =
      let (d, found, inside) = widest-ok 64 1 size (omega arith) some_rows small (omega arith) in
      rw found (network_from-Moved 64 d size arr (omega arith) inside (omega (arith, fits)))
