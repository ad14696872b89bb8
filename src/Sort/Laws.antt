-- ===== src/Sort/Laws.antt =====
-- ej_osort_g sorts: with memory and randomness it returns a sorted permutation of its array.
use mathlib.Core.Logic.{∥∥₁_map}
use mathlib.Core.Path.{subst}
use mathlib.Core.List.Perm
use native.Mathlib.Nat.{pow-suc, mod-eq_of_lt, pow-le-pow_right}
use native.Mathlib.Decide.{dec_lt}
use omwj.Prelude.{
  ℕ, zero, suc, ◌+◌, ◌-◌, ◌*◌, ◌/◌, ◌%◌, ◌^◌, ◌≤◌, ◌<◌, ◌≡◌, refl, sym, ap, ◌∙◌, true, List, [],
  ◌∷◌, ◌++◌, Perm, some, inl, inr, arith,
}
use omwj.Prelude.Tests.{leb, ltb, ◌==◌, if◌then◌else◌, Bool-cases, ltb→lt, leb→le}
use omwj.Prelude.Lists.{length, take, replicate, length-append, length-replicate, take_append, All}
use omwj.Order.{Agrees}
use omwj.Order.Carried.{length-Perm}
use omwj.Order.Sorted.{IsSorted}
use omwj.Order.Split.{below, above, below-append-above, below-Permᴰ, below-IsSorted}
use omwj.Swap.{modulus64}
use omwj.Waksman.{Net, num_switches, waksman}
use omwj.Waksman.Switch.{Ran}
use omwj.Waksman.Network.{Fits, switch_total, waksman-Ran}
use omwj.Waksman.Count.{num_switches_lem}
use omwj.Runtime.{
  Runtime, Lawful, Healthy, ok, defined, pure, reserve, Returns, >>=-ok, defined-some,
}
use omwj.Sort.{grow_to, next_power, draw, bitstream_init, shuffle_sort, stage, ej_osort_g}

cut : {A : Type 0} (xs ys all : List A) (n : ℕ) → all ≡ xs ++ ys → length xs ≡ n → take n all ≡ xs
cut xs ys all n e h = rw e (take_append xs ys n h)

-- The power of two that next_power finds.
abbrev pub NextPower : ℕ → ℕ → Type 0
NextPower n m = (k : ℕ) × (m ≡ 2 ^ k) × (n ≤ m) × (k < 58)

below_top : (j : ℕ) → 2 ^ j < 2 ^ 57 → suc j < 58
below_top j h = elim (dec_lt (suc j) 58) [
  | yes p ↦ p
  | no p ↦
      let large : 2 ^ 57 ≤ 2 ^ j =
        pow-le-pow_right {n = 2} (omega arith) {i = 57} {j = j} (omega arith) in
      absurd (omega arith)
]

grow_to_lem :
    (fuel n j : ℕ)
    → n ≤ 2 ^ 57
    → j < 58
    → 57 < j + fuel
    → (m : ℕ) × (grow_to fuel n (2 ^ j) ≡ some m) × NextPower n m
unfolding grow_to
grow_to_lem zero n j h b f = absurd (omega arith)
grow_to_lem (suc fuel) n j h b f = elim (Bool-cases (ltb (2 ^ j) n)) [
  | inl more ↦
      let small : 2 ^ j < 2 ^ 57 = omega (arith, ltb→lt _ _ more) in
      let room : suc j < 58 = below_top j small in
      let fits : 2 ^ j * 2 % modulus64 ≡ 2 ^ suc j =
        mod-eq_of_lt (omega arith) ∙ omega (arith, pow-suc 2 j) in
      rw (more, grow_to) (rw fits (grow_to_lem fuel n (suc j) h room (omega arith)))
  | inr done ↦ (2 ^ j, rw (done, grow_to) refl, (j, refl, ground arith, b))
]

-- For n at most 2 ^ 57, the doubling loop ends, with the value of a power of two below 2 ^ 58 that is
-- at least n.
pub next_power_lem : (n : ℕ) → n ≤ 2 ^ 57 → (m : ℕ) × (next_power n ≡ some m) × NextPower n m
unfolding next_power
next_power_lem n h = grow_to_lem 65 n 0 h (omega arith) (omega arith)

module _ (rt : Runtime) (healthy : Healthy rt) where
  reserve_lem : (n : ℕ) (w : rt.World) → reserve rt n w ≡ ok tt (rt.alloc n w).1
  unfolding reserve
  reserve_lem n w = rw (healthy.memory n w, reserve) refl

  draw_lem :
      {n : ℕ} {w : rt.World} {bits : List ℕ}
      → (rt.keystream n w).0 ≡ some bits
      → draw rt n w ≡ ok bits (rt.keystream n w).1
  unfolding draw
  draw_lem e = rw (e, draw) refl

  -- With memory left and a working generator, bitstream_init returns a stream that stands at bit 0
  -- and has at least the requested number of bits.
  pub bitstream_init_lem :
      (n : ℕ) (w : rt.World)
      → Returns (bitstream_init rt n w) (λ bs. (bs.next ≡ 0) × (n ≤ 8 * length bs.bits))
  unfolding bitstream_init
  bitstream_init_lem n w =
      let bytes = (n + 7) / 8 in
      let w1 = (rt.alloc bytes w).1 in
      let (bits, drawn, size) = healthy.random bytes w1 in
      (
        record { bits = bits; next = 0 },
        (rt.keystream bytes w1).1,
        >>=-ok (reserve rt bytes) _ (reserve_lem bytes w)
            (>>=-ok (draw rt bytes) _ (draw_lem drawn) refl),
        (refl, omega arith),
      )

  module _ {A : Type 0} (lawful : Lawful rt) (elem_size : ℕ) (cmp : A → A → ℕ) (rank : A → ℕ)
      (make_pad : A) (agrees : Agrees cmp rank) {top : ℕ} (last : rank make_pad ≡ top) where
    pads_last : (n : ℕ) → All (λ x. top ≤ rank x) (replicate n make_pad)
    pads_last zero = tt
    pads_last (suc n) = (omega (arith, last), pads_last n)

    -- What is kept of a sorted permutation of the elements and their padding.
    kept_lem :
        (arr all : List A) (pads n : ℕ)
        → Perm all (arr ++ replicate pads make_pad)
        → length arr ≡ n
        → All (λ x. rank x < top) arr
        → IsSorted rank all
        → Perm (take n all) arr × IsSorted rank (take n all)
    kept_lem arr all pads n p size real s =
        let padding : All (λ x. top ≤ rank x) (replicate pads make_pad) = pads_last pads in
        let low = ∥∥₁_map p (λ q. below-Permᴰ rank top arr _ s q real padding) in
        let same : take n all ≡ below rank top all =
          cut (below rank top all) (above rank top all) all n (below-append-above rank top all s)
            (length-Perm low ∙ size) in
        (rw same low, rw same (below-IsSorted rank top all s))

    shuffle_sort_lem :
        (n m k : ℕ) (buf : List A) (w : rt.World)
        → k < 58
        → m ≡ 2 ^ k
        → length buf ≡ m
        → (all : List A) × (w' : rt.World) × (shuffle_sort rt elem_size cmp make_pad n m buf w
            ≡ ok (take n all) w')
          × Perm all buf
          × IsSorted rank all
    unfolding shuffle_sort
    shuffle_sort_lem n m k buf w h power size =
        let (bs, w1, started, (first, enough)) = bitstream_init_lem (num_switches m) w in
        let net : Net A = record { arr = buf; stream = bs } in
        let bits : num_switches m ≡ switch_total k = ap num_switches power ∙ num_switches_lem k h in
        let fits : Fits 0 1 (2 ^ k) (switch_total k) net = record {
          positive = omega arith;
          inside = omega arith;
          enough = omega arith;
        } in
        let run =
          subst (λ t. Ran net (switch_total k) (waksman 64 0 1 t net)) (sym power)
            (waksman-Ran k 64 0 1 net (omega arith) fits) in
        (
          rt.qsort cmp run.out.arr,
          w1,
          >>=-ok (bitstream_init rt (num_switches m)) _ started
              (>>=-ok (defined (waksman 64 0 1 m net)) _ (defined-some w1 run.returns) refl),
          Perm.trans (lawful.qsort-perm cmp run.out.arr) run.shuffled,
          lawful.qsort-IsSorted cmp rank run.out.arr agrees,
        )

    copy_lem :
        (m n : ℕ) (w : rt.World)
        → (w' : rt.World) × ((if m == n then pure tt else reserve rt (m * elem_size)) w ≡ ok tt w')
    copy_lem m n w = elim (Bool-cases (m == n)) [
      | inl same ↦ (w, rw same refl)
      | inr other ↦ ((rt.alloc (m * elem_size) w).1, rw other (reserve_lem (m * elem_size) w))
    ]

    stage_lem :
        (arr : List A) (w : rt.World)
        → length arr ≤ 2 ^ 57
        → All (λ x. rank x < top) arr
        → Returns (stage rt elem_size cmp make_pad arr w) (λ out. Perm out arr × IsSorted rank out)
    unfolding stage
    stage_lem arr w h real =
        let n = length arr in
        let (m, found, (k, power, room, small)) = next_power_lem n h in
        let buf = arr ++ replicate (m - n) make_pad in
        let size : length buf ≡ m =
          length-append arr _ ∙ omega (arith, length-replicate (m - n) make_pad) in
        let (w1, copied) = copy_lem m n w in
        let (all, w2, sorted, p, s) = shuffle_sort_lem n m k buf w1 small power size in
        (
          take n all,
          w2,
          >>=-ok (defined (next_power n)) _ (defined-some w found)
              (>>=-ok (if m == n then pure tt else reserve rt (m * elem_size)) _ copied sorted),
          kept_lem arr all (m - n) n p refl real s,
        )

    short-IsSorted : (arr : List A) → length arr ≤ 1 → IsSorted rank arr
    short-IsSorted [] h = tt
    short-IsSorted (x ∷ []) h = (tt, tt)
    short-IsSorted (x ∷ y ∷ arr) h = absurd (omega arith)

    -- With memory left, a working generator and a lawful qsort, for a comparator that is the order of
    -- a rank, a record size that is a multiple of 8 and at most 2 ^ 57 records that rank below the
    -- padding record: ej_osort_g returns a permutation of its input that is sorted by rank.
    pub ej_osort_g-sorts :
        (arr : List A) (w : rt.World)
        → elem_size % 8 ≡ 0
        → length arr ≤ 2 ^ 57
        → All (λ x. rank x < top) arr
        → Returns
            (ej_osort_g rt elem_size cmp make_pad arr w)
            (λ out. Perm out arr × IsSorted rank out)
    unfolding ej_osort_g
    ej_osort_g-sorts arr w aligned h real = elim (Bool-cases (leb (length arr) 1)) [
      | inl short ↦ (arr, w, rw short refl, (Perm.rfl, short-IsSorted arr (leb→le _ _ short)))
      | inr long ↦
          let (out, w', e, good) = stage_lem arr w h real in
          let whole : (elem_size % 8 == 0) ≡ true = ground arith in
          (out, w', rw (long, whole) e, good)
    ]
