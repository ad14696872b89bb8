-- ===== src/Batching/Aks/Sequence.antt =====
-- Rows in the order of their destinations, and where a block of slots holds them.
use omwj.Prelude.{
  ℕ, zero, suc, ◌+◌, ◌-◌, ◌%◌, ◌≤◌, ◌<◌, ◌≡◌, ◌≢◌, true, false, List, inl, inr, arith,
}
use omwj.Prelude.Tests.{ltb, ◌==◌, Bool-cases}
use omwj.Prelude.Word.{lt32, eq32, skey}
use omwj.Constants.{dist_padding}
use omwj.Entry.{Entry}
use omwj.Batching.Aks.Swaps.{slot}

-- The first c rows of a sequence: their destinations increase and lie in a range of `size` slots.
pub record Source (e : ℕ → Entry) (c index size : ℕ) : Type 0 where
  pub low : (j : ℕ) → j < c → index ≤ (e j).dst_idx
  pub high : (j : ℕ) → j < c → (e j).dst_idx < index + size
  pub ordered : (j : ℕ) → suc j < c → (e j).dst_idx < (e (suc j)).dst_idx
  pub filled : (j : ℕ) → j < c → eq32 (e j).field_type dist_padding ≡ false

-- Distinct destinations are at least as far apart as their rows.
apart_lem :
    (e : ℕ → Entry) (c index size : ℕ)
    → Source e c index size
    → (d j : ℕ) → j + d < c
    → (e j).dst_idx + d ≤ (e (j + d)).dst_idx
apart_lem e c index size s zero j h = let same : j + 0 ≡ j = omega arith in rw same (omega arith)
apart_lem e c index size s (suc d) j h =
    let near = apart_lem e c index size s d j (omega arith) in
    let next = s.ordered (j + d) (omega arith) in
    let same : j + suc d ≡ suc (j + d) = omega arith in rw same (omega (arith, near, next))

-- How many of the rows go to the first slots.
pub threshold :
    (e : ℕ → Entry) (c index size mid : ℕ)
    → Source e c index size
    → (t : ℕ) × (t ≤ c)
      × ((j : ℕ) → j < t → (e j).dst_idx < mid)
      × ((j : ℕ) → t ≤ j → j < c → mid ≤ (e j).dst_idx)
threshold e zero index size mid s =
    (0, omega arith, (λ j h. absurd (omega (arith, h))), λ j h k. absurd (omega (arith, k)))
threshold e (suc c) index size mid s =
    let (t, inside, below, above) = threshold e c index size mid (record {
      low = λ j h. s.low j (omega arith);
      high = λ j h. s.high j (omega arith);
      ordered = λ j h. s.ordered j (omega arith);
      filled = λ j h. s.filled j (omega arith);
    }) in
    elim (Bool-cases (t == c)) [
      | inl all ↦
          let e_t : t ≡ c = ground (arith, all) in
          elim (Bool-cases (ltb (e c).dst_idx mid)) [
            | inl left ↦ (
              suc c,
              omega arith,
              (λ j h. elim (Bool-cases (j == c)) [
                | inl last ↦ let e_j : j ≡ c = ground (arith, last) in rw e_j (ground (arith, left))
                | inr before ↦ below j (ground (arith, before, h, e_t))
              ]),
              λ j h k. absurd (omega (arith, h, k)),
            )
            | inr right ↦ (
              c,
              omega arith,
              (λ j h. below j (omega (arith, h, e_t))),
              λ j h k. let e_j : j ≡ c = omega (arith, h, k) in rw e_j (ground (arith, right)),
            )
          ]
      | inr some_right ↦
          let less : t < c = ground (arith, some_right, inside) in
          let prev : suc (c - 1) ≡ c = omega (arith, less) in
          let last = above (c - 1) (omega (arith, less)) (omega (arith, less)) in
          let next : (e (c - 1)).dst_idx < (e (suc (c - 1))).dst_idx =
            s.ordered (c - 1) (omega (arith, prev)) in
          let next' : (e (c - 1)).dst_idx < (e c).dst_idx = rw prev at next in
          (
            t,
            omega (arith, inside),
            below,
            λ j h k. elim (Bool-cases (j == c)) [
              | inl end ↦
                  let e_j : j ≡ c = ground (arith, end) in rw e_j (omega (arith, last, next'))
              | inr before ↦ above j h (ground (arith, before, k))
            ],
          )
    ]

module _ (e : ℕ → Entry) (c index half rest : ℕ) (s : Source e c index (half + rest)) (t : ℕ)
    (inside : t ≤ c) (below : (j : ℕ) → j < t → (e j).dst_idx < index + half)
    (above : (j : ℕ) → t ≤ j → j < c → index + half ≤ (e j).dst_idx) where
  -- The rows fit the slots of either part.
  pub left_fits : t ≤ half
  left_fits = elim (Bool-cases (t == 0)) [
    | inl none ↦ ground (arith, none)
    | inr some ↦
        let pos : 0 < t = ground (arith, some) in
        let far = apart_lem e c index (half + rest) s (t - 1) 0 (omega (arith, pos, inside)) in
        let first = s.low 0 (omega (arith, pos, inside)) in
        let last = below (0 + (t - 1)) (omega (arith, pos)) in omega (arith, far, first, last, pos)
  ]

  pub right_fits : c ≤ t + rest
  right_fits = elim (Bool-cases (t == c)) [
    | inl all ↦ ground (arith, all)
    | inr some ↦
        let less : t < c = ground (arith, some, inside) in
        let far = apart_lem e c index (half + rest) s (c - 1 - t) t (omega (arith, less)) in
        let first = above t (omega arith) less in
        let last = s.high (t + (c - 1 - t)) (omega (arith, less)) in
        omega (arith, far, first, last, less)
  ]

  pub left-Source : Source e t index half
  left-Source = record {
    low = λ j h. s.low j (omega (arith, h, inside));
    high = λ j h. below j h;
    ordered = λ j h. s.ordered j (omega (arith, h, inside));
    filled = λ j h. s.filled j (omega (arith, h, inside));
  }

  pub right-Source : Source (λ j. e (t + j)) (c - t) (index + half) rest
  right-Source = record {
    low = λ j h. above (t + j) (omega arith) (omega (arith, h, inside));
    high = λ j h. let top = s.high (t + j) (omega (arith, h, inside)) in omega (arith, top);
    ordered = λ j h.
        let next : t + suc j ≡ suc (t + j) = omega arith in
        rw next (s.ordered (t + j) (omega (arith, h, inside)));
    filled = λ j h. s.filled (t + j) (omega (arith, h, inside));
  }

pub lt32-small : (a b : ℕ) → a < 2147483648 → b < 2147483648 → lt32 a b ≡ ltb a b
unfolding lt32 skey
lt32-small a b h k = ground arith

-- A padding row, whose destination is the number n behind all slots.
abbrev pub Pad : ℕ → Entry → Type 0
Pad n x = (eq32 x.field_type dist_padding ≡ true) × (x.dst_idx ≡ n)

-- The j-th row of the sequence, or padding behind its c rows.
abbrev pub Held : ℕ → (ℕ → Entry) → ℕ → ℕ → Entry → Type 0
Held n e c j x = (j < c → x ≡ e j) × (c ≤ j → Pad n x)

module _ (blank : Entry) (n : ℕ) where
  -- A block that holds the sequence from its slot `offset` on, and round its end.
  abbrev pub Turned : (ℕ → Entry) → ℕ → ℕ → ℕ → ℕ → List Entry → Type 0
  Turned e c start size offset buf =
      (j : ℕ) → j < size → Held n e c j (slot blank buf (start + (offset + j) % size))

  -- A block that holds the sequence from its first slot on.
  abbrev pub InFront : (ℕ → Entry) → ℕ → ℕ → ℕ → List Entry → Type 0
  InFront e c start size buf = (j : ℕ) → j < size → Held n e c j (slot blank buf (start + j))

  -- A block in which every row is at its destination and all else is padding.
  pub record Arrived (e : ℕ → Entry) (c index p : ℕ) (x : Entry) : Type 0 where
    pub row : (j : ℕ) → j < c → (e j).dst_idx ≡ index + p → x ≡ e j
    pub pad : ((j : ℕ) → j < c → (e j).dst_idx ≢ index + p) → Pad n x

  abbrev pub Placed : (ℕ → Entry) → ℕ → ℕ → ℕ → ℕ → List Entry → Type 0
  Placed e c index start size buf =
      (p : ℕ) → p < size → Arrived e c index p (slot blank buf (start + p))
