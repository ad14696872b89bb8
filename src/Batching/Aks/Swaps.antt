-- ===== src/Batching/Aks/Swaps.antt =====
-- The two loops of the distribution: what the count is, and what the swaps do to each slot.
use omwj.Prelude.{
  ℕ, zero, suc, ◌+◌, ◌%◌, ◌≤◌, ◌<◌, ◌≡◌, ◌≢◌, refl, ap, ◌∙◌, Bool, true, false, not, List, [], ◌∷◌,
  Option, some, inl, inr, ◌⊎◌, arith,
}
use omwj.Prelude.Tests.{◌==◌, if◌then◌else◌, Bool-cases}
use omwj.Prelude.Lists.{length, get_elem?, set, get_or, length-set}
use omwj.Prelude.Partial.{◌>>=◌}
use omwj.Prelude.Word.{flag, add32, lt32, modulus}
use omwj.Swap.{exchange}
use omwj.Entry.{Entry}
use omwj.Batching.Oblivious.{oblivious_swap}
use omwj.Batching.Exchanges.{IsRow, oblivious_swap_lem}
use omwj.Batching.Operations.Plain.{IsPlain}
use omwj.Batching.Aks.{aks_oswap, count_below, cross_swaps}

pub get_or-get_elem? :
    (blank : Entry) (xs : List Entry) (i : ℕ)
    → i < length xs
    → get_elem? xs i ≡ some (get_or xs i blank)
get_or-get_elem? blank [] i h = absurd (omega arith)
get_or-get_elem? blank (x ∷ xs) zero h = refl
get_or-get_elem? blank (x ∷ xs) (suc i) h = get_or-get_elem? blank xs i (omega arith)

get_or-set :
    (blank : Entry) (xs : List Entry) (i : ℕ) (v : Entry) (q : ℕ)
    → i < length xs
    → get_or (set xs i v) q blank ≡ (if q == i then v else get_or xs q blank)
get_or-set blank [] i v q h = absurd (omega arith)
get_or-set blank (x ∷ xs) zero v zero h = refl
get_or-set blank (x ∷ xs) zero v (suc q) h = ground arith
get_or-set blank (x ∷ xs) (suc i) v zero h = ground arith
get_or-set blank (x ∷ xs) (suc i) v (suc q) h =
    ground (arith, get_or-set blank xs i v q (omega arith))

-- How often a test holds from i on.
abbrev pub tally : (ℕ → Bool) → ℕ → ℕ → ℕ
tally f zero i = 0
tally f (suc rounds) i = flag (f i) + tally f rounds (suc i)

-- A decrypted row as it lies in memory.
abbrev pub IsOpenRow : Entry → Type 0
IsOpenRow e = IsRow e × IsPlain e

module _ (blank : Entry) where
  abbrev pub slot : List Entry → ℕ → Entry
  slot buf p = get_or buf p blank

  pub count_below-tally :
      (f : ℕ → Bool) (rounds start i temp m2 : ℕ) (buf : List Entry)
      → start + i + rounds ≤ length buf
      → m2 + rounds < modulus
      → ((p : ℕ) → i ≤ p → p < i + rounds → lt32 (slot buf (start + p)).dst_idx temp ≡ f p)
      → count_below rounds (start + i) temp m2 buf ≡ some (m2 + tally f rounds i)
  unfolding count_below add32
  count_below-tally f zero start i temp m2 buf fits small told = ap some (omega arith)
  count_below-tally f (suc rounds) start i temp m2 buf fits small told =
      let here = get_or-get_elem? blank buf (start + i) (omega (arith, fits)) in
      let first = told i (omega arith) (omega arith) in
      let next : (m2 + flag (f i)) % modulus ≡ m2 + flag (f i) = ground (arith, small) in
      let step : start + suc i ≡ suc (start + i) = omega arith in
      let rest =
        count_below-tally f rounds start (suc i) temp (m2 + flag (f i)) buf (omega (arith, fits))
          (ground (arith, small)) (λ p from to. told p (omega (arith, from)) (omega (arith, to))) in
      let sum : m2 + flag (f i) + tally f rounds (suc i)
          ≡ m2 + (flag (f i) + tally f rounds (suc i)) =
        omega arith in
      rw (here, ◌>>=◌) (rw (first, count_below) (rw (next, count_below) ((rw (step, sum) at rest))))

  abbrev pub Rows : List Entry → Type 0
  Rows buf = (p : ℕ) → p < length buf → IsOpenRow (slot buf p)

  pick-IsOpenRow :
      (c : Bool) (x y : Entry) → IsOpenRow x → IsOpenRow y → IsOpenRow (if c then x else y)
  pick-IsOpenRow true x y p q = p
  pick-IsOpenRow false x y p q = q

  exchange-picks :
      (c : Bool) (x y : Entry)
      → exchange (not (flag c == 0)) x y ≡ (if c then y else x, if c then x else y)
  exchange-picks true x y = refl
  exchange-picks false x y = refl

  -- What one swap leaves in each slot.
  pub record Exchanged (cond : Bool) (i j : ℕ) (buf : List Entry) (r : Option (List Entry))
      : Type 0 where
    pub out : List Entry
    pub returns : r ≡ some out
    pub size : length out ≡ length buf
    pub rows : Rows out
    pub slots :
        (q : ℕ)
        → slot out q ≡ (
            if q == j
            then (if cond then slot buf i else slot buf j)
            else (if q == i then (if cond then slot buf j else slot buf i) else slot buf q))

  pub aks_oswap-Exchanged :
      (cond : Bool) (i j : ℕ) (buf : List Entry)
      → i < length buf
      → j < length buf
      → Rows buf
      → Exchanged cond i j buf (aks_oswap i j cond buf)
  unfolding aks_oswap
  aks_oswap-Exchanged cond i j buf hi hj rows =
      let at_i = get_or-get_elem? blank buf i hi in
      let at_j = get_or-get_elem? blank buf j hj in
      let x = slot buf i in
      let y = slot buf j in
      let x' = if cond then y else x in
      let y' = if cond then x else y in
      let swapped : oblivious_swap x y (flag cond) ≡ (x', y') =
        oblivious_swap_lem x y (flag cond) (rows i hi).0 (rows j hj).0 ∙ exchange-picks cond x y in
      let first = set buf i x' in
      let size1 = length-set buf i x' in
      let slots : (q : ℕ)
          → slot (set first j y') q ≡ (if q == j then y' else (if q == i then x' else slot buf q)) =
        λ q.
          get_or-set blank first j y' q (omega (arith, size1))
          ∙ ap (λ (e : Entry). if q == j then y' else e) (get_or-set blank buf i x' q hi) in
      record {
        out = set first j y';
        returns =
            rw (at_i, ◌>>=◌)
              (rw (at_j, ◌>>=◌)
                (ap (λ (p : Entry × Entry). some (set (set buf i p.0) j p.1)) swapped));
        size = length-set first j y' ∙ size1;
        rows = λ q h. rw (slots q) (
            pick-IsOpenRow (q == j) y' _ (pick-IsOpenRow cond x y (rows i hi) (rows j hj)) (
              pick-IsOpenRow (q == i) x' (slot buf q)
                (pick-IsOpenRow cond y x (rows j hj) (rows i hi))
                (rows q (omega (arith, h, length-set first j y', size1)))));
        slots = slots;
      }

  -- What a run of the swaps leaves in each slot.
  pub record Crossed (cond : ℕ → Bool) (rounds i start gap : ℕ) (buf : List Entry)
      (r : Option (List Entry)) : Type 0 where
    pub out : List Entry
    pub returns : r ≡ some out
    pub size : length out ≡ length buf
    pub rows : Rows out
    pub near :
        (q : ℕ)
        → i ≤ q
        → q < i + rounds
        → slot out (start + q)
          ≡ (if cond q then slot buf (start + gap + q) else slot buf (start + q))
    pub far :
        (q : ℕ)
        → i ≤ q
        → q < i + rounds
        → slot out (start + gap + q)
          ≡ (if cond q then slot buf (start + q) else slot buf (start + gap + q))
    pub others :
        (p : ℕ)
        → (p < start + i)
          ⊎ ((start + i + rounds ≤ p) × (p < start + gap + i))
          ⊎ (start + gap + i + rounds ≤ p)
        → slot out p ≡ slot buf p

  module _ {cond : Bool} {i j : ℕ} {buf : List Entry} {r : Option (List Entry)}
      (one : Exchanged cond i j buf r) where
    pub exchanged_first : i ≢ j → slot one.out i ≡ (if cond then slot buf j else slot buf i)
    exchanged_first apart =
        let other : (i == j) ≡ false = ground (arith, apart) in
        let same : (i == i) ≡ true = ground arith in rw (one.slots i) (rw (other, same) refl)

    pub exchanged_second : slot one.out j ≡ (if cond then slot buf i else slot buf j)
    exchanged_second = let same : (j == j) ≡ true = ground arith in rw (one.slots j) (rw same refl)

    pub exchanged_other : (q : ℕ) → q ≢ i → q ≢ j → slot one.out q ≡ slot buf q
    exchanged_other q h k =
        let e : (q == i) ≡ false = ground (arith, h) in
        let f : (q == j) ≡ false = ground (arith, k) in rw (one.slots q) (rw (f, e) refl)

  pub cross_swaps-Crossed :
      (cond : ℕ → Bool) (rounds i start gap : ℕ) (buf : List Entry)
      → i + rounds ≤ gap
      → start + gap + i + rounds ≤ length buf
      → Rows buf
      → Crossed cond rounds i start gap buf (cross_swaps cond rounds i start gap buf)
  unfolding cross_swaps
  cross_swaps-Crossed cond zero i start gap buf apart fits rows = record {
    out = buf;
    returns = refl;
    size = refl;
    rows = rows;
    near = λ q from to. absurd (omega (arith, from, to));
    far = λ q from to. absurd (omega (arith, from, to));
    others = λ p h. refl;
  }
  cross_swaps-Crossed cond (suc rounds) i start gap buf apart fits rows =
      let one =
        aks_oswap-Exchanged (cond i) (start + i) (start + gap + i) buf (omega (arith, apart, fits))
          (omega (arith, fits)) rows in
      let rest =
        cross_swaps-Crossed cond rounds (suc i) start gap one.out (omega (arith, apart))
          (omega (arith, fits, one.size)) one.rows in
      record {
        out = rest.out;
        returns = rw (one.returns, ◌>>=◌) rest.returns;
        size = rest.size ∙ one.size;
        rows = rest.rows;
        near = λ q from to. elim (Bool-cases (q == i)) [
          | inl now ↦
              let e : q ≡ i = ground (arith, now) in
              rw e (
                rest.others (start + i) (inl (omega arith))
                ∙ exchanged_first one (omega (arith, apart)))
          | inr later ↦
              let past : suc i ≤ q = ground (arith, later, from) in
              let same_far =
                exchanged_other one (start + gap + q) (omega (arith, past, apart))
                  (omega (arith, past)) in
              let same_near =
                exchanged_other one (start + q) (omega (arith, past)) (omega (arith, to, apart)) in
              rest.near q past (omega (arith, to)) ∙ rw (same_far, same_near) refl
        ];
        far = λ q from to. elim (Bool-cases (q == i)) [
          | inl now ↦
              let e : q ≡ i = ground (arith, now) in
              rw e (
                rest.others (start + gap + i) (inr (inl (omega (arith, apart), omega arith)))
                ∙ exchanged_second one)
          | inr later ↦
              let past : suc i ≤ q = ground (arith, later, from) in
              let same_far =
                exchanged_other one (start + gap + q) (omega (arith, past, apart))
                  (omega (arith, past)) in
              let same_near =
                exchanged_other one (start + q) (omega (arith, past)) (omega (arith, to, apart)) in
              rest.far q past (omega (arith, to)) ∙ rw (same_far, same_near) refl
        ];
        others = λ p h. elim h [
          | inl before ↦
              rest.others p (inl (omega (arith, before)))
              ∙ exchanged_other one p (omega (arith, before)) (omega (arith, before))
          | inr (inl (after, short)) ↦
              rest.others p (inr (inl (omega (arith, after), omega (arith, short))))
              ∙ exchanged_other one p (omega (arith, after)) (omega (arith, short))
          | inr (inr behind) ↦
              rest.others p (inr (inr (omega (arith, behind))))
              ∙ exchanged_other one p (omega (arith, behind)) (omega (arith, behind))
        ];
      }
