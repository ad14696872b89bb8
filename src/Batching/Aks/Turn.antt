-- ===== src/Batching/Aks/Turn.antt =====
-- One level of distribute_2power, slot by slot: the swaps put the first rows of a turned block into
-- its left half and the others into its right half, both turned.
use native.Mathlib.Nat.{mod-eq_of_lt, add-mod_left}
use omwj.Prelude.{
  ℕ, zero, suc, ◌+◌, ◌-◌, ◌*◌, ◌%◌, ◌≤◌, ◌<◌, ◌≡◌, refl, ◌∙◌, Bool, not, inl, inr, arith,
}
use omwj.Prelude.Tests.{leb, ltb, if◌then◌else◌, Bool-cases}
use omwj.Prelude.Word.{add32, modulus}
use omwj.Batching.Aks.Swaps.{tally}
use omwj.Batching.Aks.Sequence.{lt32-small}
use omwj.Batching.Aks.{differs, cond2}

abbrev pub wrap : ℕ → ℕ → ℕ
wrap a m = if ltb a m then a else a - m

-- `cond2` with the remainders written out.
abbrev pub crosses : ℕ → ℕ → ℕ → ℕ → Bool
crosses half offset t i =
    let o = wrap offset half in
    differs (differs (ltb offset half) (ltb (o + t) half)) (not (ltb i (wrap (o + t) half)))

module _ (half offset t j : ℕ) (turned : offset < 2 * half) (fits : t ≤ half) (h : j < half) where
  pub left_slot :
      let i = wrap (wrap offset half + j) half in
      (if crosses half offset t i then half + i else i)
      ≡ (if ltb j t then wrap (offset + j) (2 * half) else wrap (offset + (j + half)) (2 * half))
  left_slot = ground (arith, turned, fits, h)

  pub right_slot :
      let i = wrap (wrap (wrap offset half + t) half + j) half in
      (if crosses half offset t i then i else half + i) ≡ wrap (offset + (t + j)) (2 * half)
  right_slot = ground (arith, turned, fits, h)

pub mod-wrap : (a m : ℕ) → a < 2 * m → a % m ≡ wrap a m
mod-wrap a m h = elim (Bool-cases (ltb a m)) [
  | inl below ↦ rw below (mod-eq_of_lt (ground (arith, below)))
  | inr above ↦
      let split : m + (a - m) ≡ a = ground (arith, above) in
      let shifted : a % m ≡ (a - m) % m = rw split at (add-mod_left m (a - m)) in
      rw above (shifted ∙ mod-eq_of_lt (ground (arith, above, h)))
]

-- A block turned by `offset` and t more.
pub turned_on :
    (half offset t : ℕ)
    → offset < 2 * half
    → t ≤ half
    → 0 < half
    → (offset + t) % half ≡ wrap (wrap offset half + t) half
turned_on half offset t turned fits pos = elim (Bool-cases (ltb offset half)) [
  | inl below ↦ rw below (mod-wrap (offset + t) half (ground (arith, below, fits)))
  | inr above ↦
      let split : half + (offset - half + t) ≡ offset + t = ground (arith, above) in
      let shifted : (offset + t) % half ≡ (offset - half + t) % half =
        rw split at (add-mod_left half (offset - half + t)) in
      rw above (shifted ∙ mod-wrap (offset - half + t) half (ground (arith, above, turned, fits)))
]

pub cond2-crosses :
    (half offset t i : ℕ)
    → half < 536870912
    → offset < 2 * half
    → t ≤ half
    → i < half
    → cond2 half offset t i ≡ crosses half offset t i
unfolding add32
cond2-crosses half offset t i small turned fits h =
    let pos : 0 < half = omega (arith, h) in
    let o : offset % half ≡ wrap offset half = mod-wrap offset half turned in
    let o_small : wrap offset half < half = ground (arith, turned) in
    let sum : (wrap offset half + t) % modulus ≡ wrap offset half + t =
      mod-eq_of_lt (omega (arith, o_small, fits, small)) in
    let whole : (offset + t) % modulus ≡ offset + t =
      mod-eq_of_lt (omega (arith, turned, fits, small)) in
    let ii = turned_on half offset t turned fits pos in
    let ii_small : wrap (wrap offset half + t) half < half = ground (arith, o_small, fits) in
    let l1 = lt32-small offset half (omega (arith, turned, small)) (omega (arith, small)) in
    let l2 =
      lt32-small (wrap offset half + t) half (omega (arith, o_small, fits, small))
        (omega (arith, small)) in
    let l3 =
      lt32-small i (wrap (wrap offset half + t) half) (omega (arith, h, small))
        (omega (arith, ii_small, small)) in
    rw (o, sum, whole, ii, l1, l2, l3) refl

-- Whether slot p of a block of `size` slots, turned by `offset`, holds one of the first t rows.
abbrev pub among : ℕ → ℕ → ℕ → ℕ → Bool
among size offset t p = if ltb p offset then ltb (p + size - offset) t else ltb (p - offset) t

-- What is left of the count from slot i on.
abbrev among_from : ℕ → ℕ → ℕ → ℕ → ℕ
among_from size offset t i =
    if leb (offset + t) size
    then (if ltb i offset then t else offset + t - i)
    else (offset + t - size - i) + (if ltb i offset then size - offset else size - i)

tally-among_from :
    (size offset t rounds i : ℕ)
    → offset < size
    → t ≤ size
    → i + rounds ≡ size
    → tally (among size offset t) rounds i ≡ among_from size offset t i
tally-among_from size offset t zero i turned fits e = ground (arith, turned, fits, e)
tally-among_from size offset t (suc rounds) i turned fits e =
    let rest = tally-among_from size offset t rounds (suc i) turned fits (omega (arith, e)) in
    ground (arith, rest, turned, fits, e)

pub tally-among :
    (size offset t : ℕ) → offset < size → t ≤ size → tally (among size offset t) size 0 ≡ t
tally-among size offset t turned fits =
    tally-among_from size offset t size 0 turned fits (omega arith) ∙ ground (arith, turned, fits)
