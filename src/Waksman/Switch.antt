-- ===== src/Waksman/Switch.antt =====
-- One switch: it reads one bit inside the stream, and permutes the array.
use mathlib.Core.List.Perm
use omwj.Prelude.{
  ℕ, zero, suc, ◌+◌, ◌*◌, ◌/◌, ◌%◌, ◌^◌, ◌<◌, ◌≡◌, ◌≢◌, refl, ap, ◌∙◌, Bool, true, false, List, [],
  ◌∷◌, Perm, Option, some, not, arith,
}
use omwj.Prelude.Tests.{◌==◌}
use omwj.Prelude.Lists.{length, get_elem?, set, length-set, get_elem?-lt}
use omwj.Prelude.Partial.{◌>>=◌}
use omwj.Swap.{exchange}
use omwj.Waksman.{Net, next_bit, swap_at, switch}

module _ {ℓ} {A : Type ℓ} where
  set-perm :
      (xs : List A) (i : ℕ) (x v : A) → get_elem? xs i ≡ some x → Perm (x ∷ set xs i v) (v ∷ xs)
  set-perm [] i x v e = cc
  set-perm (y ∷ xs) zero x v e = let same : y ≡ x = cc in rw (← same) (Perm.swap v y xs)
  set-perm (y ∷ xs) (suc i) x v e =
      let rest = Perm.cons y (set-perm xs i x v e) in
      Perm.trans (Perm.swap y x _) (Perm.trans rest (Perm.swap v y xs))

  pub get_elem?-set_ne :
      (xs : List A) (i j : ℕ) (v : A) → i ≢ j → get_elem? (set xs i v) j ≡ get_elem? xs j
  get_elem?-set_ne [] i j v h = refl
  get_elem?-set_ne (x ∷ xs) zero zero v h = absurd (h refl)
  get_elem?-set_ne (x ∷ xs) zero (suc j) v h = refl
  get_elem?-set_ne (x ∷ xs) (suc i) zero v h = refl
  get_elem?-set_ne (x ∷ xs) (suc i) (suc j) v h = get_elem?-set_ne xs i j v (λ e. h (ap suc e))

  module _ (xs : List A) (i j : ℕ) (x y : A) (at_i : get_elem? xs i ≡ some x)
      (at_j : get_elem? xs j ≡ some y) (apart : i ≢ j) where
    pub exchange-perm :
        (t : Bool) → Perm (set (set xs i (exchange t x y).0) j (exchange t x y).1) xs
    exchange-perm true =
        let kept = get_elem?-set_ne xs i j y apart ∙ at_j in
        Perm.cons_inv (Perm.trans (set-perm (set xs i y) j y x kept) (set-perm xs i x y at_i))
    exchange-perm false =
        let kept = get_elem?-set_ne xs i j x apart ∙ at_j in
        let first = Perm.cons_inv (set-perm xs i x x at_i) in
        Perm.trans (Perm.cons_inv (set-perm (set xs i x) j y y kept)) first

  -- `r` is a run that returns, reads `used` bits, and permutes the array.
  pub record Ran (net : Net A) (used : ℕ) (r : Option (Net A)) : Type ℓ where
    pub out : Net A
    pub returns : r ≡ some out
    pub shuffled : Perm out.arr net.arr
    pub same_length : length out.arr ≡ length net.arr
    pub same_bits : out.stream.bits ≡ net.stream.bits
    pub advanced : out.stream.next ≡ net.stream.next + used

  pub Ran-none : (net : Net A) → Ran net 0 (some net)
  Ran-none net = record {
    out = net;
    returns = refl;
    shuffled = Perm.rfl;
    same_length = refl;
    same_bits = refl;
    advanced = omega arith;
  }

  -- One run after another.
  pub Ran-bind :
      {net : Net A} (m n k : ℕ) {r : Option (Net A)} (f : Net A → Option (Net A))
      (first : Ran net m r)
      → Ran first.out n (f first.out)
      → m + n ≡ k
      → Ran net k (r >>= f)
  Ran-bind m n k f first second e = record {
    out = second.out;
    returns = rw first.returns second.returns;
    shuffled = Perm.trans second.shuffled first.shuffled;
    same_length = second.same_length ∙ first.same_length;
    same_bits = second.same_bits ∙ first.same_bits;
    advanced = omega (arith, second.advanced, first.advanced);
  }

  pub switch-Ran :
      (i j : ℕ) (net : Net A)
      → i < length net.arr
      → j < length net.arr
      → i ≢ j
      → net.stream.next < 8 * length net.stream.bits
      → Ran net 1 (switch i j net)
  unfolding switch next_bit swap_at
  switch-Ran i j net hi hj apart fits =
      let (byte, at_byte) = get_elem?-lt net.stream.bits (net.stream.next / 8) (omega arith) in
      let (x, at_i) = get_elem?-lt net.arr i hi in
      let (y, at_j) = get_elem?-lt net.arr j hj in
      let t = not (byte / 2 ^ (net.stream.next % 8) % 2 == 0) in
      record {
        out = record {
          arr = set (set net.arr i (exchange t x y).0) j (exchange t x y).1;
          stream = record { bits = net.stream.bits; next = net.stream.next + 1 };
        };
        returns = rw (at_byte, at_i, at_j) refl;
        shuffled = exchange-perm net.arr i j x y at_i at_j apart t;
        same_length = length-set (set net.arr i _) j _ ∙ length-set net.arr i _;
        same_bits = refl;
        advanced = refl;
      }
