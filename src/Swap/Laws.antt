-- ===== src/Swap/Laws.antt =====
-- The branchless swap exchanges two records of words, or leaves them, and touches nothing beyond.
use Prim.Native.Nat.{bit_and, bit_xor}
use omwj.Prelude.{
  ℕ, zero, suc, ◌*◌, ◌/◌, ◌<◌, ◌≡◌, refl, Bool, true, false, List, [], ◌∷◌, not, arith,
}
use omwj.Prelude.Tests.{◌==◌, if◌then◌else◌}
use omwj.Prelude.Lists.{length, All}
use omwj.Swap.{modulus64, swap_mask, swap_loop, swap_words, ej_oblivious_swap_g, exchange}
use omwj.Swap.Bits.{bit_xor_cancel, bit_and-zero, bit_and_ones, bit_xor-zero}

abbrev pub IsWords : List ℕ → Type 0
IsWords = All (λ w. w < modulus64)

-- One word: the mask of ones swaps, the mask of zeros does not.
word_swap :
    (t : Bool) (x y : ℕ)
    → x < modulus64
    → y < modulus64
    → let diff = bit_and (bit_xor x y) (if t then 18446744073709551615 else 0) in
      (bit_xor x diff ≡ (if t then y else x)) × (bit_xor y diff ≡ (if t then x else y))
word_swap true x y hx hy =
    let law = bit_xor_cancel 64 x y hx hy in
    let ones = bit_and_ones 64 (bit_xor x y) law.0 in rw ones (law.1, law.2)
word_swap false x y hx hy =
    let law = bit_xor_cancel 64 x y hx hy in
    let none = bit_and-zero 64 (bit_xor x y) law.0 in
    rw none (bit_xor-zero 64 x hx, bit_xor-zero 64 y hy)

mask_value : (s : ℕ) → swap_mask s ≡ (if not (s == 0) then 18446744073709551615 else 0)
unfolding swap_mask
mask_value s = ground arith

pub loop_exchange :
    (t : Bool) (words : ℕ) (p1 p2 : List ℕ)
    → length p1 ≡ words
    → length p2 ≡ words
    → IsWords p1
    → IsWords p2
    → swap_loop words (if t then 18446744073709551615 else 0) p1 p2 ≡ exchange t p1 p2
unfolding swap_loop
loop_exchange t zero [] [] e f h k = ground arith
loop_exchange t zero (x ∷ p1) p2 e f h k = absurd (omega arith)
loop_exchange t zero [] (y ∷ p2) e f h k = absurd (omega arith)
loop_exchange t (suc n) [] p2 e f h k = absurd (omega arith)
loop_exchange t (suc n) (x ∷ p1) [] e f h k = absurd (omega arith)
loop_exchange t (suc n) (x ∷ p1) (y ∷ p2) e f h k =
    let ih = loop_exchange t n p1 p2 (omega arith) (omega arith) h.1 k.1 in
    let word = word_swap t x y h.0 k.0 in rw (ih, word.0, word.1) (both t)
  where
    both :
        (s : Bool)
        → ((if s then y else x) ∷ (exchange s p1 p2).0, (if s then x else y) ∷ (exchange s p1 p2).1)
          ≡ exchange s (x ∷ p1) (y ∷ p2)
    both true = refl
    both false = refl

module _ (p1 p2 : List ℕ) (words should_swap : ℕ) (same1 : length p1 ≡ words)
    (same2 : length p2 ≡ words) (w1 : IsWords p1) (w2 : IsWords p2) where
  -- On two records of `words` 64-bit words, swap_words and ej_oblivious_swap_g (which is given the
  -- size in bytes) exchange them if should_swap is not zero, and leave both as they are if it is zero.
  pub swap-eq-exchange :
      (swap_words p1 p2 words should_swap ≡ exchange (not (should_swap == 0)) p1 p2)
      × (ej_oblivious_swap_g p1 p2 (words * 8) should_swap
          ≡ exchange (not (should_swap == 0)) p1 p2)
  unfolding swap_words ej_oblivious_swap_g
  swap-eq-exchange =
      let size : words * 8 / 8 ≡ words = omega arith in
      let swapped = loop_exchange (not (should_swap == 0)) words p1 p2 same1 same2 w1 w2 in
      (rw mask_value swapped, rw (size, mask_value) swapped)
