-- ===== src/Swap.antt =====
-- The branchless swap: ej_oblivious_swap_g of enclave/trusted/join/comparators.c and swap_words
-- of enclave/trusted/join/oblivious_sort.c. A record is the list of its 64-bit words.
pub mod Bits
pub mod Laws
use Prim.Native.Nat.{bit_and, bit_xor}
use omwj.Prelude.{ℕ, zero, suc, ◌-◌, ◌/◌, ◌%◌, Bool, List, [], ◌∷◌, not}
use omwj.Prelude.Tests.{◌==◌, if◌then◌else◌}
use omwj.Prelude.Word.{flag}

abbrev pub modulus64 : ℕ
modulus64 = 18446744073709551616

-- (uint64_t)-(uint64_t)(should_swap != 0)
unfoldable pub swap_mask : ℕ → ℕ
swap_mask should_swap = (modulus64 - flag (not (should_swap == 0))) % modulus64

-- The loop over the words: `diff` masks the difference, and both words take it.
unfoldable pub swap_loop : ℕ → ℕ → List ℕ → List ℕ → List ℕ × List ℕ
swap_loop zero mask p1 p2 = (p1, p2)
swap_loop (suc words) mask [] p2 = ([], p2)
swap_loop (suc words) mask (x ∷ p1) [] = (x ∷ p1, [])
swap_loop (suc words) mask (x ∷ p1) (y ∷ p2) =
    let diff = bit_and (bit_xor x y) mask in
    let rest = swap_loop words mask p1 p2 in (bit_xor x diff ∷ rest.0, bit_xor y diff ∷ rest.1)

-- swap_words
unfoldable pub swap_words : List ℕ → List ℕ → ℕ → ℕ → List ℕ × List ℕ
unfolding swap_mask swap_loop
swap_words p1 p2 words should_swap = swap_loop words (swap_mask should_swap) p1 p2

-- ej_oblivious_swap_g
unfoldable pub ej_oblivious_swap_g : List ℕ → List ℕ → ℕ → ℕ → List ℕ × List ℕ
unfolding swap_mask swap_loop
ej_oblivious_swap_g a b size_bytes should_swap =
    let mask = swap_mask should_swap in swap_loop (size_bytes / 8) mask a b

-- What the swap does to a pair of records of any kind.
abbrev pub exchange {ℓ} : {A : Type ℓ} → Bool → A → A → A × A
exchange t a b = if t then (b, a) else (a, b)
