-- ===== src/Sort.antt =====
-- ej_osort_g of enclave/trusted/join/oblivious_sort.c: pad to a power of two, shuffle by the
-- network under secret bits, sort, and keep the elements that are no padding.
pub mod Laws
use omwj.Prelude.{
  ℕ, zero, suc, ◌+◌, ◌-◌, ◌*◌, ◌/◌, ◌%◌, Bool, true, false, List, ◌++◌, Option, none, some,
}
use omwj.Prelude.Tests.{leb, ltb, ◌==◌, if◌then◌else◌}
use omwj.Prelude.Lists.{length, take, replicate}
use omwj.Swap.{modulus64}
use omwj.Waksman.{Bitstream, Net, num_switches, waksman}
use omwj.Runtime.{Runtime, Result, ok, err, fault, M, pure, ◌>>=◌, ◌>>◌, defined, reserve}

-- `while (m < n) m <<= 1`; a size_t is shifted at most 64 times before it is 0
unfoldable pub grow_to : ℕ → ℕ → ℕ → Option ℕ
grow_to zero n m = none
grow_to (suc fuel) n m = elim (ltb m n) [
  | true ↦ grow_to fuel n (m * 2 % modulus64)
  | false ↦ some m
]

unfoldable pub next_power : ℕ → Option ℕ
next_power n = grow_to 65 n 1

module _ (rt : Runtime) where
  -- the keystream call, which fails when the generator or the cipher does
  unfoldable pub draw : ℕ → M rt.World (List ℕ)
  draw bytes w =
      let (drawn, w') = rt.keystream bytes w in
      elim drawn [ none ↦ err w' | some bits ↦ ok bits w' ]

  -- bitstream_init
  unfoldable pub bitstream_init : ℕ → M rt.World Bitstream
  unfolding draw
  bitstream_init num_bits = do
    let bytes = (num_bits + 7) / 8
    reserve rt bytes
    bits ← draw bytes
    pure (record { bits = bits; next = 0 })

  module _ {A : Type 0} (elem_size : ℕ) (cmp : A → A → ℕ) (make_pad : A) where
    -- the shuffle and the sort of the padded array, and the elements that go back
    unfoldable pub shuffle_sort : ℕ → ℕ → List A → M rt.World (List A)
    shuffle_sort n m buf = do
      bs ← bitstream_init (num_switches m)
      out ← defined (waksman 64 0 1 m (record { arr = buf; stream = bs }))
      pure (take n (rt.qsort cmp out.arr))

    -- the padded copy, made when the length is no power of two
    unfoldable pub stage : List A → M rt.World (List A)
    stage arr = do
      let n = length arr
      m ← defined (next_power n)
      if m == n then pure tt else reserve rt (m * elem_size)
      shuffle_sort n m (arr ++ replicate (m - n) make_pad)

    -- ej_osort_g: the sorted array, or the error return
    unfoldable pub ej_osort_g : List A → M rt.World (List A)
    ej_osort_g arr =
        if leb (length arr) 1 then pure arr else (if elem_size % 8 == 0 then stage arr else err)
