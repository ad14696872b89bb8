-- ===== src/Distribute/Stride.antt =====
-- The strides of the wide rows: room for the header and the slots, in whole 64-bit words.
use omwj.Prelude.{ℕ, ◌+◌, ◌*◌, ◌%◌, ◌≤◌, ◌<◌, ◌≡◌, arith}
use omwj.Distribute.{trow_stride}

-- For any width, the stride of a row holds the 40 bytes of the header and 4 for each slot, wastes
-- less than 8 bytes, and is a multiple of 8, as ej_osort_g and the word-wise copy need it.
pub trow_stride-bounds :
    (width : ℕ)
    → (40 + 4 * width ≤ trow_stride width)
      × (trow_stride width < 40 + 4 * width + 8)
      × (trow_stride width % 8 ≡ 0)
unfolding trow_stride
trow_stride-bounds width = (omega arith, omega arith, omega arith)
