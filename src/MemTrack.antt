-- ===== src/MemTrack.antt =====
-- enclave/trusted/mem_track.c: allocations that carry their size in a header, with the bytes that
-- are live and their peak. malloc's answer is an argument: a fresh address, or `none`.
pub mod Laws
use omwj.Prelude.{
  ℕ, ◌+◌, ◌-◌, ◌*◌, ◌/◌, ◌%◌, Bool, true, false, List, [], ◌∷◌, Option, none, some, ◌&&◌, not,
}
use omwj.Prelude.Tests.{ltb, ◌==◌, if◌then◌else◌}
use omwj.Prelude.Partial.{◌>>=◌}
use omwj.Swap.{modulus64}

-- The two counters, and the headers in memory: the size that stands before each address.
pub record Tracker : Type 0 where
  pub g_live : ℕ
  pub g_peak : ℕ
  pub headers : List (ℕ × ℕ)

-- The size in the header before an address. An address that no allocation gave has none.
unfoldable pub header_size : List (ℕ × ℕ) → ℕ → Option ℕ
header_size [] p = none
header_size ((q, size) ∷ rest) p = if p == q then some size else header_size rest p

unfoldable pub drop_header : List (ℕ × ℕ) → ℕ → List (ℕ × ℕ)
drop_header [] p = []
drop_header ((q, size) ∷ rest) p = if p == q then rest else (q, size) ∷ drop_header rest p

-- the address, which is `none` for NULL, and the state
unfoldable pub mt_alloc : Option ℕ → ℕ → Tracker → Option ℕ × Tracker
mt_alloc malloc size st = if ltb (modulus64 - 1 - 16) size then (none, st) else elim malloc [
  | none ↦ (none, st)
  | some p ↦
      let live = (st.g_live + size) % modulus64 in
      let peak = if ltb st.g_peak live then live else st.g_peak in
      (some p, record { g_live = live; g_peak = peak; headers = (p, size) ∷ st.headers })
]

unfoldable pub mt_calloc : Option ℕ → ℕ → ℕ → Tracker → Option ℕ × Tracker
mt_calloc malloc count size st =
    if not (size == 0) && ltb ((modulus64 - 1) / size) count
    then (none, st)
    else mt_alloc malloc (count * size % modulus64) st

-- The pointer is NULL, or an address that mt_alloc gave and that is not free yet. For any other the
-- code reads and frees memory that is not its own, which is `none` here.
unfoldable pub mt_free : Option ℕ → Tracker → Option Tracker
mt_free none st = some st
mt_free (some p) st = elim (header_size st.headers p) [
  | none ↦ none
  | some size ↦ some (record st {
    g_live = (st.g_live + (modulus64 - size % modulus64)) % modulus64;
    headers = drop_header st.headers p;
  })
]

unfoldable pub mt_reset : Tracker → Tracker
mt_reset st = record st { g_live = 0; g_peak = 0 }

-- A call, with malloc's answer for it.
pub data Call : Type 0 where
  alloc : Option ℕ → ℕ → Call
  calloc : Option ℕ → ℕ → ℕ → Call
  free : Option ℕ → Call

abbrev pub call : Call → Tracker → Option Tracker
call (alloc malloc size) st = some (mt_alloc malloc size st).1
call (calloc malloc count size) st = some (mt_calloc malloc count size st).1
call (free p) st = mt_free p st

-- The states after each call; `none` if one of the calls is not allowed.
abbrev pub run : List Call → Tracker → Option (List Tracker)
run [] st = some []
run (c ∷ calls) st = do next ← call c st; rest ← run calls next; some (next ∷ rest)
