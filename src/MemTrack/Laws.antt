-- ===== src/MemTrack/Laws.antt =====
-- The two counters are the bytes of the blocks in memory and their maximum.
use native.Mathlib.Nat.{mod-eq_of_lt}
use omwj.Prelude.Partial.{◌>>=◌}
use omwj.Prelude.{
  ◌/◌, ◌-◌, ◌&&◌, not, ℕ, ◌+◌, ◌*◌, ◌%◌, ◌≤◌, ◌<◌, ◌≡◌, List, [], ◌∷◌, Option, none, some, arith,
  inl, inr, refl,
}
use omwj.Prelude.Tests.{ltb, ◌==◌, if◌then◌else◌, Bool-cases}
use omwj.Swap.{modulus64}
use omwj.MemTrack.{
  Tracker, header_size, drop_header, mt_alloc, mt_calloc, mt_free, Call, alloc, calloc, free, call,
  run,
}

abbrev pub held : List (ℕ × ℕ) → ℕ
held [] = 0
held ((p, size) ∷ rest) = size + held rest

-- The live counter is the bytes in memory, which a size_t holds, and no more than the peak.
pub record Tracks (st : Tracker) : Type 0 where
  pub exact : st.g_live ≡ held st.headers
  pub below : st.g_live ≤ st.g_peak
  pub fits : held st.headers < modulus64

-- The blocks in memory and the block of a call fit the address space together, and an address that is
-- freed is that of a block in memory.
abbrev pub Room : Call → Tracker → Type 0
Room (alloc malloc size) st = held st.headers + size < modulus64
Room (calloc malloc count size) st = held st.headers + count * size < modulus64
Room (free none) st = Unit {0}
Room (free (some p)) st = (size : ℕ) × (header_size st.headers p ≡ some size)

abbrev pub AllRoom : List Call → Tracker → Type 0
AllRoom [] st = Unit
AllRoom (c ∷ calls) st =
    Room c st × elim (call c st) [ none ↦ Unit | some next ↦ AllRoom calls next ]

abbrev pub larger : ℕ → ℕ → ℕ
larger a b = if ltb a b then b else a

-- The counters after each call: exact, with the greatest value of the live counter so far as peak.
abbrev pub AllTrack : ℕ → List Tracker → Type 0
AllTrack peak [] = Unit
AllTrack peak (st ∷ rest) =
    Tracks st × (st.g_peak ≡ larger peak st.g_live) × AllTrack st.g_peak rest

drop_header_lem :
    (hs : List (ℕ × ℕ)) (p size : ℕ)
    → header_size hs p ≡ some size
    → held (drop_header hs p) + size ≡ held hs
unfolding header_size drop_header
drop_header_lem [] p size h = ground arith
drop_header_lem ((q, s) ∷ hs) p size h = ground (arith, drop_header_lem hs p size)

-- One call: the counters stay exact, and the peak grows to the live bytes.
abbrev Good : Tracker → Tracker → Type 0
Good st st' = Tracks st' × (st'.g_peak ≡ larger st.g_peak st'.g_live)

same-Good : (st : Tracker) → Tracks st → Good st st
same-Good st t = (t, ground (arith, t.below))

alloc-Good :
    (malloc : Option ℕ) (size : ℕ) (st : Tracker)
    → held st.headers + size < modulus64
    → Tracks st
    → Good st (mt_alloc malloc size st).1
unfolding mt_alloc
alloc-Good none size st h t = elim (Bool-cases (ltb 18446744073709551599 size)) [
  | inl big ↦ rw big (same-Good st t)
  | inr fine ↦ rw fine (same-Good st t)
]
alloc-Good (some p) size st h t = elim (Bool-cases (ltb 18446744073709551599 size)) [
  | inl big ↦ rw big (same-Good st t)
  | inr fine ↦
      let e = t.exact in
      rw fine (
        record { exact = ground (arith, e, h); below = ground arith; fits = ground (arith, h) },
        refl,
      )
]

calloc-Good :
    (malloc : Option ℕ) (count size : ℕ) (st : Tracker)
    → held st.headers + count * size < modulus64
    → Tracks st
    → Good st (mt_calloc malloc count size st).1
unfolding mt_calloc
calloc-Good malloc count size st h t =
    let whole : count * size % modulus64 ≡ count * size = mod-eq_of_lt (omega (arith, h)) in
    let got = alloc-Good malloc (count * size % modulus64) st (rw whole h) t in
    elim (Bool-cases (not (size == 0) && ltb (18446744073709551615 / size) count)) [
      | inl big ↦ rw big (same-Good st t)
      | inr fine ↦ rw fine got
    ]

abbrev Steps : Call → Tracker → Type 0
Steps c st = (next : Tracker) × (call c st ≡ some next) × Good st next

free-Good : (p : Option ℕ) (st : Tracker) → Room (free p) st → Tracks st → Steps (free p) st
unfolding mt_free
free-Good none st h t = (st, refl, same-Good st t)
free-Good (some p) st (size, found) t =
    let rest = drop_header_lem st.headers p size found in
    let e = t.exact in
    let small = t.fits in
    let peak = t.below in
    (
      record st {
        g_live = (st.g_live + (modulus64 - size % modulus64)) % modulus64;
        headers = drop_header st.headers p;
      },
      rw (found, mt_free) refl,
      (
        record {
          exact = ground (arith, rest, e, small);
          below = ground (arith, rest, e, small, peak);
          fits = ground (arith, rest, small);
        },
        ground (arith, rest, e, small, peak),
      ),
    )

call-Good : (c : Call) (st : Tracker) → Room c st → Tracks st → Steps c st
call-Good (alloc malloc size) st h t = (_, refl, alloc-Good malloc size st h t)
call-Good (calloc malloc count size) st h t = (_, refl, calloc-Good malloc count size st h t)
call-Good (free p) st h t = free-Good p st h t

-- From a state whose counter is exact, let the blocks of a sequence of allocations and frees fit the
-- address space at each call, and let each address that is freed be that of a block in memory. Then
-- the calls succeed, and after each of them the live counter is the number of bytes in the blocks
-- that are in memory, and the peak counter is the greater of the peak before and the live counter.
pub run-Tracks :
    (calls : List Call) (st : Tracker)
    → AllRoom calls st
    → Tracks st
    → (states : List Tracker) × (run calls st ≡ some states) × AllTrack st.g_peak states
run-Tracks [] st room t = ([], refl, tt)
run-Tracks (c ∷ calls) st room t =
    let (next, step, (t', peak)) = call-Good c st room.0 t in
    let (rest, steps, good) = run-Tracks calls next (rw step at room.1) t' in
    (next ∷ rest, rw (step, ◌>>=◌) (rw (steps, ◌>>=◌) refl), (t', peak, good))
