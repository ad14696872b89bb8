-- ===== src/Batching/Aks/Call.antt =====
-- aks_distribute on a batch whose rows stand in the order of their destinations, the padding behind
-- them.
use native.Mathlib.Nat.{mod-eq_of_lt}
use omwj.Prelude.{
  ℕ, suc, ◌+◌, ◌≤◌, ◌<◌, ◌≡◌, ◌≢◌, refl, sym, ap, ◌∙◌, true, false, List, map, Option, some, arith,
}
use omwj.Prelude.Lists.{length, All, length-map, replicate, length-replicate}
use omwj.Prelude.Partial.{◌>>=◌}
use omwj.Prelude.Word.{eq32}
use omwj.Constants.{dist_padding}
use omwj.Entry.{Entry}
use omwj.Crypto.{Cipher}
use omwj.Crypto.Laws.{Sound}
use omwj.Batching.Exchanges.{IsRow}
use omwj.Batching.Operations.Plain.{IsPlain}
use omwj.Batching.Batch.{encrypt_back}
use omwj.Batching.Batch.Laws.{
  AllOpens, AllReseals, reseal_rows-AllReseals, length-AllOpens, plains-IsPlain,
}
use omwj.Batching.Aks.{beyond_last, decrypted_row, distribute_inner, aks_distribute}
use omwj.Batching.Aks.Swaps.{slot, IsOpenRow}
use omwj.Batching.Aks.Sequence.{Source, Held, InFront}
use omwj.Batching.Aks.Routed.{Routed}
use omwj.Batching.Aks.Inner.{inner-Routed}
use omwj.Batching.Aks.Opened.{
  get_or-map, All-slots, slots-All, beyond_last-IsOpenRow, decrypted_rows, encrypt_back_lem,
  ones-IsFlag,
}

module _ (blank : Entry) where
  -- A batch whose first c rows are no distribution padding and have ascending destinations inside the
  -- batch, with padding behind them.
  pub record Compact (c : ℕ) (plains : List Entry) : Type 0 where
    pub few : c ≤ length plains
    pub inside : (j : ℕ) → j < c → (slot blank plains j).dst_idx < length plains
    pub ordered :
        (j : ℕ) → suc j < c → (slot blank plains j).dst_idx < (slot blank plains (suc j)).dst_idx
    pub filled : (j : ℕ) → j < c → eq32 (slot blank plains j).field_type dist_padding ≡ false
    pub padding :
        (j : ℕ)
        → c ≤ j
        → j < length plains
        → eq32 (slot blank plains j).field_type dist_padding ≡ true

  -- Slot p holds the row whose destination it is, or padding if there is none.
  pub record Delivered (c : ℕ) (plains routed : List Entry) (p : ℕ) : Type 0 where
    pub row :
        (j : ℕ)
        → j < c
        → (slot blank plains j).dst_idx ≡ p
        → slot blank routed p ≡ slot blank plains j
    pub pad :
        ((j : ℕ) → j < c → (slot blank plains j).dst_idx ≢ p)
        → eq32 (slot blank routed p).field_type dist_padding ≡ true

  beyond_last-row :
      (n : ℕ) (e : Entry) → eq32 e.field_type dist_padding ≡ false → beyond_last n e ≡ e
  unfolding beyond_last
  beyond_last-row n e row = rw row refl

  beyond_last-Held :
      (n c j : ℕ) (plains : List Entry)
      → n < 1073741824
      → Compact c plains
      → j < length plains
      → Held n (slot blank plains) c j (beyond_last n (slot blank plains j))
  unfolding beyond_last
  beyond_last-Held n c j plains small compact h = (
    (λ k. beyond_last-row n (slot blank plains j) (compact.filled j k)),
    λ k. let mark = compact.padding j k h in (mark, rw mark (mod-eq_of_lt (omega (arith, small)))),
  )

  -- The rows of a batch under the recursion.
  batch-Routed :
      (c : ℕ) (plains : List Entry)
      → length plains < 1073741824
      → Compact c plains
      → All IsOpenRow plains
      → let n = length plains in
        let buf = map (beyond_last n) plains in
        Routed blank n (slot blank plains) c 0 0 n buf (distribute_inner 65 0 0 n buf)
  batch-Routed c plains small compact open_rows =
      let n = length plains in
      let buf = map (beyond_last n) plains in
      let size = length-map (beyond_last n) plains in
      let source : Source (slot blank plains) c 0 n = record {
        low = λ j h. omega arith;
        high = λ j h. let top = compact.inside j h in omega (arith, top);
        ordered = compact.ordered;
        filled = compact.filled;
      } in
      let front : InFront blank n (slot blank plains) c 0 n buf = λ j h.
        let first : 0 + j ≡ j = omega arith in
        rw (first, get_or-map blank (beyond_last n) plains j h)
          (beyond_last-Held n c j plains small compact h) in
      inner-Routed blank n small 30 65 0 0 n c (slot blank plains) buf (omega (arith, small))
        (omega arith) (omega arith) source front (omega (arith, size))
        λ p h.
          let inside : p < n = omega (arith, h, size) in
          rw (get_or-map blank (beyond_last n) plains p inside) (
            beyond_last-IsOpenRow n (slot blank plains p)
              (slots-All blank IsOpenRow plains p open_rows inside))

module _ (secure_key : ℕ) (cipher : Cipher) where
  distributed_lem :
      (rows plains routed : List Entry) (counter : ℕ)
      → map (λ e. beyond_last (length rows) (decrypted_row secure_key cipher e)) rows
        ≡ map (beyond_last (length rows)) plains
      → distribute_inner 65 0 0 (length rows) (map (beyond_last (length rows)) plains) ≡ some routed
      → aks_distribute secure_key cipher rows counter
        ≡ some (encrypt_back secure_key cipher routed counter)
  unfolding aks_distribute
  distributed_lem rows plains routed counter opened run =
      let close : List Entry → Option (List Entry × ℕ) =
        λ out. some (encrypt_back secure_key cipher out counter) in
      ap (λ buf. distribute_inner 65 0 0 (length rows) buf >>= close) opened
      ∙ ap (λ r. r >>= close) run

  module _ (sound : Sound cipher) (blank : Entry) where
    -- Under a sound cipher, let every row of a batch of fewer than 2 ^ 30 rows be decrypted already or
    -- decrypt to a row as it lies in memory, and let the first c of the decrypted rows have ascending
    -- destinations inside the batch and be no distribution padding, with distribution padding behind
    -- them (Compact). Then aks_distribute returns without an access out of bounds: it leaves every row
    -- encrypted, and the rows decrypt, up to their nonces, to as many rows, of which the one in slot p
    -- is the row whose destination is p, or distribution padding if no row has it.
    pub aks_distribute-delivers :
        (c : ℕ) (rows plains : List Entry) (counter : ℕ)
        → length rows < 1073741824
        → AllOpens secure_key cipher rows plains
        → All IsRow plains
        → Compact blank c plains
        → (routed sealed : List Entry) × (counter' : ℕ) × (aks_distribute secure_key cipher rows
              counter
            ≡ some (sealed, counter'))
          × AllReseals secure_key cipher (replicate (length routed) 1) routed sealed
          × (length routed ≡ length rows)
          × ((p : ℕ) → p < length rows → Delivered blank c plains routed p)
    aks_distribute-delivers c rows plains counter small opens in_memory compact =
        let size = length-AllOpens secure_key cipher rows plains opens in
        let n = length plains in
        let bare = plains-IsPlain secure_key cipher rows plains opens in
        let both = All-slots blank IsOpenRow plains (λ p h.
          (slots-All blank IsRow plains p in_memory h, slots-All blank IsPlain plains p bare h)) in
        let run = batch-Routed blank c plains (omega (arith, size, small)) compact both in
        let routed = run.out in
        let same_size : length routed ≡ n = run.same_size ∙ length-map (beyond_last n) plains in
        let plain_routed = All-slots blank IsPlain routed (λ p h. (run.rows p h).1) in
        let sealed = encrypt_back secure_key cipher routed counter in
        let kept : AllReseals secure_key cipher (replicate (length routed) 1) routed sealed.0 =
          rw (encrypt_back_lem secure_key cipher routed counter) (
            reseal_rows-AllReseals secure_key cipher sound (replicate (length routed) 1) routed
              counter (ones-IsFlag secure_key cipher (length routed)) plain_routed
              (sym (length-replicate (length routed) 1))) in
        (
          routed,
          sealed.0,
          sealed.1,
          distributed_lem rows plains routed counter
              (decrypted_rows secure_key cipher (length rows) rows plains opens)
              (rw size at run.returns),
          kept,
          same_size ∙ size,
          λ p h.
              let first : 0 + p ≡ p = omega arith in
              let there = run.placed p (omega (arith, h, size)) in
              record {
                row = λ j k at.
                    ap (slot blank routed) (sym first) ∙ there.row j k (omega (arith, at));
                pad = λ nobody.
                    let mark = (there.pad (λ j k at. nobody j k (omega (arith, at)))).0 in
                    rw first at mark;
              },
        )
