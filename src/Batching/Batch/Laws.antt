-- ===== src/Batching/Batch/Laws.antt =====
-- What the loops that decrypt and encrypt a batch leave, under a sound cipher.
use omwj.Prelude.{
  ℕ, suc, sym, arith, ◌≡◌, refl, ap, ◌∙◌, true, false, List, [], ◌∷◌, ◌++◌, ◌⊎◌, inl, inr, map,
}
use omwj.Prelude.Tests.{◌==◌}
use omwj.Prelude.Lists.{length, All}
use omwj.Entry.{Entry}
use omwj.Crypto.{Cipher, success, aes_decrypt_entry, reseal, unseal}
use omwj.Crypto.Laws.{Sound, aes_decrypt_entry-aes_encrypt_entry}
use omwj.Batching.Operations.Plain.{IsPlain}
use mathlib.Core.List.{append-nil, Perm}
use native.Mathlib.Nat.{ℕ_set}
use omwj.Order.Carried.{All-Perm}
use omwj.Batching.Batch.{Opening, decrypt_rows, reseal_rows, plain_rows, flags}

abbrev pub IsFlag : ℕ → Type 0
IsFlag was_encrypted = (was_encrypted ≡ 0) ⊎ (was_encrypted ≡ 1)

pub IsPlain-Perm :
    (rows mixed : List Entry) → Perm mixed rows → All IsPlain rows → All IsPlain mixed
IsPlain-Perm rows mixed p h = All-Perm IsPlain (λ e. ℕ_set _ _) p h

module _ (secure_key : ℕ) (cipher : Cipher) where
  -- The row is decrypted already, or decrypts to the plain row.
  pub record Opens (e plain : Entry) : Type 0 where
    pub opened : unseal secure_key cipher e ≡ (true, plain)
    pub bare : IsPlain plain
    pub marked : IsFlag e.is_encrypted

  abbrev pub AllOpens : List Entry → List Entry → Type 0
  AllOpens [] [] = Unit
  AllOpens [] (p ∷ plains) = ⊥
  AllOpens (e ∷ rows) [] = ⊥
  AllOpens (e ∷ rows) (p ∷ plains) = Opens e p × AllOpens rows plains

  -- The row has the flag, and decrypts to the plain row with another nonce.
  pub record Reseals (was_encrypted : ℕ) (plain e : Entry) : Type 0 where
    pub nonce : ℕ
    pub opens : Opens e (record plain { is_encrypted = 0; nonce = nonce })
    pub same_flag : e.is_encrypted ≡ was_encrypted

  abbrev pub AllReseals : List ℕ → List Entry → List Entry → Type 0
  AllReseals [] [] [] = Unit
  AllReseals (f ∷ fs) (p ∷ ps) (e ∷ es) = Reseals f p e × AllReseals fs ps es
  AllReseals fs ps es = ⊥

  abbrev pub flags_of : List Entry → List ℕ
  flags_of = map (λ e. e.is_encrypted)

  pub decrypt_rows-AllOpens :
      (rows plains behind : List Entry)
      → AllOpens rows plains
      → let opening = decrypt_rows secure_key cipher (rows ++ behind) in
        let rest = decrypt_rows secure_key cipher behind in
        (plain_rows opening.decrypted ≡ plains ++ plain_rows rest.decrypted)
        × (flags opening.decrypted ≡ flags_of rows ++ flags rest.decrypted)
        × (opening.left ≡ rest.left)
  unfolding decrypt_rows
  decrypt_rows-AllOpens [] [] behind h = (refl, refl, refl)
  decrypt_rows-AllOpens [] (p ∷ plains) behind h = absurd h
  decrypt_rows-AllOpens (e ∷ rows) [] behind h = absurd h
  decrypt_rows-AllOpens (e ∷ rows) (p ∷ plains) behind (o, h) =
      let (same, marks, left) = decrypt_rows-AllOpens rows plains behind h in
      rw (o.opened) (ap (◌∷◌ p) same, ap (◌∷◌ e.is_encrypted) marks, left)

  -- The loop on rows that open, up to a point from which its outcome is known.
  pub opened_upto :
      (rows plains behind left : List Entry)
      → AllOpens rows plains
      → decrypt_rows secure_key cipher behind ≡ record { decrypted = []; left = left }
      → let opening = decrypt_rows secure_key cipher (rows ++ behind) in
        (plain_rows opening.decrypted ≡ plains)
        × (flags opening.decrypted ≡ flags_of rows)
        × (opening.left ≡ left)
  opened_upto rows plains behind left h stop =
      let (same, marks, stopped) = decrypt_rows-AllOpens rows plains behind h in
      (
        same ∙ ap (λ (r : Opening). plains ++ plain_rows r.decrypted) stop ∙ append-nil plains,
        marks
            ∙ ap (λ (r : Opening). flags_of rows ++ flags r.decrypted) stop
            ∙ append-nil (flags_of rows),
        stopped ∙ ap (λ (r : Opening). r.left) stop,
      )

  pub done_rows : decrypt_rows secure_key cipher [] ≡ record { decrypted = []; left = [] }
  unfolding decrypt_rows
  done_rows = refl

  pub unseal_lem :
      (sealed plain : Entry)
      → sealed.is_encrypted ≡ 1
      → aes_decrypt_entry secure_key cipher sealed ≡ (success, plain)
      → unseal secure_key cipher sealed ≡ (true, plain)
  unseal_lem sealed plain mark back =
      let closed : (sealed.is_encrypted == 0) ≡ false = rw mark refl in
      rw (closed, back, ap (λ r. r.1) back) refl

  pub plains-IsPlain : (rows plains : List Entry) → AllOpens rows plains → All IsPlain plains
  plains-IsPlain [] [] h = tt
  plains-IsPlain [] (p ∷ plains) h = absurd h
  plains-IsPlain (e ∷ rows) [] h = absurd h
  plains-IsPlain (e ∷ rows) (p ∷ plains) (o, h) = (o.bare, plains-IsPlain rows plains h)

  pub flags-IsFlag : (rows plains : List Entry) → AllOpens rows plains → All IsFlag (flags_of rows)
  flags-IsFlag [] [] h = tt
  flags-IsFlag [] (p ∷ plains) h = absurd h
  flags-IsFlag (e ∷ rows) [] h = absurd h
  flags-IsFlag (e ∷ rows) (p ∷ plains) (o, h) = (o.marked, flags-IsFlag rows plains h)

  pub length-AllOpens :
      (rows plains : List Entry) → AllOpens rows plains → length plains ≡ length rows
  length-AllOpens [] [] h = refl
  length-AllOpens [] (p ∷ plains) h = absurd h
  length-AllOpens (e ∷ rows) [] h = absurd h
  length-AllOpens (e ∷ rows) (p ∷ plains) (o, h) = ap suc (length-AllOpens rows plains h)

  module _ (sound : Sound cipher) where
    reseal-Reseals :
        (f : ℕ) (plain : Entry) (counter : ℕ)
        → IsFlag f
        → IsPlain plain
        → Reseals f plain (reseal secure_key cipher f plain counter).0
    reseal-Reseals f plain counter (inl off) bare =
        let open_already : unseal secure_key cipher plain ≡ (true, plain) = rw bare refl in
        let off_mark : (true, plain) ≡ (true, record plain { is_encrypted = 0 }) =
          ap (λ (x : ℕ). (true, record plain { is_encrypted = x })) bare in
        let kept : Reseals f plain plain = record {
          nonce = plain.nonce;
          opens = record { opened = open_already ∙ off_mark; bare = refl; marked = inl bare };
          same_flag = bare ∙ sym off;
        } in
        rw (off, reseal) (rw off at kept)
    reseal-Reseals f plain counter (inr on) bare =
        let (sealed, forth, mark, back) =
          aes_decrypt_entry-aes_encrypt_entry secure_key sound plain counter bare in
        let kept : Reseals f plain sealed = record {
          nonce = counter;
          opens = record { opened = unseal_lem sealed _ mark back; bare = refl; marked = inr mark };
          same_flag = mark ∙ sym on;
        } in
        rw (on, forth, reseal) (rw on at kept)

    pub reseal_rows-AllReseals :
        (fs : List ℕ) (plains : List Entry) (counter : ℕ)
        → All IsFlag fs
        → All IsPlain plains
        → length plains ≡ length fs
        → AllReseals fs plains (reseal_rows secure_key cipher fs plains counter).0
    unfolding reseal_rows
    reseal_rows-AllReseals [] [] counter marks bare same = tt
    reseal_rows-AllReseals [] (p ∷ plains) counter marks bare same = absurd (omega arith)
    reseal_rows-AllReseals (f ∷ fs) [] counter marks bare same = absurd (omega arith)
    reseal_rows-AllReseals (f ∷ fs) (p ∷ plains) counter marks bare same = (
      reseal-Reseals f p counter marks.0 bare.0,
      reseal_rows-AllReseals fs plains _ marks.1 bare.1 (omega (arith, same)),
    )
