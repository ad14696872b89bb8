-- ===== src/Batching/Aks/Opened.antt =====
-- The batch around the recursion of aks_distribute: its decryption, the destinations of the padding
-- and its encryption.
use omwj.Prelude.{
  ℕ, zero, suc, ◌%◌, ◌<◌, ◌≡◌, refl, ap, ◌∙◌, Bool, true, false, List, [], ◌∷◌, map, inl, inr,
  arith,
}
use omwj.Prelude.Tests.{◌==◌, Bool-cases}
use omwj.Prelude.Lists.{length, get_or, All, replicate}
use omwj.Prelude.Word.{eq32, modulus}
use omwj.Constants.{dist_padding}
use omwj.Swap.{modulus64}
use omwj.Swap.Laws.{IsWords}
use omwj.Entry.{Entry}
use omwj.Entry.Words.{words}
use omwj.Crypto.{
  Cipher, CryptoStatus, success, already_encrypted, not_encrypted, operation_failed, unseal,
  aes_decrypt_entry,
}
use omwj.Batching.Batch.{encrypt_back, reseal_rows}
use omwj.Batching.Batch.Laws.{AllOpens, IsFlag}
use omwj.Batching.Aks.{beyond_last, decrypted_row}
use omwj.Batching.Aks.Swaps.{IsOpenRow}

module _ (blank : Entry) (f : Entry → Entry) where
  pub get_or-map :
      (xs : List Entry) (i : ℕ) → i < length xs → get_or (map f xs) i blank ≡ f (get_or xs i blank)
  get_or-map [] i h = absurd (omega arith)
  get_or-map (x ∷ xs) zero h = refl
  get_or-map (x ∷ xs) (suc i) h = get_or-map xs i (omega arith)

module _ (blank : Entry) (P : Entry → Type 0) where
  pub All-slots : (xs : List Entry) → ((p : ℕ) → p < length xs → P (get_or xs p blank)) → All P xs
  All-slots [] h = tt
  All-slots (x ∷ xs) h = (h 0 (omega arith), All-slots xs (λ p k. h (suc p) (omega (arith, k))))

  pub slots-All : (xs : List Entry) (p : ℕ) → All P xs → p < length xs → P (get_or xs p blank)
  slots-All [] p h k = absurd (omega arith)
  slots-All (x ∷ xs) zero h k = h.0
  slots-All (x ∷ xs) (suc p) h k = slots-All xs p h.1 (omega arith)

-- A write of the destination.
written :
    (e : Entry) (v : ℕ)
    → v < modulus64
    → IsWords (words e)
    → IsWords (words (record e { dst_idx = v }))
written e v small
      (
        ft,
        (
          et,
          (enc, (nn, (ja, (oi, (lm, (fm, (fs, (lc, (li, (fi, (lw, (ci, (ak, (di, rest)))))))))))))),
        ),
      ) =
    (
      ft,
      (
        et,
        (
          enc,
          (nn, (ja, (oi, (lm, (fm, (fs, (lc, (li, (fi, (lw, (ci, (ak, (small, rest))))))))))))),
        ),
      ),
    )

pub beyond_last-IsOpenRow : (n : ℕ) (e : Entry) → IsOpenRow e → IsOpenRow (beyond_last n e)
unfolding beyond_last
beyond_last-IsOpenRow n e ((size, fits), bare) =
    elim (Bool-cases (eq32 e.field_type dist_padding)) [
      | inl padding ↦
          let small : n % modulus < modulus64 = omega arith in
          rw padding ((size, written e (n % modulus) small fits), bare)
      | inr row ↦ rw row ((size, fits), bare)
    ]

module _ (secure_key : ℕ) (cipher : Cipher) where
  -- Decryption whose status is ignored gives the row that unseal gives.
  decrypted_lem : (e : Entry) → decrypted_row secure_key cipher e ≡ (unseal secure_key cipher e).1
  decrypted_lem e = elim (Bool-cases (e.is_encrypted == 0)) [
    | inl off ↦ rw off refl
    | inr on ↦ rw on (by_status (aes_decrypt_entry secure_key cipher e))
  ]
    where
      by_status :
          (r : CryptoStatus × Entry)
          → r.1 ≡ (elim r.0 as (λ s. Bool × Entry) [ success ↦ (true, r.1) | _ ↦ (false, r.1) ]).1
      by_status (success, plain) = refl
      by_status (already_encrypted, plain) = refl
      by_status (not_encrypted, plain) = refl
      by_status (operation_failed, plain) = refl

  pub decrypted_rows :
      (n : ℕ) (rows plains : List Entry)
      → AllOpens secure_key cipher rows plains
      → map (λ e. beyond_last n (decrypted_row secure_key cipher e)) rows
        ≡ map (beyond_last n) plains
  decrypted_rows n [] [] h = refl
  decrypted_rows n [] (p ∷ plains) h = absurd h
  decrypted_rows n (e ∷ rows) [] h = absurd h
  decrypted_rows n (e ∷ rows) (p ∷ plains) (o, h) =
      let same : decrypted_row secure_key cipher e ≡ p =
        decrypted_lem e ∙ ap (λ (r : Bool × Entry). r.1) o.opened in
      rw (same, decrypted_rows n rows plains h) refl

  -- The loop that encrypts every row is the one that encrypts what was encrypted, for flags of 1.
  pub encrypt_back_lem :
      (rows : List Entry) (counter : ℕ)
      → encrypt_back secure_key cipher rows counter
        ≡ reseal_rows secure_key cipher (replicate (length rows) 1) rows counter
  unfolding encrypt_back reseal_rows
  encrypt_back_lem [] counter = refl
  encrypt_back_lem (e ∷ rows) counter = rw (encrypt_back_lem rows) refl

  pub ones-IsFlag : (k : ℕ) → All IsFlag (replicate k 1)
  ones-IsFlag zero = tt
  ones-IsFlag (suc k) = (inr refl, ones-IsFlag k)
