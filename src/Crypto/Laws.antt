-- ===== src/Crypto/Laws.antt =====
-- A row that is encrypted and decrypted again is the row, and an operation on an encrypted row is
-- the operation on the row itself.
use omwj.Prelude.Partial.{◌>>=◌}
use omwj.Swap.{modulus64}
use omwj.Prelude.{true, false, ℕ, ◌+◌, ◌%◌, ◌≤◌, ◌≡◌, refl, ap, List, [], ◌∷◌, Option, some, arith}
use omwj.Prelude.Tests.{◌==◌}
use omwj.Prelude.Lists.{length}
use omwj.Entry.{Entry}
use omwj.Entry.Words.{head_words, tail_words, with_head, with_tail}
use omwj.Crypto.{
  success, Cipher, init_aes_key, crypt_regions, aes_encrypt_entry, aes_decrypt_entry,
  apply_to_decrypted_entry, apply_to_decrypted_pair,
}

-- What the code relies on: the cipher works, decryption undoes encryption under the same key and
-- counter block and leaves the same counter block, and a text keeps its length.
pub record Sound (cipher : Cipher) : Type 0 where
  pub sealed : List ℕ → ℕ → List ℕ → List ℕ
  pub after : List ℕ → ℕ → List ℕ → ℕ
  pub encrypts :
      (key : List ℕ) (ctr : ℕ) (text : List ℕ)
      → cipher.ctr_encrypt key ctr text ≡ some (sealed key ctr text, after key ctr text)
  pub decrypts :
      (key : List ℕ) (ctr : ℕ) (text : List ℕ)
      → cipher.ctr_decrypt key ctr (sealed key ctr text) ≡ some (text, after key ctr text)
  pub same_length :
      (key : List ℕ) (ctr : ℕ) (text : List ℕ) → length (sealed key ctr text) ≡ length text

-- Thirteen words or more are the second region of a row.
tail_shape : (ws : List ℕ) → 13 ≤ length ws → (f : Entry) × (ws ≡ tail_words f)
tail_shape [] h = absurd (omega arith)
tail_shape (ja ∷ []) h = absurd (omega arith)
tail_shape (ja ∷ oi ∷ []) h = absurd (omega arith)
tail_shape (ja ∷ oi ∷ lm ∷ []) h = absurd (omega arith)
tail_shape (ja ∷ oi ∷ lm ∷ fm ∷ []) h = absurd (omega arith)
tail_shape (ja ∷ oi ∷ lm ∷ fm ∷ fs ∷ []) h = absurd (omega arith)
tail_shape (ja ∷ oi ∷ lm ∷ fm ∷ fs ∷ lc ∷ []) h = absurd (omega arith)
tail_shape (ja ∷ oi ∷ lm ∷ fm ∷ fs ∷ lc ∷ li ∷ []) h = absurd (omega arith)
tail_shape (ja ∷ oi ∷ lm ∷ fm ∷ fs ∷ lc ∷ li ∷ fi ∷ []) h = absurd (omega arith)
tail_shape (ja ∷ oi ∷ lm ∷ fm ∷ fs ∷ lc ∷ li ∷ fi ∷ lw ∷ []) h = absurd (omega arith)
tail_shape (ja ∷ oi ∷ lm ∷ fm ∷ fs ∷ lc ∷ li ∷ fi ∷ lw ∷ ci ∷ []) h = absurd (omega arith)
tail_shape (ja ∷ oi ∷ lm ∷ fm ∷ fs ∷ lc ∷ li ∷ fi ∷ lw ∷ ci ∷ ak ∷ []) h = absurd (omega arith)
tail_shape (ja ∷ oi ∷ lm ∷ fm ∷ fs ∷ lc ∷ li ∷ fi ∷ lw ∷ ci ∷ ak ∷ di ∷ []) h = absurd (omega arith)
tail_shape (ja ∷ oi ∷ lm ∷ fm ∷ fs ∷ lc ∷ li ∷ fi ∷ lw ∷ ci ∷ ak ∷ di ∷ ix ∷ attrs) h = (
  record {
    field_type = 0;
    equality_type = 0;
    is_encrypted = 0;
    nonce = 0;
    join_attr = ja;
    original_index = oi;
    local_mult = lm;
    final_mult = fm;
    foreign_sum = fs;
    local_cumsum = lc;
    local_interval = li;
    foreign_interval = fi;
    local_weight = lw;
    copy_index = ci;
    alignment_key = ak;
    dst_idx = di;
    index = ix;
    attributes = attrs;
  },
  refl,
)

head_shape : (ws : List ℕ) → length ws ≡ 2 → (ft : ℕ) × (et : ℕ) × (ws ≡ ft ∷ et ∷ [])
head_shape [] h = absurd (omega arith)
head_shape (a ∷ []) h = absurd (omega arith)
head_shape (a ∷ b ∷ []) h = (a, b, refl)
head_shape (a ∷ b ∷ c ∷ ws) h = absurd (omega arith)

module _ (secure_key : ℕ) where
  regions_lem :
      (f : List ℕ → ℕ → List ℕ → Option (List ℕ × ℕ)) (e : Entry) {head tail : List ℕ}
      {ctr ctr' : ℕ}
      → f (init_aes_key secure_key) e.nonce (head_words e) ≡ some (head, ctr)
      → f (init_aes_key secure_key) ctr (tail_words e) ≡ some (tail, ctr')
      → crypt_regions secure_key f e ≡ some (with_tail (with_head e head) tail)
  unfolding crypt_regions
  regions_lem f e p q = rw (p, ◌>>=◌) (rw (q, ◌>>=◌) refl)

  encrypt_lem :
      (cipher : Cipher) (e : Entry) (counter : ℕ) {out : Entry}
      → (e.is_encrypted == 0) ≡ true
      → crypt_regions secure_key cipher.ctr_encrypt (record e { nonce = counter }) ≡ some out
      → aes_encrypt_entry secure_key cipher e counter
        ≡ (success, record out { is_encrypted = 1 }, (counter + 1) % modulus64)
  unfolding aes_encrypt_entry
  encrypt_lem cipher e counter plain forth = rw (plain, forth, aes_encrypt_entry) refl

  decrypt_lem :
      (cipher : Cipher) (e : Entry) {out : Entry}
      → (e.is_encrypted == 0) ≡ false
      → crypt_regions secure_key cipher.ctr_decrypt e ≡ some out
      → aes_decrypt_entry secure_key cipher e ≡ (success, record out { is_encrypted = 0 })
  unfolding aes_decrypt_entry
  decrypt_lem cipher e closed back = rw (closed, back, aes_decrypt_entry) refl

  module _ {cipher : Cipher} (sound : Sound cipher) where
    -- Under a sound cipher, encrypting a row that is not encrypted succeeds, marks the row, uses up
    -- one nonce, and decrypting the outcome gives the row back with that nonce.
    pub aes_decrypt_entry-aes_encrypt_entry :
        (e : Entry) (counter : ℕ)
        → e.is_encrypted ≡ 0
        → (sealed : Entry) × (aes_encrypt_entry secure_key cipher e counter
            ≡ (success, sealed, (counter + 1) % modulus64))
          × (sealed.is_encrypted ≡ 1)
          × (aes_decrypt_entry secure_key cipher sealed
              ≡ (success, record e { is_encrypted = 0; nonce = counter }))
    aes_decrypt_entry-aes_encrypt_entry e counter plain =
        let key = init_aes_key secure_key in
        let head = head_words e in
        let ctr = sound.after key counter head in
        let tail = tail_words e in
        let (ft, et, head_is) =
          head_shape (sound.sealed key counter head) (sound.same_length key counter head) in
        let (f, tail_is) =
          tail_shape (sound.sealed key ctr tail) (omega (arith, sound.same_length key ctr tail)) in
        let sealed = record f {
          field_type = ft;
          equality_type = et;
          is_encrypted = 1;
          nonce = counter;
        } in
        let forth =
          regions_lem cipher.ctr_encrypt (record e { nonce = counter })
            (rw head_is at (sound.encrypts key counter head))
            (rw tail_is at (sound.encrypts key ctr tail)) in
        let back =
          regions_lem cipher.ctr_decrypt sealed (rw head_is at (sound.decrypts key counter head))
            (rw tail_is at (sound.decrypts key ctr tail)) in
        (
          sealed,
          encrypt_lem cipher e counter (rw plain refl) forth,
          refl,
          decrypt_lem cipher sealed refl back,
        )

    apply_lem :
        (operation : Entry → Entry) (sealed plain out : Entry) (later later' : ℕ)
        → sealed.is_encrypted ≡ 1
        → aes_decrypt_entry secure_key cipher sealed ≡ (success, plain)
        → aes_encrypt_entry secure_key cipher (operation plain) later ≡ (success, out, later')
        → apply_to_decrypted_entry secure_key cipher operation sealed later ≡ (out, later')
    unfolding apply_to_decrypted_entry
    apply_lem operation sealed plain out later later' mark opened closing =
        let closed : (sealed.is_encrypted == 0) ≡ false = rw mark refl in
        rw (closed, opened, ap (λ r. r.1) opened, closing) refl

    -- Under a sound cipher, let a row that is not encrypted be encrypted, an operation be applied to
    -- it through apply_to_decrypted_entry, and the outcome be decrypted: if the operation leaves the
    -- flag of the row off, the result is the operation's value, with the nonce of the second
    -- encryption.
    pub apply_to_decrypted_entry_lem :
        (operation : Entry → Entry) (e : Entry) (counter later : ℕ)
        → e.is_encrypted ≡ 0
        → (operation (record e { is_encrypted = 0; nonce = counter })).is_encrypted ≡ 0
        → let (status, sealed, next) = aes_encrypt_entry secure_key cipher e counter in
          let (out, next') = apply_to_decrypted_entry secure_key cipher operation sealed later in
          aes_decrypt_entry secure_key cipher out ≡ (
            success,
            record (operation (record e { is_encrypted = 0; nonce = counter })) {
              is_encrypted = 0;
              nonce = later;
            },
          )
    apply_to_decrypted_entry_lem operation e counter later plain kept =
        let (sealed, forth, mark, back) = aes_decrypt_entry-aes_encrypt_entry e counter plain in
        let done = operation (record e { is_encrypted = 0; nonce = counter }) in
        let (out, forth', mark', back') = aes_decrypt_entry-aes_encrypt_entry done later kept in
        let applied = apply_lem operation sealed _ out later _ mark back forth' in
        rw (forth, applied) back'

    pair_lem :
        (operation : Entry → Entry → Entry × Entry) (s1 s2 p1 p2 o1 o2 : Entry)
        (counter counter1 counter2 : ℕ)
        → s1.is_encrypted ≡ 1
        → s2.is_encrypted ≡ 1
        → aes_decrypt_entry secure_key cipher s1 ≡ (success, p1)
        → aes_decrypt_entry secure_key cipher s2 ≡ (success, p2)
        → aes_encrypt_entry secure_key cipher (operation p1 p2).0 counter ≡ (success, o1, counter1)
        → aes_encrypt_entry secure_key cipher (operation p1 p2).1 counter1 ≡ (success, o2, counter2)
        → apply_to_decrypted_pair secure_key cipher operation s1 s2 counter ≡ (o1, o2, counter2)
    unfolding apply_to_decrypted_pair
    pair_lem operation s1 s2 p1 p2 o1 o2 counter counter1 counter2 m1 m2 d1 d2 c1 c2 =
        let closed1 : (s1.is_encrypted == 0) ≡ false = rw m1 refl in
        let closed2 : (s2.is_encrypted == 0) ≡ false = rw m2 refl in
        rw (closed1, closed2, d1, d2, ap (λ r. r.1) d1, ap (λ r. r.1) d2, c1, c2) refl

    -- Under a sound cipher, let two rows be encrypted and decrypt to two plain rows, and let an
    -- operation on these leave both flags off. Then the two rows that apply_to_decrypted_pair gives
    -- decrypt to the two values of the operation, with two nonces one after the other.
    pub apply_to_decrypted_pair_lem :
        (operation : Entry → Entry → Entry × Entry) (s1 s2 p1 p2 : Entry) (counter : ℕ)
        → s1.is_encrypted ≡ 1
        → s2.is_encrypted ≡ 1
        → aes_decrypt_entry secure_key cipher s1 ≡ (success, p1)
        → aes_decrypt_entry secure_key cipher s2 ≡ (success, p2)
        → (operation p1 p2).0.is_encrypted ≡ 0
        → (operation p1 p2).1.is_encrypted ≡ 0
        → let (o1, o2, next) = apply_to_decrypted_pair secure_key cipher operation s1 s2 counter in
          let (r1, r2) = operation p1 p2 in
          (aes_decrypt_entry secure_key cipher o1
            ≡ (success, record r1 { is_encrypted = 0; nonce = counter }))
          × (aes_decrypt_entry secure_key cipher o2
              ≡ (success, record r2 { is_encrypted = 0; nonce = (counter + 1) % modulus64 }))
    apply_to_decrypted_pair_lem operation s1 s2 p1 p2 counter m1 m2 d1 d2 f1 f2 =
        let (o1, c1, k1, b1) = aes_decrypt_entry-aes_encrypt_entry (operation p1 p2).0 counter f1 in
        let (o2, c2, k2, b2) =
          aes_decrypt_entry-aes_encrypt_entry (operation p1 p2).1 ((counter + 1) % modulus64) f2 in
        let applied = pair_lem operation s1 s2 p1 p2 o1 o2 counter _ _ m1 m2 d1 d2 c1 c2 in
        rw applied (b1, b2)
