-- ===== src/Tests/Machine.antt =====
-- A concrete runtime for the examples: memory never runs out, the generator gives zeros, and the
-- sort is an insertion sort.
use mathlib.Core.List.Perm
use omwj.Entry.{Entry}
use omwj.Entry.Words.{words}
use omwj.Swap.{modulus64}
use omwj.Swap.Laws.{IsWords}
use omwj.Batching.Exchanges.{IsRow}
use omwj.Crypto.{Cipher}
use omwj.Crypto.Laws.{Sound}
use omwj.Prelude.{
  ℕ, ◌+◌, ◌-◌, ◌&&◌, map, ap, ◌≤◌, ◌≡◌, refl, Bool, true, List, [], ◌∷◌, some, Perm, inl, inr,
  arith,
}
use omwj.Prelude.Tests.{ltb, if◌then◌else◌, Bool-cases}
use omwj.Prelude.Lists.{length-map, All, replicate, length-replicate}
use omwj.Prelude.Word.{is_pos}
use omwj.Order.{Agrees}
use omwj.Order.Sorted.{IsSorted}
use omwj.Runtime.{Runtime, Lawful, Healthy}

module _ {A : Type 0} (cmp : A → A → ℕ) where
  unfoldable pub insert : A → List A → List A
  insert x [] = x ∷ []
  insert x (y ∷ ys) = let rest = insert x ys in if is_pos (cmp x y) then y ∷ rest else x ∷ y ∷ ys

  unfoldable pub insertion_sort : List A → List A
  unfolding insert
  insertion_sort [] = []
  insertion_sort (x ∷ xs) = insert x (insertion_sort xs)

  insert-Perm : (x : A) (ys : List A) → Perm (insert x ys) (x ∷ ys)
  unfolding insert
  insert-Perm x [] = Perm.rfl
  insert-Perm x (y ∷ ys) = elim (Bool-cases (is_pos (cmp x y))) [
    | inl above ↦ rw above (Perm.trans (Perm.cons y (insert-Perm x ys)) (Perm.swap x y ys))
    | inr below ↦ rw below Perm.rfl
  ]

  insertion_sort-Perm : (xs : List A) → Perm (insertion_sort xs) xs
  unfolding insertion_sort
  insertion_sort-Perm [] = Perm.rfl
  insertion_sort-Perm (x ∷ xs) =
      Perm.trans (insert-Perm x (insertion_sort xs)) (Perm.cons x (insertion_sort-Perm xs))

  module _ (rank : A → ℕ) (agrees : Agrees cmp rank) where
    insert-All :
        (k : ℕ) (x : A) (ys : List A)
        → k ≤ rank x
        → All (λ y. k ≤ rank y) ys
        → All (λ y. k ≤ rank y) (insert x ys)
    unfolding insert
    insert-All k x [] h all = (h, tt)
    insert-All k x (y ∷ ys) h all = elim (Bool-cases (is_pos (cmp x y))) [
      | inl above ↦ rw above (all.0, insert-All k x ys h all.1)
      | inr below ↦ rw below (h, all)
    ]

    raise : (j k : ℕ) (ys : List A) → j ≤ k → All (λ y. k ≤ rank y) ys → All (λ y. j ≤ rank y) ys
    raise j k [] h all = tt
    raise j k (y ∷ ys) h all = (omega (arith, all.0), raise j k ys h all.1)

    insert-IsSorted : (x : A) (ys : List A) → IsSorted rank ys → IsSorted rank (insert x ys)
    unfolding insert
    insert-IsSorted x [] s = (tt, tt)
    insert-IsSorted x (y ∷ ys) s =
        let law = (agrees x y).1 in
        elim (Bool-cases (is_pos (cmp x y))) [
          | inl above ↦
              let le : rank y ≤ rank x = ground (arith, law, above) in
              rw above (insert-All (rank y) x ys le s.0, insert-IsSorted x ys s.1)
          | inr below ↦
              let le : rank x ≤ rank y = ground (arith, law, below) in
              rw below ((le, raise (rank x) (rank y) ys le s.0), s)
        ]

    insertion_sort-IsSorted : (xs : List A) → IsSorted rank (insertion_sort xs)
    unfolding insertion_sort
    insertion_sort-IsSorted [] = tt
    insertion_sort-IsSorted (x ∷ xs) =
        insert-IsSorted x (insertion_sort xs) (insertion_sort-IsSorted xs)

abbrev pub machine : Runtime
machine = record {
  World = ℕ;
  alloc = λ n w. (true, w);
  keystream = λ n w. (some (replicate n 0), w);
  qsort = λ cmp xs. insertion_sort cmp xs;
}

pub machine-Lawful : Lawful machine
machine-Lawful = record {
  qsort-perm = λ cmp xs. insertion_sort-Perm cmp xs;
  qsort-IsSorted = λ cmp rank xs agrees. insertion_sort-IsSorted cmp rank agrees xs;
}

pub machine-Healthy : Healthy machine
machine-Healthy = record {
  memory = λ n w. refl;
  random = λ n w. (replicate n 0, refl, length-replicate n 0);
}

-- A row with one value in all columns.
abbrev pub row : ℕ → ℕ → ℕ → ℕ → Entry
row kind key position value = record {
  field_type = kind;
  equality_type = 1;
  is_encrypted = 0;
  nonce = 0;
  join_attr = key;
  original_index = position;
  local_mult = 1;
  final_mult = 0;
  foreign_sum = 0;
  local_cumsum = 0;
  local_interval = 0;
  foreign_interval = 0;
  local_weight = 0;
  copy_index = 0;
  alignment_key = 0;
  dst_idx = 0;
  index = 0;
  attributes = replicate 64 value;
}

abbrev pub all_words : List ℕ → Bool
all_words [] = true
all_words (w ∷ ws) = ltb w modulus64 && all_words ws

pub IsWords-check : (ws : List ℕ) → all_words ws ≡ true → IsWords ws
IsWords-check [] h = tt
IsWords-check (w ∷ ws) h = (ground (arith, h), IsWords-check ws (ground (arith, h)))

pub row-IsRow :
    (kind key position value : ℕ)
    → all_words (words (row kind key position value)) ≡ true
    → IsRow (row kind key position value)
row-IsRow kind key position value h = (refl, IsWords-check (words (row kind key position value)) h)

-- A cipher that adds to each word a number of the counter block.
abbrev pub shift_cipher : Cipher
shift_cipher = record {
  ctr_encrypt = λ key ctr text. some (map (λ w. w + ctr) text, ctr + 1);
  ctr_decrypt = λ key ctr text. some (map (λ w. w - ctr) text, ctr + 1);
}

unshift : (ctr : ℕ) (text : List ℕ) → map (λ w. w - ctr) (map (λ w. w + ctr) text) ≡ text
unshift ctr [] = refl
unshift ctr (w ∷ text) =
    let back : w + ctr - ctr ≡ w = omega arith in rw (back, unshift ctr text) refl

pub shift_cipher-Sound : Sound shift_cipher
shift_cipher-Sound = record {
  sealed = λ key ctr text. map (λ w. w + ctr) text;
  after = λ key ctr text. ctr + 1;
  encrypts = λ key ctr text. refl;
  decrypts = λ key ctr text. ap (λ ws. some (ws, ctr + 1)) (unshift ctr text);
  same_length = λ key ctr text. length-map (λ w. w + ctr) text;
}
