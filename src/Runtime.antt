-- ===== src/Runtime.antt =====
-- What the enclave takes from its runtime: memory, the SGX random generator with its AES-CTR
-- keystream, and the C library's qsort. Each call may change the runtime's own state.
use omwj.Prelude.{ℕ, ◌≡◌, ◌⊎◌, refl, Bool, true, List, Option, none, some, Perm}
use omwj.Prelude.Lists.{length}
use omwj.Order.{Agrees}
use omwj.Order.Sorted.{IsSorted}

-- `err` is the return value -1, `fault` an access out of bounds or a loop that does not end, and
-- `trap` a division of INT32_MIN by -1, which stops the program.
pub data Result (W A : Type 0) : Type 0 where
  ok : A → W → Result W A
  err : W → Result W A
  fault : Result W A
  trap : Result W A

abbrev pub M : Type 0 → Type 0 → Type 0
M W A = W → Result W A

abbrev pub pure : {W A : Type 0} → A → M W A
pure a w = ok a w

infixl 5 ◌>>=◌ ◌>>◌
abbrev pub ◌>>=◌ : {W A B : Type 0} → M W A → (A → M W B) → M W B
◌>>=◌ m f w = elim (m w) [ ok a w' ↦ f a w' | err w' ↦ err w' | fault ↦ fault | trap ↦ trap ]

abbrev pub ◌>>◌ : {W B : Type 0} → M W (Unit {0}) → M W B → M W B
m >> k = m >>= λ _. k

abbrev pub trapped : {W A : Type 0} → M W A
trapped w = trap

-- A model function that may fault.
abbrev pub defined : {W A : Type 0} → Option A → M W A
defined none w = fault
defined (some a) w = ok a w

pub record Runtime : Type 1 where
  pub World : Type 0
  -- whether an allocation of so many bytes succeeds
  pub alloc : ℕ → World → Bool × World
  -- a fresh key's keystream of so many bytes; `none` if the generator or the cipher fails
  pub keystream : ℕ → World → Option (List ℕ) × World
  pub qsort : {A : Type 0} → (A → A → ℕ) → List A → List A

-- What the code relies on: qsort permutes its array, and sorts it by a comparator that is an order.
pub record Lawful (rt : Runtime) : Type 1 where
  pub qsort-perm : {A : Type 0} (cmp : A → A → ℕ) (xs : List A) → Perm (rt.qsort cmp xs) xs
  pub qsort-IsSorted :
      {A : Type 0} (cmp : A → A → ℕ) (rank : A → ℕ) (xs : List A)
      → Agrees cmp rank
      → IsSorted rank (rt.qsort cmp xs)

-- A runtime with memory left, whose generator works.
pub record Healthy (rt : Runtime) : Type 0 where
  pub memory : (n : ℕ) (w : rt.World) → (rt.alloc n w).0 ≡ true
  pub random :
      (n : ℕ) (w : rt.World)
      → (bytes : List ℕ) × ((rt.keystream n w).0 ≡ some bytes) × (length bytes ≡ n)

module _ (rt : Runtime) where
  -- mt_alloc, for its success
  unfoldable pub reserve : ℕ → M rt.World (Unit {0})
  reserve n w = let (done, w') = rt.alloc n w in elim done [ true ↦ ok tt w' | _ ↦ err w' ]

-- The run returns a value with the property.
abbrev pub Returns {κ} : {W A : Type 0} → Result W A → (A → Type κ) → Type κ
Returns {W = W} {A = A} r P = (a : A) × (w : W) × (r ≡ ok a w) × P a

-- The run returns a value with the property, or a division traps.
abbrev pub ReturnsOrTraps {κ} : {W A : Type 0} → Result W A → (A → Type κ) → Type κ
ReturnsOrTraps r P = (r ≡ trap) ⊎ Returns r P

-- A step that returns hands its value and the runtime's state on.
pub >>=-ok :
    {W A B : Type 0} (m : M W A) (f : A → M W B) {w w' : W} {a : A} {r : Result W B}
    → m w ≡ ok a w'
    → f a w' ≡ r
    → (m >>= f) w ≡ r
>>=-ok m f p q = rw (p, ◌>>=◌) q

-- A trap ends a run.
pub >>=-trap :
    {W A B : Type 0} (m : M W A) (f : A → M W B) {w : W} → m w ≡ trap → (m >>= f) w ≡ trap
>>=-trap m f p = rw (p, ◌>>=◌) refl

pub defined-some : {W A : Type 0} {o : Option A} {a : A} (w : W) → o ≡ some a → defined o w ≡ ok a w
defined-some w e = rw e refl
