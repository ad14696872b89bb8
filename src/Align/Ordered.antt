-- ===== src/Align/Ordered.antt =====
-- preorder emits a node after its parent.
use mathlib.Core.List.{Memᴰ}
use mathlib.Core.List.Memᴰ
use mathlib.Core.Option.{some_inj, none-ne-some}
use omwj.Prelude.{ℕ, zero, suc, ◌≡◌, refl, List, [], ◌∷◌, ◌++◌, Option, some, inl, inr}
use omwj.Prelude.Lists.{All}
use omwj.Prelude.Partial.{Option-cases}
use omwj.Entry.{JoinNode}
use omwj.Align.Attach.{children_from, in_turn, preorder}

pub All-Memᴰ : {A : Type 0} (P : A → Type 0) {a : A} {xs : List A} → All P xs → Memᴰ a xs → P a
All-Memᴰ P {a} {xs = []} h m = absurd (Memᴰ.not-nil m)
All-Memᴰ P {a} {xs = x ∷ xs} h m = elim (Memᴰ.cases_cons m) [
  | inl e ↦ rw e (h.0)
  | inr k ↦ All-Memᴰ P h.1 k
]

module _ (tree : List JoinNode) where
  -- Each node is known when its turn comes, as the root or as a child of a node before it.
  abbrev pub Ordered : List ℕ → List ℕ → Type 0
  Ordered known [] = Unit
  Ordered known (v ∷ seq) = Memᴰ v known × Ordered (children_from v 0 tree ++ known) seq

  abbrev Within : List ℕ → List ℕ → Type 0
  Within known more = (u : ℕ) → Memᴰ u known → Memᴰ u more

  append-Within :
      (front known more : List ℕ) → Within known more → Within (front ++ known) (front ++ more)
  append-Within [] known more h u m = h u m
  append-Within (x ∷ front) known more h u m = elim (Memᴰ.cases_cons m) [
    | inl e ↦ Memᴰ.head e
    | inr k ↦ Memᴰ.tail (append-Within front known more h u k)
  ]

  behind-Within : (front known : List ℕ) → Within known (front ++ known)
  behind-Within [] known u m = m
  behind-Within (x ∷ front) known u m = Memᴰ.tail (behind-Within front known u m)

  front-Within : (front known : List ℕ) → All (λ u. Memᴰ u (front ++ known)) front
  front-Within [] known = tt
  front-Within (x ∷ front) known = (Memᴰ.head refl, later front (front-Within front known))
    where
      later :
          (us : List ℕ)
          → All (λ u. Memᴰ u (front ++ known)) us
          → All (λ u. Memᴰ u (x ∷ front ++ known)) us
      later [] h = tt
      later (u ∷ us) h = (Memᴰ.tail (h.0), later us h.1)

  Ordered-Within :
      (known more seq : List ℕ) → Within known more → Ordered known seq → Ordered more seq
  Ordered-Within known more [] h o = tt
  Ordered-Within known more (v ∷ seq) h o = (
    h v o.0,
    Ordered-Within (children_from v 0 tree ++ known) (children_from v 0 tree ++ more) seq
        (append-Within (children_from v 0 tree) known more h) o.1,
  )

  Ordered-append :
      (known xs ys : List ℕ) → Ordered known xs → Ordered known ys → Ordered known (xs ++ ys)
  Ordered-append known [] ys h k = k
  Ordered-append known (v ∷ xs) ys h k = (
    h.0,
    Ordered-append (children_from v 0 tree ++ known) xs ys h.1
        (Ordered-Within known _ ys (behind-Within (children_from v 0 tree) known) k),
  )

  abbrev Orders : (ℕ → Option (List ℕ)) → Type 0
  Orders emit = (known seq : List ℕ) (c : ℕ) → Memᴰ c known → emit c ≡ some seq → Ordered known seq

  in_turn-Ordered :
      (emit : ℕ → Option (List ℕ)) (known cs seq : List ℕ)
      → Orders emit
      → All (λ c. Memᴰ c known) cs
      → in_turn emit cs ≡ some seq
      → Ordered known seq
  unfolding in_turn
  in_turn-Ordered emit known [] seq orders h run = rw (← some_inj.0 run) tt
  in_turn-Ordered emit known (c ∷ cs) seq orders h run = elim (Option-cases (emit c)) [
    | inl stop ↦ absurd (none-ne-some seq (rw (stop, in_turn) at run))
    | inr (xs, first) ↦ elim (Option-cases (in_turn emit cs)) [
      | inl stop ↦ absurd (none-ne-some seq (rw (first, stop, in_turn) at run))
      | inr (ys, rest) ↦
          let whole : xs ++ ys ≡ seq = some_inj.0 (rw (first, rest, in_turn) at run) in
          rw (← whole) (
            Ordered-append known xs ys (orders known xs c h.0 first)
              (in_turn-Ordered emit known cs ys orders h.1 rest))
    ]
  ]

  -- What preorder emits from a known node is ordered.
  pub preorder-Ordered : (fuel : ℕ) → Orders (preorder fuel tree)
  unfolding preorder
  preorder-Ordered zero known seq node m run = absurd (none-ne-some seq run)
  preorder-Ordered (suc fuel) known seq node m run =
      let children = children_from node 0 tree in
      elim (Option-cases (in_turn (preorder fuel tree) children)) [
        | inl stop ↦ absurd (none-ne-some seq (rw (stop, preorder) at run))
        | inr (rest, inner) ↦
            let whole : node ∷ rest ≡ seq = some_inj.0 (rw (inner, preorder) at run) in
            rw (← whole) (
              m,
              in_turn-Ordered (preorder fuel tree) (children ++ known) children rest
                  (preorder-Ordered fuel) (front-Within children known) inner,
            )
      ]
