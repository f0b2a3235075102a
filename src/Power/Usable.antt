-- ===== src/Power/Usable.antt =====
-- Which private state `private_generations` of team/power_execution.py binds a Power to.
use shimpz_drivers.Prelude.{
  ℕ, ◌≤◌, ◌≡◌, ap, subst, arith, Bool, true, some, List, [], ◌∷◌, String, ok, if◌then◌else◌, ltb,
  all, Bool-cases, Option-cases, inl, inr,
}
use shimpz_drivers.Prelude.Int.{pos}
use shimpz_drivers.Value.{Value, int}
use shimpz_drivers.Power.Generations.{
  Metadata, is_connected, is_configured, positive, generations_of, private_generations,
}

-- The generation of an item is an integer of at least 1, under its identifier.
pub data Bound : List Metadata → List (String × ℕ) → Type 0 where
  nothing : Bound [] []
  next :
      (item : Metadata) (n : ℕ) (items : List Metadata) (gs : List (String × ℕ))
      → item.generation ≡ int (pos n)
      → 1 ≤ n
      → Bound items gs
      → Bound (item ∷ items) ((item.id, n) ∷ gs)

positive_lem : (v : Value) (n : ℕ) → positive v ≡ some n → (v ≡ int (pos n)) × (1 ≤ n)
positive_lem (int (pos m)) n h = elim (Bool-cases (ltb m 1)) [
  | inl e ↦ absurd (ground (arith, h, e))
  | inr e ↦ (ap (λ k. int (pos k)) (ground (arith, h, e)), ground (arith, h, e))
]
positive_lem v n h = absurd (ground (arith, h))

some_eq : (a b : List (String × ℕ)) → some a ≡ some b → a ≡ b
some_eq a b h = ground (arith, h)

generations_of-Bound :
    (items : List Metadata) (gs : List (String × ℕ))
    → generations_of items ≡ some gs
    → Bound items gs
generations_of-Bound [] gs h = subst (Bound []) (some_eq [] gs h) nothing
generations_of-Bound (item ∷ items) gs h = elim (Option-cases (positive item.generation)) [
  | inl e ↦ absurd (ground (arith, h, e))
  | inr (n, e) ↦ elim (Option-cases (generations_of items)) [
    | inl k ↦ absurd (ground (arith, h, e, k))
    | inr (rest, k) ↦
        let (p, q) = positive_lem item.generation n e in
        subst (Bound (item ∷ items)) (ground (arith, h, e, k))
          (next item n items rest p q (generations_of-Bound items rest k))
  ]
]

-- If private_generations returns, then every item is connected, or configured where accounts are not
-- meant, and the generations are those of the items in their order, each an integer of at least 1
-- under the identifier of its item.
pub private_generations-Bound :
    (metadata : List Metadata) (connected : Bool) (gs : List (String × ℕ))
    → private_generations metadata connected ≡ ok gs
    → (all (λ item. if connected then is_connected item else is_configured item) metadata ≡ true)
      × Bound metadata gs
unfolding private_generations
private_generations-Bound metadata connected gs h =
    elim (Bool-cases
      (all (λ item. if connected then is_connected item else is_configured item) metadata)) [
        | inr e ↦ absurd (ground (arith, h, e))
        | inl e ↦ elim (Option-cases (generations_of metadata)) [
          | inl k ↦ absurd (ground (arith, h, e, k))
          | inr (found, k) ↦ (
            e,
            subst (Bound metadata) (ground (arith, h, e, k))
                (generations_of-Bound metadata found k),
          )
        ]
      ]
