-- ===== src/Prelude/Actions.antt =====
-- Code that acts on a state and returns or raises.
use mathlib.Core.Bool.{Bool, true, false}
use mathlib.Core.Path.{◌≡◌, refl}
use native.Mathlib.Omega.{arith}
use shimpz_drivers.Prelude.Results.{Result, ok, err}

abbrev pub Action : Type 0 → Type 0 → Type 0 → Type 0
Action S E A = S → Result E A × S

module _ {S E : Type 0} where
  abbrev pub pure : {A : Type 0} → A → Action S E A
  pure a s = (ok a, s)

  abbrev pub raise : {A : Type 0} → E → Action S E A
  raise e s = (err e, s)

  -- `if test: raise e`
  abbrev pub refuse : Bool → E → Action S E (Unit {0})
  refuse false e s = (ok tt, s)
  refuse true e s = (err e, s)

  abbrev pub lift : {A : Type 0} → Result E A → Action S E A
  lift r s = (r, s)

  -- What follows on a result that is given.
  unfoldable pub after : {A B : Type 0} → Result E A × S → (A → Action S E B) → Result E B × S
  after (err e, s) f = (err e, s)
  after (ok a, s) f = f a s

  infixl 5 ◌>>=◌ ◌>>◌
  unfoldable pub ◌>>=◌ : {A B : Type 0} → Action S E A → (A → Action S E B) → Action S E B
  unfolding after
  ◌>>=◌ m f s = after (m s) f

  abbrev pub ◌>>◌ : {A B : Type 0} → Action S E A → Action S E B → Action S E B
  m >> k = m >>= λ _. k

-- `try: ... except e: raise ...`, on what is raised.
abbrev pub reraised : {S D E A : Type 0} → (D → E) → Result D A × S → Result E A × S
reraised f (err e, s) = (err (f e), s)
reraised f (ok a, s) = (ok a, s)

abbrev pub reraise : {S D E A : Type 0} → (D → E) → Action S D A → Action S E A
reraise f m s = reraised f (m s)

after_returns :
    {S E A B : Type 0} (r : Result E A × S) (f : A → Action S E B) (b : B) (t : S)
    → after r f ≡ (ok b, t)
    → (a : A) × (u : S) × (r ≡ (ok a, u)) × (f a u ≡ (ok b, t))
unfolding after
after_returns (ok a, u) f b t h = (a, u, refl, h)
after_returns (err e, u) f b t h = absurd (ground (arith, h))

-- A chain that returns has returned before.
pub bind_returns :
    {S E A B : Type 0} (m : Action S E A) (f : A → Action S E B) (s : S) (b : B) (t : S)
    → (m >>= f) s ≡ (ok b, t)
    → (a : A) × (u : S) × (m s ≡ (ok a, u)) × (f a u ≡ (ok b, t))
unfolding ◌>>=◌
bind_returns m f s b t h = after_returns (m s) f b t h
