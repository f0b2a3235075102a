-- ===== src/Chat/Ends.antt =====
-- How code that calls out can end, by the log that it leaves.
use shimpz_drivers.Prelude.{◌≡◌, refl, List, ◌∷◌, Result, ok, err, Bool, true, false}
use shimpz_drivers.Chat.State.{
  ChatError, Event, Env, Outside, Chat, outside, logged, after, reject, lift,
}

module _ {W A : Type 0} where
  abbrev pub Ends :
      (A → List Event → Type 0) → (List Event → Type 0) → Result ChatError A × Env W → Type 0
  Ends Post Bad (ok a, s) = Post a s.log
  Ends Post Bad (err e, s) = Bad s.log

  pub Ends-weaken :
      (Post Other : A → List Event → Type 0) (Bad Worse : List Event → Type 0)
      (p : Result ChatError A × Env W)
      → ((a : A) (l : List Event) → Post a l → Other a l)
      → ((l : List Event) → Bad l → Worse l)
      → Ends Post Bad p
      → Ends Other Worse p
  Ends-weaken Post Other Bad Worse (ok a, s) f g h = f a s.log h
  Ends-weaken Post Other Bad Worse (err e, s) f g h = g s.log h

  pub Ends-outside :
      (Post : A → List Event → Type 0) (Bad : List Event → Type 0) (f : Outside W A) (s : Env W)
      → ((a : A) → Post a s.log)
      → Bad s.log
      → Ends Post Bad (outside f s)
  unfolding outside
  Ends-outside Post Bad f s h bad = settle (f s.world) h bad
    where
      settle :
          (p : Result ChatError A × W)
          → ((a : A) → Post a s.log)
          → Bad s.log
          → Ends Post Bad (p.0, record s { world = p.1 })
      settle (ok a, w) h bad = h a
      settle (err e, w) h bad = bad

  pub Ends-logged :
      (Post : A → List Event → Type 0) (Bad : List Event → Type 0) (e : Event) (f : Outside W A)
      (s : Env W)
      → ((a : A) → Post a (e ∷ s.log))
      → Bad (e ∷ s.log)
      → Ends Post Bad (logged e f s)
  unfolding logged
  Ends-logged Post Bad e f s h bad = settle (f s.world) h bad
    where
      settle :
          (p : Result ChatError A × W)
          → ((a : A) → Post a (e ∷ s.log))
          → Bad (e ∷ s.log)
          → Ends Post Bad (p.0, record { world = p.1; log = e ∷ s.log })
      settle (ok a, w) h bad = h a
      settle (err e, w) h bad = bad

pub Ends-reject :
    {W : Type 0} (Post : Unit {0} → List Event → Type 0) (Bad : List Event → Type 0) (b : Bool)
    (e : ChatError) (s : Env W)
    → (b ≡ false → Post tt s.log)
    → Bad s.log
    → Ends Post Bad (reject b e s)
Ends-reject Post Bad false e s h bad = h refl
Ends-reject Post Bad true e s h bad = bad

pub Ends-lift :
    {W A : Type 0} (Post : A → List Event → Type 0) (Bad : List Event → Type 0)
    (r : Result ChatError A) (s : Env W)
    → ((a : A) → r ≡ ok a → Post a s.log)
    → Bad s.log
    → Ends Post Bad (lift r s)
Ends-lift Post Bad (ok a) s h bad = h a refl
Ends-lift Post Bad (err e) s h bad = bad

pub Ends-bind :
    {W A B : Type 0} (Mid : A → List Event → Type 0) (Post : B → List Event → Type 0)
    (Bad : List Event → Type 0) (p : Result ChatError A × Env W) (f : A → Chat W B)
    → Ends Mid Bad p
    → ((a : A) (s : Env W) → Mid a s.log → Ends Post Bad (f a s))
    → Ends Post Bad (after p f)
unfolding after
Ends-bind Mid Post Bad (ok a, s) f h g = g a s h
Ends-bind Mid Post Bad (err e, s) f h g = h
