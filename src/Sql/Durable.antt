-- ===== src/Sql/Durable.antt =====
-- Atomicity: what a transaction changes is what its block did to the tables that it began with, and
-- only if it returns.
use shimpz_drivers.Prelude.{
  ℕ, ◌≡◌, refl, subst, Bool, true, false, Option, none, some, Result, ok, err, arith, inl, inr,
  ◌==◌, ◌/=◌, eq_nat, Option-cases, Bool-cases, ◌∙◌,
}
use shimpz_drivers.Sql.{
  Connection, Raised, sqlite_error, Sql, pure, raise, lift, next, reject, continue, ◌>>=◌, faulty,
  tables, store, query, execute, execute_one, select_changes, relabel,
}

-- How a block that began with `d` durable can end: nothing durable changed, the transaction is open,
-- and if the block returned, its value and its tables are related by `R`.
abbrev pub Ended :
    {T E A : Type 0} → (A → T → Type 0) → T → Result (Raised E) A × Connection T → Type 0
Ended {T = T} R d (ok a, c) = (c.durable ≡ d) × ((t : T) × (c.working ≡ some t) × R a t)
Ended {T = T} R d (err e, c) = (c.durable ≡ d) × ((t : T) × (c.working ≡ some t))

pub record Runs {T E A : Type 0} (R : T → A → T → Type 0) (m : Sql T E A) : Type 0 where
  pub at : (c : Connection T) (t : T) → c.working ≡ some t → Ended (R t) c.durable (m c)

-- The connection after a statement took its entry of `faults`.
pub record Advanced {T : Type 0} (c c' : Connection T) : Type 0 where
  pub durable : c'.durable ≡ c.durable
  pub working : c'.working ≡ c.working
  pub changes : c'.changes ≡ c.changes

pub faulty-Advanced : {T : Type 0} (c : Connection T) → Advanced c (faulty c).1
unfolding faulty
faulty-Advanced c = ground arith

-- How a statement that writes can go.
data Executed {T : Type 0} (E : Type 0) (f : T → Option (T × ℕ)) (c : Connection T) (t : T)
    : Type 0 where
  fails :
      (c' : Connection T)
      → execute {E = E} f c ≡ (err sqlite_error, c')
      → c'.durable ≡ c.durable
      → c'.working ≡ some t
      → Executed E f c t
  writes :
      (c' : Connection T) (t' : T) (n : ℕ)
      → execute {E = E} f c ≡ (ok tt, c')
      → f t ≡ some (t', n)
      → c'.durable ≡ c.durable
      → c'.working ≡ some t'
      → c'.changes ≡ n
      → Executed E f c t

Ended-weaken :
    {T E A : Type 0} {R S : A → T → Type 0} {d d' : T} (p : Result (Raised E) A × Connection T)
    → ((a : A) (t : T) → R a t → S a t)
    → d ≡ d'
    → Ended R d p
    → Ended S d' p
Ended-weaken (ok a, c) sub e (same, (t, at, r)) = (same ∙ e, (t, at, sub a t r))
Ended-weaken (err x, c) sub e (same, (t, at)) = (same ∙ e, (t, at))

module _ {T E A : Type 0} where
  pub Runs-pure : (a : A) → Runs {E = E} (λ (t : T) b t'. (b ≡ a) × (t' ≡ t)) (pure a)
  Runs-pure a = record { at = λ c t h. (refl, (t, h, (refl, refl))) }

  pub Runs-raise : (e : E) → Runs (λ (t : T) (b : A) t'. ⊥) (raise e)
  Runs-raise e = record { at = λ c t h. (refl, (t, h)) }

  pub Runs-lift : (r : Result E A) → Runs (λ (t : T) b t'. (r ≡ ok b) × (t' ≡ t)) (lift r)
  Runs-lift (ok a) = record { at = λ c t h. (refl, (t, h, (refl, refl))) }
  Runs-lift (err e) = record { at = λ c t h. (refl, (t, h)) }

  pub Runs-next : (o : Option A) → Runs {E = E} (λ (t : T) b t'. (o ≡ some b) × (t' ≡ t)) (next o)
  Runs-next (some a) = record { at = λ c t h. (refl, (t, h, (refl, refl))) }
  Runs-next none = record { at = λ c t h. (refl, (t, h)) }

  pub Runs-query : (f : T → A) → Runs {E = E} (λ t b t'. (b ≡ f t) × (t' ≡ t)) (query f)
  unfolding query
  Runs-query f = record {
    at = λ c t h.
        let s = faulty-Advanced c in
        elim (Bool-cases (faulty c).0) [
          | inl e ↦ rw (e, Ended, query) (s.durable, (t, s.working ∙ h))
          | inr e ↦ rw (e, Ended, query) (s.durable, (t, s.working ∙ h, (ground (arith, s), refl)))
        ];
  }

module _ {T E : Type 0} where
  execute-Executed :
      (f : T → Option (T × ℕ)) (c : Connection T) (t : T) → c.working ≡ some t → Executed E f c t
  unfolding execute
  execute-Executed f c t h =
      let s = faulty-Advanced c in
      let seen : tables (faulty c).1 ≡ t = unfold tables in ground (arith, s) in
      elim (Bool-cases (faulty c).0) [
        | inl e ↦ fails (faulty c).1 (ground arith) s.durable (s.working ∙ h)
        | inr e ↦ elim (Option-cases (f t)) [
          | inl bad ↦ fails (faulty c).1 (ground arith) s.durable (s.working ∙ h)
          | inr ((t', n), good) ↦
              writes (store t' (record (faulty c).1 { changes = n })) t' n (ground arith) good
                (unfold store in ground (arith, s)) (unfold store in ground (arith, s))
                (unfold store in ground (arith, s))
        ]
      ]

  pub Runs-execute :
      (f : T → Option (T × ℕ)) → Runs {E = E} (λ t b t'. (n : ℕ) × (f t ≡ some (t', n))) (execute f)
  Runs-execute f = record {
    at = λ c t h. elim (execute-Executed f c t h) [
      | fails c' q d w ↦ rw (q, Ended) (d, (t, w))
      | writes c' t' n q good d w _ ↦ rw (q, Ended) (d, (t', w, (n, good)))
    ];
  }

  -- The rest of `execute_one`, once the statement has changed `n` rows.
  counted :
      (e : E) (c : Connection T) (t : T)
      → c.working ≡ some t
      → Ended {E = E}
          (λ b t'. (c.changes ≡ 1) × (t' ≡ t))
          c.durable
          (continue (select_changes c) (λ n. reject (n /= 1) e))
  unfolding select_changes continue
  counted e c t h =
      let s = faulty-Advanced c in
      elim (Bool-cases (faulty c).0) [
        | inl q ↦ rw (q, Ended, continue, select_changes) (s.durable, (t, s.working ∙ h))
        | inr q ↦ elim (Bool-cases ((faulty c).1.changes == 1)) [
          | inl one ↦
              rw (q, Ended, continue, select_changes)
                (rw one (s.durable, (t, s.working ∙ h, (ground (arith, s), refl))))
          | inr other ↦
              rw (q, Ended, continue, select_changes) (rw other (s.durable, (t, s.working ∙ h)))
        ]
      ]

  pub Runs-execute_one :
      (f : T → Option (T × ℕ)) (e : E) → Runs (λ t b t'. f t ≡ some (t', 1)) (execute_one f e)
  unfolding execute_one ◌>>=◌ continue
  Runs-execute_one f e = record {
    at = λ c t h. elim (execute-Executed f c t h) [
      | fails c' q d w ↦ rw (q, Ended, execute_one) (d, (t, w))
      | writes c' t' n q good d w count ↦
          rw (q, execute_one)
            (Ended-weaken {R = λ b x. (c'.changes ≡ 1) × (x ≡ t')} (continue (select_changes c') _)
              (λ b x (one, same). ground arith) d (counted e c' t' w))
    ];
  }

  pub Runs-reject :
      (test : Bool) (e : E) → Runs (λ (t : T) b t'. (test ≡ false) × (t' ≡ t)) (reject test e)
  Runs-reject true e = record { at = λ c t h. (refl, (t, h)) }
  Runs-reject false e = record { at = λ c t h. (refl, (t, h, (refl, refl))) }

module _ {T E A B : Type 0} where
  pub Runs-bind :
      {R : T → A → T → Type 0} {S : A → T → B → T → Type 0} (m : Sql T E A) (f : A → Sql T E B)
      → Runs R m
      → ((a : A) → Runs (S a) (f a))
      → Runs (λ t b t''. (a : A) × (t' : T) × R t a t' × S a t' b t'') (m >>= f)
  unfolding ◌>>=◌
  Runs-bind {R} {S} m f rm rf = record { at = λ c t h. go c t (m c) (rm.at c t h) }
    where
      finish :
          (t t' : T) (a : A) (d : T)
          → R t a t'
          → (q : Result (Raised E) B × Connection T) → Ended (S a t') d q
          → Ended (λ b t''. (a : A) × (t' : T) × R t a t' × S a t' b t'') d q
      finish t t' a d r (ok b, c) (same, (t'', at, s)) = (same, (t'', at, (a, t', r, s)))
      finish t t' a d r (err e, c) (same, (t'', at)) = (same, (t'', at))

      go :
          (c : Connection T) (t : T) (p : Result (Raised E) A × Connection T)
          → Ended (R t) c.durable p
          → Ended (λ b t''. (a : A) × (t' : T) × R t a t' × S a t' b t'') c.durable (continue p f)
      go c t (ok a, c') (same, (t', at, r)) =
          finish t t' a c.durable r (f a c')
            (subst (λ d. Ended (S a t') d (f a c')) same ((rf a).at c' t' at))
      go c t (err e, c') (same, (t', at)) = (same, (t', at))

module _ {T E A : Type 0} where
  pub Runs-weaken :
      {R S : T → A → T → Type 0} {m : Sql T E A}
      → ((t t' : T) (a : A) → R t a t' → S t a t')
      → Runs R m
      → Runs S m
  Runs-weaken {R} {S} {m} sub r = record { at = λ c t h. go t c.durable (m c) (r.at c t h) }
    where
      go : (t d : T) (q : Result (Raised E) A × Connection T) → Ended (R t) d q → Ended (S t) d q
      go t d (ok a, c) (same, (t', at, x)) = (same, (t', at, sub t t' a x))
      go t d (err e, c) (same, (t', at)) = (same, (t', at))

module _ {T E A : Type 0} where
  pub Runs-relabel :
      {R : T → A → T → Type 0} (e : E) (m : Sql T E A) → Runs R m → Runs R (λ c. relabel e (m c))
  Runs-relabel {R} e m r = record { at = λ c t h. go t c.durable (m c) (r.at c t h) }
    where
      go :
          (t d : T) (p : Result (Raised E) A × Connection T)
          → Ended (R t) d p
          → Ended (R t) d (relabel e p)
      go t d (ok a, c) x = unfold relabel in x
      go t d (err _, c) x = unfold relabel in x
