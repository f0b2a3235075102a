-- ===== src/Grants/Effects.antt =====
-- What the methods of team/assistant_human/approval_grants.py make durable.
use shimpz_drivers.Prelude.{
  ℕ, ◌+◌, ◌≤◌, ◌≡◌, ◌↔◌, refl, sym, ap, ◌∙◌, subst, subst₂, arith, Bool, true, false, ◌||◌, Option,
  none, some, List, [], ◌∷◌, ◌++◌, Result, ok, err, if◌then◌else◌, ltb, eq_nat, eq_string, length,
  length-append, str_iff, nat_eq_iff, Bool-cases, Result-cases, inl, inr,
}
use shimpz_drivers.Sql.{Connection, reject, query, execute, transact}
use shimpz_drivers.Sql.Durable.{
  Runs, Runs-pure, Runs-query, Runs-execute, Runs-reject, Runs-bind, Runs-weaken,
}
use shimpz_drivers.Sql.Transaction.{Settled, transact-Settled}
use shimpz_drivers.Grants.Grant.{
  GrantError, closed, capacity_reached, not_stored, Grant, same_grant,
}
use shimpz_drivers.Grants.Rows.{has_row, translate, count_missing, insert, insert_all, grant_block}
use shimpz_drivers.Grants.Canonical.{RawGrant, canonical_of}
use shimpz_drivers.Grants.Store.{Store, guarded, grant_many}

pub same_grant_iff : (a b : Grant) → (same_grant a b ≡ true) ↔ (a ≡ b)
unfolding same_grant
same_grant_iff a b = ground (
  arith,
  str_iff a.team_id b.team_id,
  str_iff a.assistant_id b.assistant_id,
  str_iff a.power_id b.power_id,
  str_iff a.image b.image,
  nat_eq_iff a.ordinal b.ordinal,
)

has_row-append :
    (g : Grant) (rows more : List Grant)
    → has_row g (rows ++ more) ≡ (has_row g rows || has_row g more)
unfolding has_row
has_row-append g [] more = refl
has_row-append g (r ∷ rows) more = ground (arith, has_row-append g rows more)

-- How many of the grants have no row in the table, and the table after they are inserted.
abbrev missing : List Grant → List Grant → ℕ
missing rows [] = 0
missing rows (g ∷ gs) = (if has_row g rows then 0 else 1) + missing rows gs

abbrev inserted : List Grant → List Grant → List Grant
inserted rows [] = rows
inserted rows (g ∷ gs) = inserted (if has_row g rows then rows else rows ++ (g ∷ [])) gs

count_missing-Runs :
    (gs : List Grant) → Runs (λ t n t'. (n ≡ missing t gs) × (t' ≡ t)) (count_missing gs)
unfolding count_missing
count_missing-Runs [] = Runs-pure 0
count_missing-Runs (g ∷ gs) =
    Runs-weaken
      (λ t t' n (present, u, (p, q), (more, v, (r, z), (w, x))).
        let counted : more ≡ missing t gs = r ∙ ap (λ l. missing l gs) q in
        (ground (arith, p, counted, w), x ∙ z ∙ q))
      (Runs-bind (query (has_row g)) _ (Runs-query (has_row g)) (λ present.
        Runs-bind (count_missing gs) _ (count_missing-Runs gs)
          (λ more. Runs-pure ((if present then 0 else 1) + more))))

insert_lem :
    (g : Grant) (t u : List Grant) (n : ℕ)
    → insert g t ≡ some (u, n)
    → u ≡ (if has_row g t then t else t ++ (g ∷ []))
insert_lem g t u n h = elim (Bool-cases (has_row g t)) [
  | inl e ↦ ground (arith, h, e)
  | inr e ↦ ground (arith, h, e)
]

insert_all-Runs : (gs : List Grant) → Runs (λ t n t'. t' ≡ inserted t gs) (insert_all gs)
unfolding insert_all
insert_all-Runs [] = Runs-weaken (λ t t' n (p, q). q) (Runs-pure tt)
insert_all-Runs (g ∷ gs) =
    Runs-weaken (λ t t' n (a, u, (k, p), q). q ∙ ap (λ l. inserted l gs) (insert_lem g t u k p))
      (Runs-bind (execute (insert g)) _ (Runs-execute (insert g)) (λ _. insert_all-Runs gs))

-- The rows after an insertion are those before and the grants, and as many more as were missing at most.
inserted_rows :
    (gs rows : List Grant) (g : Grant)
    → has_row g (inserted rows gs) ≡ (has_row g rows || has_row g gs)
unfolding has_row
inserted_rows [] rows g = ground arith
inserted_rows (x ∷ gs) rows g = elim (Bool-cases (has_row x rows)) [
  | inl e ↦ rw e (ground (arith, inserted_rows gs rows g, e, same_grant_iff x g))
  | inr e ↦
      rw e (ground (arith, inserted_rows gs (rows ++ (x ∷ [])) g, has_row-append g rows (x ∷ [])))
]

missing_more : (gs rows more : List Grant) → missing (rows ++ more) gs ≤ missing rows gs
missing_more [] rows more = omega arith
missing_more (g ∷ gs) rows more =
    ground (arith, missing_more gs rows more, has_row-append g rows more)

length-inserted-le :
    (gs rows : List Grant) → length (inserted rows gs) ≤ length rows + missing rows gs
length-inserted-le [] rows = omega arith
length-inserted-le (x ∷ gs) rows = elim (Bool-cases (has_row x rows)) [
  | inl e ↦ rw e (omega (arith, length-inserted-le gs rows))
  | inr e ↦ rw e (
      omega (
        arith,
        length-inserted-le gs (rows ++ (x ∷ [])),
        missing_more gs rows (x ∷ []),
        length-append rows (x ∷ []),
      ))
]

-- The table after a batch of grants.
pub record Granted (max_grants : ℕ) (canonical before after : List Grant) : Type 0 where
  pub fits : length after ≤ max_grants
  pub rows : (g : Grant) → has_row g after ≡ (has_row g before || has_row g canonical)

within : (max_grants n a b : ℕ) → n ≤ a + b → ltb max_grants (a + b) ≡ false → n ≤ max_grants
within max_grants n a b h k = ground (arith, h, k)

grant_block-Runs :
    (max_grants : ℕ) (canonical : List Grant)
    → Runs (λ t n t'. Granted max_grants canonical t t') (grant_block max_grants canonical)
unfolding grant_block
grant_block-Runs max_grants canonical =
    Runs-weaken
      (λ t t' n (current, u, (p, q), (absent, v, (r, z), (a, w, (fits, x), y))).
        granted t u v w t' current absent p q r z fits x y)
      (Runs-bind (query length) _ (Runs-query length) (λ current.
        Runs-bind (count_missing canonical) _ (count_missing-Runs canonical) (λ absent.
          Runs-bind (reject (ltb max_grants (current + absent)) capacity_reached) _
            (Runs-reject (ltb max_grants (current + absent)) capacity_reached)
            (λ _. insert_all-Runs canonical))))
  where
    granted :
        (t u v w t' : List Grant) (current absent : ℕ)
        → current ≡ length t
        → u ≡ t
        → absent ≡ missing u canonical
        → v ≡ u
        → ltb max_grants (current + absent) ≡ false
        → w ≡ v
        → t' ≡ inserted w canonical
        → Granted max_grants canonical t t'
    granted t u v w t' current absent p q r z fits x y =
        let counted : absent ≡ missing t canonical = r ∙ ap (λ l. missing l canonical) q in
        let written : t' ≡ inserted t canonical = y ∙ ap (λ l. inserted l canonical) (x ∙ z ∙ q) in
        subst (Granted max_grants canonical t) (sym written) (record {
          fits =
              within max_grants (length (inserted t canonical)) (length t) (missing t canonical)
                (length-inserted-le canonical t)
                (subst₂ (λ m n. ltb max_grants (m + n) ≡ false) p counted fits);
          rows = λ g. inserted_rows canonical t g;
        })

-- What a call of grant_many leaves: the batch, or nothing new.
abbrev pub Granting :
    (ℕ → Bool) → List (Option RawGrant) → Store → Result GrantError (Unit {0}) × Store → Type 0
Granting is_space items s (ok _, t) =
    (canonical : List Grant) × (canonical_of is_space items ≡ ok canonical)
    × Granted s.max_grants canonical s.connection.durable t.connection.durable
    × (t.connection.working ≡ none)
    × (t.is_closed ≡ false)
Granting is_space items s (err e, t) = t.connection.durable ≡ s.connection.durable

Settled-Granting :
    (is_space : ℕ → Bool) (items : List (Option RawGrant)) (s : Store) (canonical : List Grant)
    (r : Result GrantError (Unit {0}) × Connection (List Grant))
    → canonical_of is_space items ≡ ok canonical
    → s.is_closed ≡ false
    → Settled (λ t _ t'. Granted s.max_grants canonical t t') s.connection.durable r
    → Granting is_space items s (r.0, record s { connection = r.1 })
Settled-Granting is_space items s canonical (ok _, c) p o h = (canonical, p, h.0, h.1, o)
Settled-Granting is_space items s canonical (err e, c) p o h = h

pub guarded_closed :
    {A : Type 0} (s : Store)
    (block : Connection (List Grant) → Result GrantError A × Connection (List Grant))
    → s.is_closed ≡ true
    → guarded s block ≡ (err closed, s)
unfolding guarded
guarded_closed s block e = rw e refl

pub guarded_open :
    {A : Type 0} (s : Store)
    (block : Connection (List Grant) → Result GrantError A × Connection (List Grant))
    → s.is_closed ≡ false
    → guarded s block ≡ ((block s.connection).0, record s { connection = (block s.connection).1 })
unfolding guarded
guarded_open s block e = ground (arith, e)

-- Whichever statements fail: if grant_many returns, then its grants passed the checks, the durable
-- grants after it are those before it and those of the batch, and at most `max_grants`, no
-- transaction is open, and the store is not closed; if it raises, the durable grants are unchanged.
pub grant_many-Granting :
    (is_space : ℕ → Bool) (items : List (Option RawGrant)) (s : Store)
    → Granting is_space items s (grant_many is_space items s)
unfolding grant_many
grant_many-Granting is_space items s = elim (Result-cases (canonical_of is_space items)) [
  | inl (e, p) ↦ rw (p, grant_many) refl
  | inr (canonical, p) ↦ elim (Bool-cases s.is_closed) [
    | inl e ↦ rw (p, grant_many) (rw (guarded_closed s _ e) refl)
    | inr e ↦
        rw (p, grant_many)
          (rw
            (guarded_open s
              (transact not_stored (translate not_stored) (grant_block s.max_grants canonical)) e)
            (Settled-Granting is_space items s canonical _ p e (
              transact-Settled not_stored (translate not_stored)
                (grant_block-Runs s.max_grants canonical) s.connection)))
  ]
]
