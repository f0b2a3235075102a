-- ===== src/Journal/Rows.antt =====
-- How the statements of team/power_journal.py change the rows of one operation.
use shimpz_drivers.Prelude.{
  ℕ, suc, ◌+◌, ◌≤◌, ◌≡◌, ◌≢◌, refl, subst, arith, false, ◌&&◌, Option, none, some, List, [], ◌∷◌,
  ◌++◌, String, ◌==◌, eq_string, eq_nat, inl, inr, Option-cases, str_iff,
}
use shimpz_drivers.Journal.State.{Operation}
use shimpz_drivers.Journal.Tables.{
  OpState, prepared, OpRow, Tables, state_eq, find_op, insert_op, insert_ops, set_matching,
  count_matching, without_ops,
}

module _ (g i : String) where
  -- The operation is recorded, and its record is not `prepared`.
  pub record Armed (t : Tables) : Type 0 where
    pub none_prepared : count_matching g i prepared t.operations ≡ 0
    pub recorded : find_op g i t.operations ≢ none

  pub count-set_le :
      (g' i' : String) (from to : OpState) (column : Option String → Option String)
      (rs : List OpRow)
      → state_eq to prepared ≡ false
      → count_matching g i prepared (set_matching g' i' from to column rs)
        ≤ count_matching g i prepared rs
  unfolding count_matching set_matching
  count-set_le g' i' from to column [] h = omega arith
  count-set_le g' i' from to column (r ∷ rs) h =
      ground (arith, count-set_le g' i' from to column rs h)

  pub count-set_self :
      (to : OpState) (column : Option String → Option String) (rs : List OpRow)
      → state_eq to prepared ≡ false
      → count_matching g i prepared (set_matching g i prepared to column rs) ≡ 0
  unfolding count_matching set_matching
  count-set_self to column [] h = refl
  count-set_self to column (r ∷ rs) h = ground (arith, count-set_self to column rs h)

  pub count-set_other :
      (g' i' : String) (from to : OpState) (column : Option String → Option String)
      (rs : List OpRow)
      → (g' == g && i' == i) ≡ false
      → count_matching g i prepared (set_matching g' i' from to column rs)
        ≡ count_matching g i prepared rs
  unfolding count_matching set_matching
  count-set_other g' i' from to column [] h = refl
  count-set_other g' i' from to column (r ∷ rs) h = ground (
    arith,
    count-set_other g' i' from to column rs h,
    str_iff r.generation g',
    str_iff r.interrupt_id i',
    str_iff r.generation g,
    str_iff r.interrupt_id i,
    str_iff g' g,
    str_iff i' i,
  )

  pub find_op-set :
      (g' i' : String) (from to : OpState) (column : Option String → Option String)
      (rs : List OpRow)
      → find_op g i rs ≢ none
      → find_op g i (set_matching g' i' from to column rs) ≢ none
  unfolding find_op set_matching
  find_op-set g' i' from to column [] h e = absurd (h refl)
  find_op-set g' i' from to column (r ∷ rs) h e =
      ground (arith, find_op-set g' i' from to column rs)

  pub count-append :
      (xs ys : List OpRow)
      → count_matching g i prepared (xs ++ ys)
        ≡ count_matching g i prepared xs + count_matching g i prepared ys
  unfolding count_matching
  count-append [] ys = omega arith
  count-append (x ∷ xs) ys = ground (arith, count-append xs ys)

  pub find_op-append : (xs ys : List OpRow) → find_op g i xs ≢ none → find_op g i (xs ++ ys) ≢ none
  unfolding find_op
  find_op-append [] ys h e = absurd (h refl)
  find_op-append (x ∷ xs) ys h e = ground (arith, find_op-append xs ys)

  pub count-without :
      (g' : String) (rs : List OpRow)
      → (g' == g) ≡ false
      → count_matching g i prepared (without_ops g' rs) ≡ count_matching g i prepared rs
  unfolding count_matching without_ops
  count-without g' [] h = refl
  count-without g' (r ∷ rs) h =
      ground (
        arith,
        count-without g' rs h,
        str_iff r.generation g',
        str_iff r.generation g,
        str_iff g' g,
      )

  pub find_op-without :
      (g' : String) (rs : List OpRow)
      → (g' == g) ≡ false
      → find_op g i (without_ops g' rs) ≡ find_op g i rs
  unfolding find_op without_ops
  find_op-without g' [] h = refl
  find_op-without g' (r ∷ rs) h = ground (
    arith,
    find_op-without g' rs h,
    str_iff r.generation g',
    str_iff r.generation g,
    str_iff g' g,
  )

  -- An insertion refuses the key of a recorded operation, and so prepares another.
  insert_op-Armed :
      (g' : String) (n : ℕ) (o : Operation) (t t' : Tables)
      → insert_op g' n o t ≡ some t'
      → Armed t
      → Armed t'
  unfolding insert_op
  insert_op-Armed g' n o t t' h a =
      let fresh : find_op g' o.interrupt_id t.operations ≡ none = ground arith in
      let other : (g' == g && o.interrupt_id == i) ≡ false =
        ground (arith, fresh, a.recorded, str_iff g' g, str_iff o.interrupt_id i) in
      let appended : t'.operations ≡ t.operations ++ row ∷ [] = ground arith in
      record {
        none_prepared =
            rw appended
              (rw count-append (unfold count_matching in ground (arith, a.none_prepared, other)));
        recorded = rw appended (find_op-append t.operations (row ∷ []) a.recorded);
      }
    where
      row : OpRow
      row = record {
        generation = g';
        ordinal = n;
        interrupt_id = o.interrupt_id;
        fingerprint = o.fingerprint;
        state = prepared;
        result = none;
      }

  pub insert_ops-Armed :
      (g' : String) (n : ℕ) (os : List Operation) (t t' : Tables) {k : ℕ}
      → insert_ops g' n os t ≡ some (t', k)
      → Armed t
      → Armed t'
  unfolding insert_ops
  insert_ops-Armed g' n [] t t' h a = subst Armed (ground arith) a
  insert_ops-Armed g' n (o ∷ os) t t' {k} h a = elim (Option-cases (insert_op g' n o t)) [
    | inl e ↦ absurd (ground arith)
    | inr (t1, e) ↦
        insert_ops-Armed g' (suc n) os t1 t' {k = k} (ground arith)
          (insert_op-Armed g' n o t t1 e a)
  ]
