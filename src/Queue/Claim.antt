-- ===== src/Queue/Claim.antt =====
-- `claim_batch` of src/prooflens/queue/queue.py: which jobs a worker gets, and what is left of the
-- table.
use prooflens.Base.{
  ℕ, ◌+◌, ◌↔◌, some, ◌≤◌, ◌≡◌, refl, sym, ap, ◌∙◌, subst, ◌≢◌, ◌⊎◌, inl, inr, Bool, true, false,
  List, [], ◌∷◌, arith, map, filter, count, length, In, All, ◌==◌, In-map, In-map_intro,
  IsDistinctOn, IsDistinctOn-eq, In-filter, In-filter_intro, any-In, In-any, In-take,
  length-take-le, length-filter, length-map, count-le_add, Bool-cases, ==_iff,
}
use prooflens.Queue.Jobs.{
  is_waiting, in_progress, Job, is_due, sort_by_time, selected, has_id, claim, claim_if,
  claim_batch,
}
use prooflens.Queue.Order.{In-sort_by_time, sort_by_time-IsSorted, take-rest}

true_ne : true ≢ false
true_ne e = cc

module _ {P : Type 0} where
  -- No two jobs of the table have the same id.
  abbrev pub IsDistinct : List (Job P) → Type 0
  IsDistinct js = IsDistinctOn (λ j. j.id) js

  count_absent :
      (i : ℕ) (js : List (Job P)) → All (λ k. i ≢ k.id) js → count (λ j. j.id == i) js ≡ 0
  count_absent i [] a = refl
  count_absent i (j ∷ js) a = ground (arith, count_absent i js a.1, a.0)

  count_id : (i : ℕ) (js : List (Job P)) → IsDistinct js → count (λ j. j.id == i) js ≤ 1
  count_id i [] d = omega arith
  count_id i (j ∷ js) d = elim (Bool-cases (j.id == i)) [
    | inl e ↦ rw e (
        omega (
          arith,
          count_absent i js (subst (λ x. All (λ k. x ≢ k.id) js) ((==_iff j.id i).0 e) d.0),
        ))
    | inr e ↦ rw e (count_id i js d.1)
  ]

  count-false : (js : List (Job P)) → count (λ j. false) js ≡ 0
  count-false [] = refl
  count-false (j ∷ js) = count-false js

  -- The ids of some rows stand on at most that many jobs.
  count-has_id :
      (rows js : List (Job P)) → IsDistinct js → count (λ j. has_id j.id rows) js ≤ length rows
  unfolding has_id
  count-has_id [] js d = omega (arith, count-false js)
  count-has_id (r ∷ rows) js d = omega (
    arith,
    count-le_add (λ j. has_id j.id (r ∷ rows)) (λ j. j.id == r.id) (λ j. has_id j.id rows) js
        (λ a h. ground arith),
    count_id r.id js d,
    count-has_id rows js d,
  )

  -- The job waits, its time has come, and no other worker holds it.
  abbrev pub IsClaimable : (ℕ → Bool) → ℕ → Job P → Type 0
  IsClaimable locked now j =
      (is_waiting j.status ≡ true) × (j.scheduled_at ≤ now) × (locked j.id ≡ false)

  -- The job as its new holder has it
  abbrev pub IsClaimed : ℕ → Job P → Job P → Type 0
  IsClaimed now old j =
      (j.id ≡ old.id)
      × (j.status ≡ in_progress)
      × (j.locked_at ≡ some now)
      × (j.attempts ≡ old.attempts + 1)

  is_due_iff :
      (locked : ℕ → Bool) (now : ℕ) (j : Job P)
      → (is_due locked now j ≡ true) ↔ IsClaimable locked now j
  is_due_iff locked now j = ground arith

  claim-IsClaimed : (now : ℕ) (j : Job P) → IsClaimed now j (claim now j)
  unfolding claim
  claim-IsClaimed now j = (refl, refl, refl, refl)

  module _ (locked : ℕ → Bool) (now limit : ℕ) (table : List (Job P)) (d : IsDistinct table) where
    abbrev pub rows : List (Job P)
    rows = selected locked now limit table

    -- A selected row is a job of the table that is due.
    pub selected-due : (j : Job P) → In j rows → In j table × (is_due locked now j ≡ true)
    unfolding selected
    selected-due j i =
        In-filter (is_due locked now) j table
          ((In-sort_by_time j (filter (is_due locked now) table)).0 (In-take j limit _ i))

    selected-few : length rows ≤ limit
    unfolding selected
    selected-few = length-take-le limit (sort_by_time (filter (is_due locked now) table))

    -- A job that is due and not selected comes after a full selection.
    selected-rest :
        (j : Job P)
        → In j table
        → is_due locked now j ≡ true
        → In j rows
          ⊎ ((length rows ≡ limit) × ((r : Job P) → In r rows → r.scheduled_at ≤ j.scheduled_at))
    unfolding selected
    selected-rest j i h =
        let due = filter (is_due locked now) table in
        take-rest j limit (sort_by_time due) (sort_by_time-IsSorted due)
          ((In-sort_by_time j due).1 (In-filter_intro (is_due locked now) j table i h))

    pub has_id-due : (j : Job P) → In j table → has_id j.id rows ≡ true → In j rows
    unfolding has_id
    has_id-due j i h =
        let (r, k, e) = any-In (λ r. r.id == j.id) rows h in
        subst (λ x. In x rows)
          (IsDistinctOn-eq (λ j. j.id) r j table d (selected-due r k).0 i ((==_iff r.id j.id).0 e))
          k

    has_id-In : (j : Job P) → In j rows → has_id j.id rows ≡ true
    unfolding has_id
    has_id-In j i = In-any (λ r. r.id == j.id) j rows i ((==_iff j.id j.id).1 refl)

    abbrev chosen : Job P → Bool
    chosen j = has_id j.id rows

    abbrev after_claim : Job P → Job P
    after_claim j = claim_if (chosen j) now j

    few : length (map (claim now) (filter chosen table)) ≤ limit
    few = omega (
      arith,
      length-map (claim now) (filter chosen table),
      length-filter chosen table,
      count-has_id rows table d,
      selected-few,
    )

    kept : (old : Job P) → In old table → chosen old ≡ false → In old (map after_claim table)
    unfolding claim_if
    kept old i h =
        subst (λ x. In x (map after_claim table)) (ap (λ b. claim_if b now old) h)
          (In-map_intro after_claim old table i)

    changed :
        (old : Job P)
        → In old table
        → chosen old ≡ true
        → In (claim now old) (map after_claim table)
    unfolding claim_if
    changed old i h =
        subst (λ x. In x (map after_claim table)) (ap (λ b. claim_if b now old) h)
          (In-map_intro after_claim old table i)

    claimed :
        (j : Job P)
        → In j (map (claim now) (filter chosen table))
        → (old : Job P) × In old table
          × (is_due locked now old ≡ true)
          × (j ≡ claim now old)
          × In j (map after_claim table)
    claimed j i =
        let (old, k, e) = In-map (claim now) j (filter chosen table) i in
        let (m, h) = In-filter chosen old table k in
        (
          old,
          m,
          (selected-due old (has_id-due old m h)).1,
          e,
          subst (λ x. In x (map after_claim table)) (sym e) (changed old m h),
        )

    not_due :
        (old : Job P)
        → In old table
        → is_due locked now old ≡ false
        → In old (map after_claim table)
    not_due old i h = elim (Bool-cases (chosen old)) [
      | inl c ↦ absurd (true_ne (sym (selected-due old (has_id-due old i c)).1 ∙ h))
      | inr c ↦ kept old i c
    ]

    passed_over :
        (old : Job P)
        → In old table
        → is_due locked now old ≡ true
        → In (claim now old) (map (claim now) (filter chosen table))
          ⊎ (In old (map after_claim table)
              × (length rows ≡ limit)
              × ((r : Job P) → In r rows → r.scheduled_at ≤ old.scheduled_at))
    passed_over old i h = elim (Bool-cases (chosen old)) [
      | inl c ↦ inl (
          In-map_intro (claim now) old (filter chosen table) (In-filter_intro chosen old table i c))
      | inr c ↦ elim (selected-rest old i h) [
        | inl m ↦ absurd (true_ne (sym (has_id-In old m) ∙ c))
        | inr (l, b) ↦ inr (kept old i c, l, b)
      ]
    ]

    -- Where the table's ids are distinct: at most `limit` jobs are claimed. Each one was a job of
    -- the table that waited, was due and was not locked, and it is now in progress, locked now,
    -- with one attempt more. A job of the table that was not due is left as it was. A job that was
    -- due is claimed, or it is left as it was, `limit` jobs were selected, and none of those was
    -- scheduled after it.
    pub claim_batch-lem :
        let (jobs, after) = claim_batch locked now limit table in
        (length jobs ≤ limit)
        × ((j : Job P)
            → In j jobs
            → (old : Job P) × In old table
              × IsClaimable locked now old
              × IsClaimed now old j
              × In j after)
        × ((old : Job P) → In old table → is_due locked now old ≡ false → In old after)
        × ((old : Job P)
            → In old table
            → IsClaimable locked now old
            → In (claim now old) jobs
              ⊎ (In old after
                  × (length rows ≡ limit)
                  × ((r : Job P) → In r rows → r.scheduled_at ≤ old.scheduled_at)))
    unfolding claim_batch
    claim_batch-lem = (
      few,
      λ j i.
          let (old, m, due, e, k) = claimed j i in
          (
            old,
            m,
            (is_due_iff locked now old).0 due,
            subst (IsClaimed now old) (sym e) (claim-IsClaimed now old),
            k,
          ),
      not_due,
      λ old i c. passed_over old i ((is_due_iff locked now old).1 c),
    )
