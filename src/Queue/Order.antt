-- ===== src/Queue/Order.antt =====
-- The order in which src/prooflens/queue/queue.py claims jobs: the sort by time, and its front.
use prooflens.Base.{
  ℕ, zero, suc, ◌≤◌, ◌≡◌, refl, ◌⊎◌, inl, inr, ◌↔◌, List, [], ◌∷◌, arith, leb, take, length, In,
  All, All-In, All-In_intro, Bool-cases, subst, sym,
}
use prooflens.Queue.Jobs.{Job, insert_by_time, sort_by_time}

le_through : {a b c : ℕ} → a ≤ b → b ≤ c → a ≤ c
le_through p q = omega arith

module _ {P : Type 0} where
  abbrev pub NotAfter : Job P → Job P → Type 0
  NotAfter j k = j.scheduled_at ≤ k.scheduled_at

  abbrev pub IsSorted : List (Job P) → Type 0
  IsSorted [] = Unit
  IsSorted (j ∷ js) = All (NotAfter j) js × IsSorted js

  pub In-insert_by_time :
      (j k : Job P) (js : List (Job P)) → In j (insert_by_time k js) ↔ ((j ≡ k) ⊎ In j js)
  In-insert_by_time j k [] = ground arith
  In-insert_by_time j k (i ∷ js) = ground (arith, In-insert_by_time j k js)

  insert_by_time-IsSorted :
      (k : Job P) (js : List (Job P)) → IsSorted js → IsSorted (insert_by_time k js)
  insert_by_time-IsSorted k [] s = (tt, tt)
  insert_by_time-IsSorted k (i ∷ js) s = elim (Bool-cases (leb k.scheduled_at i.scheduled_at)) [
    | inl e ↦ rw e (
      (
        ground arith,
        All-In_intro (NotAfter k) js
            (λ m q. le_through (ground arith) (All-In (NotAfter i) m js s.0 q)),
      ),
      s,
    )
    | inr e ↦ rw e (
      All-In_intro (NotAfter i) (insert_by_time k js) (λ m q.
          elim ((In-insert_by_time m k js).0 q) [
            | inl same ↦ subst (NotAfter i) (sym same) (ground arith)
            | inr r ↦ All-In (NotAfter i) m js s.0 r
          ]),
      insert_by_time-IsSorted k js s.1,
    )
  ]

  pub In-sort_by_time : (j : Job P) (js : List (Job P)) → In j (sort_by_time js) ↔ In j js
  unfolding sort_by_time
  In-sort_by_time j [] = ground arith
  In-sort_by_time j (k ∷ js) =
      ground (arith, In-insert_by_time j k (sort_by_time js), In-sort_by_time j js)

  pub sort_by_time-IsSorted : (js : List (Job P)) → IsSorted (sort_by_time js)
  unfolding sort_by_time
  sort_by_time-IsSorted [] = tt
  sort_by_time-IsSorted (k ∷ js) =
      insert_by_time-IsSorted k (sort_by_time js) (sort_by_time-IsSorted js)

  -- What the front of a sorted list leaves out comes after all of it, and the front is full.
  pub take-rest :
      (j : Job P) (n : ℕ) (js : List (Job P))
      → IsSorted js
      → In j js
      → In j (take n js)
        ⊎ ((length (take n js) ≡ n) × ((k : Job P) → In k (take n js) → NotAfter k j))
  take-rest j zero js s i = inr (refl, λ k m. absurd m)
  take-rest j (suc n) [] s i = absurd i
  take-rest j (suc n) (k ∷ js) s (inl e) = inl (inl e)
  take-rest j (suc n) (k ∷ js) s (inr i) = elim (take-rest j n js s.1 i) [
    | inl m ↦ inl (inr m)
    | inr (l, b) ↦ inr (
      omega (arith, l),
      λ h m. elim m [
        | inl e ↦ subst (λ x. NotAfter x j) (sym e) (All-In (NotAfter k) j js s.0 i)
        | inr r ↦ b h r
      ],
    )
  ]
