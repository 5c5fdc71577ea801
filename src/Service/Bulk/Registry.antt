-- ===== src/Service/Bulk/Registry.antt =====
-- The registry of src/prooflens/service/bulk.py: what `create` evicts, and how large it grows.
use prooflens.Base.{
  String, ℕ, ◌≤◌, suc, ◌≡◌, refl, sym, ap, ◌∙◌, ◌≢◌, inl, inr, Bool, true, false, not, ◌&&◌, List,
  [], ◌∷◌, Option, none, some, length, leb, ◌==◌, In, lookup, insert, erase, nat_eq,
  lookup-insert_self, lookup-insert_ne, lookup-erase_ne, arith, Bool-cases,
}
use prooflens.Service.Bulk.{
  BulkJob, Jobs, is_done, done_entry, new_bulk_job, evict, ids_of, create, max_retained_jobs,
}

-- `create` may evict the job: it is done, and not the new one.
abbrev pub is_evictable : ℕ → ℕ → Jobs → Bool
is_evictable new_id jid jobs = not (jid == new_id) && done_entry (lookup jid jobs)

true_ne : true ≡ false → ⊥
true_ne e = cc

evict-keeps :
    (new_id jid : ℕ) (ids : List ℕ) (jobs : Jobs)
    → is_evictable new_id jid jobs ≡ false
    → lookup jid (evict new_id ids jobs) ≡ lookup jid jobs
unfolding evict
evict-keeps new_id jid [] jobs h = refl
evict-keeps new_id jid (k ∷ ids) jobs h = elim (Bool-cases (leb (length jobs) max_retained_jobs)) [
  | inl small ↦ rw small
  | inr large ↦ elim (Bool-cases (is_evictable new_id k jobs)) [
    | inr stays ↦ rw (large, stays) (evict-keeps new_id jid ids jobs h)
    | inl goes ↦
        let same : lookup jid (erase k jobs) ≡ lookup jid jobs =
          lookup-erase_ne k jid jobs (λ e. differs k e goes) in
        rw (large, goes)
          (evict-keeps new_id jid ids (erase k jobs)
              (ap (λ o. not (jid == new_id) && done_entry o) same ∙ h)
            ∙ same)
  ]
]
  where
    differs : (k : ℕ) → k ≡ jid → is_evictable new_id k jobs ≡ true → ⊥
    differs k e goes = true_ne (sym goes ∙ ap (λ x. is_evictable new_id x jobs) e ∙ h)

and_false : (a b : Bool) → b ≡ false → (a && b) ≡ false
and_false a b h = ground arith

none_ne : {A : Type 0} {a : A} → ◌≡◌ {A = Option A} none (some a) → ⊥
none_ne e = cc

and_right : (a b : Bool) → (a && b) ≡ true → b ≡ true
and_right a b h = ground arith

not_self : (n : ℕ) (b : Bool) → (not (n == n) && b) ≡ false
not_self n b = ground arith

module _ (new_id total : ℕ) (label : Option String) (jobs : Jobs)
    (fresh : lookup new_id jobs ≡ none) where
  abbrev pub grown : Jobs
  grown = insert new_id (new_bulk_job new_id total label) jobs

  lookup-create :
      (jid : ℕ)
      → is_evictable new_id jid grown ≡ false
      → lookup jid (create new_id total label jobs) ≡ lookup jid grown
  unfolding create
  lookup-create jid h = elim (Bool-cases (leb (length grown) max_retained_jobs)) [
    | inl small ↦ rw small
    | inr large ↦ rw large (evict-keeps new_id jid (ids_of grown) grown h)
  ]

  pub ne_new : (jid : ℕ) (j : BulkJob) → lookup jid jobs ≡ some j → new_id ≢ jid
  ne_new jid j h same = none_ne (sym fresh ∙ ap (λ x. lookup x jobs) same ∙ h)

  -- A new job's number is new. Then after `create` the new job is there, queued, and every job that
  -- is not done is there as it was: one that a client may still poll is never evicted.
  pub create-keeps :
      (lookup new_id (create new_id total label jobs) ≡ some (new_bulk_job new_id total label))
      × ((jid : ℕ) (j : BulkJob)
          → lookup jid jobs ≡ some j
          → is_done j ≡ false
          → lookup jid (create new_id total label jobs) ≡ some j)
  create-keeps = (
    lookup-create new_id (not_self new_id _) ∙ lookup-insert_self new_id _ jobs,
    λ jid j h d.
        let here : lookup jid grown ≡ some j =
          lookup-insert_ne new_id jid _ jobs (ne_new jid j h) ∙ h in
        lookup-create jid (
          ap (λ o. not (jid == new_id) && done_entry o) here
          ∙ and_false (not (jid == new_id)) (is_done j) d)
        ∙ here,
  )

erase-le : (k : ℕ) (d : Jobs) → length (erase k d) ≤ length d
erase-le k [] = omega arith
erase-le k ((j, w) ∷ d) = ground (arith, erase-le k d)

length-erase :
    (k : ℕ) (d : Jobs) → done_entry (lookup k d) ≡ true → suc (length (erase k d)) ≡ length d
length-erase k [] h = cc
length-erase k ((j, w) ∷ d) h = elim (Bool-cases (j == k)) [
  | inl e ↦ rw e
  | inr e ↦ rw e (ap suc (length-erase k d (later e h)))
]
  where
    later :
        (j == k) ≡ false
        → done_entry (lookup k ((j, w) ∷ d)) ≡ true
        → done_entry (lookup k d) ≡ true
    later e h = ground arith

pub length-insert :
    (k : ℕ) (v : BulkJob) (d : Jobs) → lookup k d ≡ none → length (insert k v d) ≡ suc (length d)
length-insert k v [] h = refl
length-insert k v ((j, w) ∷ d) h = ground (arith, length-insert k v d)

evict-le : (new_id : ℕ) (ids : List ℕ) (jobs : Jobs) → length (evict new_id ids jobs) ≤ length jobs
unfolding evict
evict-le new_id [] jobs = omega arith
evict-le new_id (k ∷ ids) jobs =
    ground (arith, evict-le new_id ids jobs, evict-le new_id ids (erase k jobs), erase-le k jobs)

-- One job over the cap, and one among the ids that may go: the table is back at the cap.
pub evict-shrinks :
    (new_id k : ℕ) (ids : List ℕ) (jobs : Jobs)
    → In k ids
    → is_evictable new_id k jobs ≡ true
    → length jobs ≤ suc max_retained_jobs
    → length (evict new_id ids jobs) ≤ max_retained_jobs
unfolding evict
evict-shrinks new_id k [] jobs i e h = absurd i
evict-shrinks new_id k (j ∷ ids) jobs i e h =
    elim (Bool-cases (leb (length jobs) max_retained_jobs)) [
      | inl small ↦ rw small (ground arith)
      | inr large ↦ elim (Bool-cases (is_evictable new_id j jobs)) [
        | inl goes ↦
            let one = length-erase j jobs (and_right (not (j == new_id)) _ goes) in
            rw (large, goes) (omega (arith, evict-le new_id ids (erase j jobs), one, h))
        | inr stays ↦ elim i [
          | inl same ↦ absurd (true_ne (sym e ∙ ap (λ x. is_evictable new_id x jobs) same ∙ stays))
          | inr later ↦ rw (large, stays) (evict-shrinks new_id k ids jobs later e h)
        ]
      ]
    ]
