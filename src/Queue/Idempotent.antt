-- ===== src/Queue/Idempotent.antt =====
-- `enqueue` of src/prooflens/queue/queue.py is idempotent in a tenant's event: at once, and after
-- whatever the worker does to the job in between.
use prooflens.Base.{
  ℕ, String, ◌≡◌, refl, sym, ap, ◌∙◌, subst, inl, inr, Bool, true, false, ◌&&◌, List, [], ◌∷◌, ◌++◌,
  some, none, arith, map, find, any, In, In-append_left, In-append_right, In-any, any-In,
  In-map_intro, Option-cases, find-eq-none, find-eq-some, str_eq_refl, str_eq, ◌==◌, if◌then◌else◌,
}
use prooflens.Queue.Jobs.{
  Job, Settings, same_event, new_job, enqueue, claim_batch, complete, fail, on_job, claim_if,
  selected, has_id,
}
use prooflens.Queue.Kept.{event_of, fail-keeps, complete-keeps, claim-keeps}
use prooflens.Queue.Sound.{Step, enqueues, claims, completes, fails}

false_ne : false ≡ true → ⊥
false_ne e = cc

module _ {P : Type 0} where
  -- Some job of the table is for this event.
  abbrev pub has_event : String → String → List (Job P) → Bool
  has_event t e table = any (same_event t e) table

  find_append :
      (p : Job P → Bool) (xs : List (Job P)) (x : Job P)
      → find p xs ≡ none
      → p x ≡ true
      → find p (xs ++ x ∷ []) ≡ some x
  find_append p [] x h e = rw e
  find_append p (y ∷ ys) x h e = ground (arith, find_append p ys x)

  same_event-new :
      (cfg : Settings) (i now : ℕ) (t e : String) (p : P)
      → same_event t e (new_job cfg i now t e p) ≡ true
  same_event-new cfg i now t e p = ground (arith, str_eq_refl t, str_eq_refl e)

  enqueue-old :
      (cfg : Settings) (i now : ℕ) (t e : String) (p : P) (table : List (Job P)) (job : Job P)
      → find (same_event t e) table ≡ some job
      → enqueue cfg i now t e p table ≡ (job, table)
  unfolding enqueue
  enqueue-old cfg i now t e p table job f = rw (f, enqueue)

  pub enqueue-new :
      (cfg : Settings) (i now : ℕ) (t e : String) (p : P) (table : List (Job P))
      → find (same_event t e) table ≡ none
      → enqueue cfg i now t e p table
        ≡ (new_job cfg i now t e p, table ++ new_job cfg i now t e p ∷ [])
  unfolding enqueue
  enqueue-new cfg i now t e p table f = rw (f, enqueue)

  -- Enqueuing an event again, with any payload, returns the same job and changes nothing. The job
  -- is in the table and is for that event, and the jobs that were in the table are still there.
  pub enqueue-twice :
      (cfg : Settings) (i now : ℕ) (t e : String) (p : P) (table : List (Job P)) (i' now' : ℕ)
      (p' : P)
      → let (job, after) = enqueue cfg i now t e p table in
        (enqueue cfg i' now' t e p' after ≡ (job, after))
        × In job after
        × (same_event t e job ≡ true)
        × ((old : Job P) → In old table → In old after)
  enqueue-twice cfg i now t e p table i' now' p' =
      elim (Option-cases (find (same_event t e) table)) [
        | inr (job, f) ↦ rw (enqueue-old cfg i now t e p table job f) (
          enqueue-old cfg i' now' t e p' table job f,
          (find-eq-some (same_event t e) table job f).0,
          (find-eq-some (same_event t e) table job f).1,
          λ old m. m,
        )
        | inl f ↦
            let job = new_job cfg i now t e p in
            let same = same_event-new cfg i now t e p in
            rw (enqueue-new cfg i now t e p table f) (
              enqueue-old cfg i' now' t e p' (table ++ job ∷ []) job
                  (find_append (same_event t e) table job f same),
              In-append_right job table (job ∷ []) (inl refl),
              same,
              λ old m. In-append_left old table (job ∷ []) m,
            )
      ]

  same_event_of :
      (t e : String) (j k : Job P)
      → event_of k ≡ event_of j
      → same_event t e j ≡ true
      → same_event t e k ≡ true
  same_event_of t e j k h s =
      subst (λ (v : String × String). (str_eq v.0 t && str_eq v.1 e) ≡ true) (sym h) s

  map-has_event :
      (t e : String) (f : Job P → Job P) (table : List (Job P))
      → ((j : Job P) → event_of (f j) ≡ event_of j)
      → has_event t e table ≡ true
      → has_event t e (map f table) ≡ true
  map-has_event t e f table k h =
      let (j, i, s) = any-In (same_event t e) table h in
      In-any (same_event t e) (f j) (map f table) (In-map_intro f j table i)
        (same_event_of t e j (f j) (k j) s)

  claim_if-keeps : (b : Bool) (now : ℕ) (j : Job P) → event_of (claim_if b now j) ≡ event_of j
  unfolding claim_if
  claim_if-keeps true now j = (claim-keeps now j).1
  claim_if-keeps false now j = refl

  if_keeps :
      (b : Bool) (k j : Job P)
      → event_of k ≡ event_of j
      → event_of (if b then k else j) ≡ event_of j
  if_keeps true k j h = h
  if_keeps false k j h = refl

  Step-has_event :
      (cfg : Settings) (draw : ℕ → ℕ) (t e : String) (table after : List (Job P))
      → Step cfg draw table after
      → has_event t e table ≡ true
      → has_event t e after ≡ true
  Step-has_event cfg draw t e table after (enqueues i now t' e' p fresh) h =
      let (j, m, s) = any-In (same_event t e) table h in
      In-any (same_event t e) j after ((enqueue-twice cfg i now t' e' p table i now p).3 j m) s
  Step-has_event cfg draw t e table after (claims locked now limit) h =
      unfold claim_batch in
      map-has_event t e _ table
        (λ j. claim_if-keeps (has_id j.id (selected locked now limit table)) now j) h
  Step-has_event cfg draw t e table after (completes i) h =
      unfold on_job in
      map-has_event t e _ table (λ j. if_keeps (j.id == i) (complete j) j (complete-keeps j).1) h
  Step-has_event cfg draw t e table after (fails i now err) h =
      unfold on_job in
      map-has_event t e _ table
        (λ j. if_keeps (j.id == i) (fail cfg draw now err j) j (fail-keeps cfg draw now err j).1) h

  -- Any number of operations
  pub data Steps (cfg : Settings) (draw : ℕ → ℕ) : List (Job P) → List (Job P) → Type 0 where
    stay : {table : List (Job P)} → Steps cfg draw table table
    step :
        {table middle after : List (Job P)}
        → Steps cfg draw table middle
        → Step cfg draw middle after
        → Steps cfg draw table after

  pub Steps-has_event :
      (cfg : Settings) (draw : ℕ → ℕ) (t e : String) (table after : List (Job P))
      → Steps cfg draw table after
      → has_event t e table ≡ true
      → has_event t e after ≡ true
  Steps-has_event cfg draw t e table after stay h = h
  Steps-has_event cfg draw t e table after (step {middle = middle} s one) h =
      Step-has_event cfg draw t e middle after one (Steps-has_event cfg draw t e table middle s h)

  pub find-known :
      (t e : String) (table : List (Job P))
      → has_event t e table ≡ true
      → (job : Job P) × (find (same_event t e) table ≡ some job)
  find-known t e table h = elim (Option-cases (find (same_event t e) table)) [
    | inr found ↦ found
    | inl f ↦
        let (j, m, s) = any-In (same_event t e) table h in
        absurd (false_ne (sym (find-eq-none (same_event t e) table j f m) ∙ s))
  ]

  enqueue-known :
      (cfg : Settings) (i now : ℕ) (t e : String) (p : P) (table : List (Job P))
      → has_event t e table ≡ true
      → (enqueue cfg i now t e p table).1 ≡ table
  enqueue-known cfg i now t e p table h =
      let (job, f) = find-known t e table h in
      ap (λ x. x.1) (enqueue-old cfg i now t e p table job f)

  -- Once an event is enqueued, delivering it again never adds a job: whatever operations the queue
  -- has gone through since, also where the job is done or given up, `enqueue` leaves the table.
  pub enqueue-redelivered :
      (cfg : Settings) (draw : ℕ → ℕ) (i now : ℕ) (t e : String) (p : P)
      (table later : List (Job P)) (i' now' : ℕ) (p' : P)
      → Steps cfg draw (enqueue cfg i now t e p table).1 later
      → (enqueue cfg i' now' t e p' later).1 ≡ later
  enqueue-redelivered cfg draw i now t e p table later i' now' p' s =
      let (same, m, k, old) = enqueue-twice cfg i now t e p table i now p in
      enqueue-known cfg i' now' t e p' later
        (Steps-has_event cfg draw t e _ later s (In-any (same_event t e) _ _ m k))
