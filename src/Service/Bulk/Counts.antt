-- ===== src/Service/Bulk/Counts.antt =====
-- Keys and counts of the registry of src/prooflens/service/bulk.py.
use prooflens.Base.{
  ℕ, ◌≤◌, ◌<◌, suc, ◌≡◌, refl, sym, ap, ◌∙◌, ◌≢◌, inl, inr, Bool, true, false, not, List, [], ◌∷◌,
  some, length, leb, ◌==◌, ==_iff, In, All, All-In, IsDistinctOn, lookup, insert, erase, nat_eq,
  arith, if◌then◌else◌, Bool-cases,
}
use prooflens.Service.Bulk.{BulkJob, Jobs, is_done, evict, ids_of, active_count, max_retained_jobs}
use prooflens.Service.Bulk.Registry.{is_evictable}

-- No number stands for two jobs.
abbrev pub HasKeys : Jobs → Type 0
HasKeys jobs = IsDistinctOn (λ (e : ℕ × BulkJob). e.0) jobs

module _ (P : ℕ → Type 0) where
  keys-insert :
      (k : ℕ) (v : BulkJob) (d : Jobs)
      → P k
      → All (λ (e : ℕ × BulkJob). P e.0) d
      → All (λ (e : ℕ × BulkJob). P e.0) (insert k v d)
  keys-insert k v [] p a = (p, tt)
  keys-insert k v ((j, w) ∷ d) p a = elim (Bool-cases (j == k)) [
    | inl e ↦ rw e a
    | inr e ↦ rw e (a.0, keys-insert k v d p a.1)
  ]

  keys-erase :
      (k : ℕ) (d : Jobs)
      → All (λ (e : ℕ × BulkJob). P e.0) d
      → All (λ (e : ℕ × BulkJob). P e.0) (erase k d)
  keys-erase k [] a = tt
  keys-erase k ((j, w) ∷ d) a = elim (Bool-cases (j == k)) [
    | inl e ↦ rw e a.1
    | inr e ↦ rw e (a.0, keys-erase k d a.1)
  ]

pub insert-HasKeys : (k : ℕ) (v : BulkJob) (d : Jobs) → HasKeys d → HasKeys (insert k v d)
insert-HasKeys k v [] h = (tt, tt)
insert-HasKeys k v ((j, w) ∷ d) h = elim (Bool-cases (j == k)) [
  | inl e ↦ rw e h
  | inr e ↦ rw e (
    keys-insert (λ x. j ≢ x) k v d (λ same. ground (arith, e, same)) h.0,
    insert-HasKeys k v d h.1,
  )
]

erase-HasKeys : (k : ℕ) (d : Jobs) → HasKeys d → HasKeys (erase k d)
erase-HasKeys k [] h = tt
erase-HasKeys k ((j, w) ∷ d) h = elim (Bool-cases (j == k)) [
  | inl e ↦ rw e h.1
  | inr e ↦ rw e (keys-erase (λ x. j ≢ x) k d h.0, erase-HasKeys k d h.1)
]

active-erase : (k : ℕ) (d : Jobs) → active_count (erase k d) ≤ active_count d
unfolding active_count
active-erase k [] = omega arith
active-erase k ((j, w) ∷ d) = ground (arith, active-erase k d)

pub active-insert :
    (k : ℕ) (v : BulkJob) (d : Jobs) → active_count (insert k v d) ≤ suc (active_count d)
unfolding active_count
active-insert k v [] = ground arith
active-insert k v ((j, w) ∷ d) = ground (arith, active-insert k v d)

moved_count :
    (x y : Bool) (n : ℕ)
    → (x ≡ true → y ≡ true)
    → (if not y then suc n else n) ≤ (if not x then suc n else n)
moved_count x y n h = ground arith

same_head :
    (x : Bool) (m n : ℕ) → m ≤ n → (if not x then suc m else m) ≤ (if not x then suc n else n)
same_head x m n h = ground arith

less_tail : (x : Bool) (m n : ℕ) → x ≡ false → (if not x then suc m else m) < suc n → m < n
less_tail x m n f h = ground arith

ne_test : (a b : ℕ) → a ≢ b → (a == b) ≡ false
ne_test a b h = ground arith

-- A job of the table that moves on, and stays done where it was
pub active-advance :
    (k : ℕ) (v w : BulkJob) (d : Jobs)
    → lookup k d ≡ some w
    → (is_done w ≡ true → is_done v ≡ true)
    → active_count (insert k v d) ≤ active_count d
unfolding active_count
active-advance k v w [] h s = cc
active-advance k v w ((j, u) ∷ d) h s = elim (Bool-cases (j == k)) [
  | inl e ↦ rw e (
      moved_count (is_done u) (is_done v) (active_count d)
        (λ t. s (ap is_done (sym (first e h)) ∙ t)))
  | inr e ↦ rw e (
      same_head (is_done u) (active_count (insert k v d)) (active_count d)
        (active-advance k v w d (rest e h) s))
]
  where
    first : (j == k) ≡ true → lookup k ((j, u) ∷ d) ≡ some w → u ≡ w
    first e h = ground arith

    rest : (j == k) ≡ false → lookup k ((j, u) ∷ d) ≡ some w → lookup k d ≡ some w
    rest e h = ground arith

pub evict-HasKeys :
    (new_id : ℕ) (ids : List ℕ) (d : Jobs) → HasKeys d → HasKeys (evict new_id ids d)
unfolding evict
evict-HasKeys new_id [] d h = h
evict-HasKeys new_id (k ∷ ids) d h = elim (Bool-cases (leb (length d) max_retained_jobs)) [
  | inl small ↦ rw small h
  | inr large ↦ elim (Bool-cases (is_evictable new_id k d)) [
    | inl goes ↦ rw (large, goes) (evict-HasKeys new_id ids (erase k d) (erase-HasKeys k d h))
    | inr stays ↦ rw (large, stays) (evict-HasKeys new_id ids d h)
  ]
]

pub active-evict :
    (new_id : ℕ) (ids : List ℕ) (d : Jobs) → active_count (evict new_id ids d) ≤ active_count d
unfolding evict
active-evict new_id [] d = omega arith
active-evict new_id (k ∷ ids) d =
    ground (arith, active-evict new_id ids d, active-evict new_id ids (erase k d), active-erase k d)

-- Where fewer jobs are in flight than there are, one is done.
pub some_done :
    (d : Jobs) → active_count d < length d → (e : ℕ × BulkJob) × In e d × (is_done e.1 ≡ true)
unfolding active_count
some_done [] h = absurd (omega (arith, h))
some_done (e ∷ d) h = elim (Bool-cases (is_done e.1)) [
  | inl t ↦ (e, inl refl, t)
  | inr f ↦ let (x, i, t) = some_done d (less_tail (is_done e.1) _ _ f h) in (x, inr i, t)
]

pub lookup-In : (k : ℕ) (j : BulkJob) (d : Jobs) → HasKeys d → In (k, j) d → lookup k d ≡ some j
lookup-In k j [] h i = absurd i
lookup-In k j ((l, w) ∷ d) h (inl same) =
    rw ((==_iff l k).1 (ap (λ x. x.0) (sym same))) (ap some (ap (λ x. x.1) (sym same)))
lookup-In k j ((l, w) ∷ d) h (inr i) =
    rw (ne_test l k (All-In (λ (x : ℕ × BulkJob). l ≢ x.0) (k, j) d h.0 i)) (lookup-In k j d h.1 i)

pub In-ids : (k : ℕ) (d : Jobs) (j : BulkJob) → lookup k d ≡ some j → In k (ids_of d)
In-ids k [] j h = cc
In-ids k ((l, w) ∷ d) j h = ground (arith, In-ids k d j)

pub is_evictable-done :
    (new_id k : ℕ) (d : Jobs) (j : BulkJob)
    → lookup k d ≡ some j
    → is_done j ≡ true
    → new_id ≢ k
    → is_evictable new_id k d ≡ true
is_evictable-done new_id k d j here t ne = rw (ne_test k new_id (λ e. ne (sym e)), here) t

pub length-insert_known :
    (k : ℕ) (v w : BulkJob) (d : Jobs) → lookup k d ≡ some w → length (insert k v d) ≡ length d
length-insert_known k v w [] h = cc
length-insert_known k v w ((j, u) ∷ d) h = ground (arith, length-insert_known k v w d)
