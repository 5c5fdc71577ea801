-- ===== src/Api/Analytics/Filed.antt =====
-- Where `_groups` of src/prooflens/api/analytics.py files each result.
use prooflens.Base.{
  ℕ, suc, ◌+◌, String, ◌≡◌, refl, sym, ap, ◌∙◌, ◌≢◌, Bool, false, List, [], ◌∷◌, ◌++◌, none, some,
  filter, length, length-append, In, All, All-In, IsDistinctOn, lookup, string_eq, str_eq, eq_iff,
  Bool-cases, inl, inr, arith, if◌then◌else◌,
}
use mathlib.Core.List.{append-nil, append_assoc}
use prooflens.Service.Repo.{ResultView}
use prooflens.Api.Analytics.Groups.{
  Entry, GroupKey, Entries, join, join_all, insert_entry, sort_entries, pair_lt,
}

module _ {R : Type 0} where
  abbrev filed : String → Entries R → List (ResultView R)
  filed k entries = elim (lookup k entries) [ none ↦ [] | some e ↦ e.items ]

  abbrev pub key : String × Entry R → String
  key e = e.0

  filed-join :
      (k : String) (g : GroupKey) (r : ResultView R) (entries : Entries R)
      → filed k (join g r entries)
        ≡ (if str_eq g.key k then filed k entries ++ r ∷ [] else filed k entries)
  filed-join k g r [] = ground arith
  filed-join k g r ((j, e) ∷ entries) =
      ground (arith, eq_iff j g.key, eq_iff g.key k, eq_iff j k, filed-join k g r entries)

  join-new :
      (j : String) (g : GroupKey) (r : ResultView R) (entries : Entries R)
      → j ≢ g.key
      → All (λ (e : String × Entry R). j ≢ e.0) entries
      → All (λ (e : String × Entry R). j ≢ e.0) (join g r entries)
  join-new j g r [] ne h = (ne, tt)
  join-new j g r ((i, e) ∷ entries) ne h = elim (Bool-cases (str_eq i g.key)) [
    | inl same ↦ rw same h
    | inr other ↦ rw other (h.0, join-new j g r entries ne h.1)
  ]

  join-IsDistinctOn :
      (g : GroupKey) (r : ResultView R) (entries : Entries R)
      → IsDistinctOn key entries
      → IsDistinctOn key (join g r entries)
  join-IsDistinctOn g r [] h = (tt, tt)
  join-IsDistinctOn g r ((j, e) ∷ entries) h = elim (Bool-cases (str_eq j g.key)) [
    | inl same ↦ rw same h
    | inr other ↦
        rw other (join-new j g r entries (differs other) h.0, join-IsDistinctOn g r entries h.1)
  ]
    where
      differs : str_eq j g.key ≡ false → j ≢ g.key
      differs other same = ground (arith, eq_iff j g.key)

  abbrev on_key : (ResultView R → GroupKey) → String → ResultView R → Bool
  on_key group k r = str_eq (group r).key k

  -- The loop files under each key the results that have it, in order.
  pub filed-join_all :
      (group : ResultView R → GroupKey) (k : String) (items : List (ResultView R))
      (entries : Entries R)
      → filed k (join_all group items entries) ≡ filed k entries ++ filter (on_key group k) items
  unfolding join_all
  filed-join_all group k [] entries = sym (append-nil (filed k entries))
  filed-join_all group k (r ∷ items) entries =
      filed-join_all group k items (join (group r) r entries)
      ∙ ap (λ l. l ++ filter (on_key group k) items) (filed-join k (group r) r entries)
      ∙ elim (Bool-cases (str_eq (group r).key k)) [
        | inl same ↦ rw same (append_assoc (filed k entries) (r ∷ []) _)
        | inr other ↦ rw other
      ]

  pub join_all-IsDistinctOn :
      (group : ResultView R → GroupKey) (items : List (ResultView R)) (entries : Entries R)
      → IsDistinctOn key entries
      → IsDistinctOn key (join_all group items entries)
  unfolding join_all
  join_all-IsDistinctOn group [] entries h = h
  join_all-IsDistinctOn group (r ∷ items) entries h =
      join_all-IsDistinctOn group items (join (group r) r entries)
        (join-IsDistinctOn (group r) r entries h)

  filed-here :
      (k j : String) (e : Entry R) (entries : Entries R)
      → j ≡ k
      → filed k ((j, e) ∷ entries) ≡ e.items
  filed-here k j e entries h = ground (arith, eq_iff j k)

  filed-there :
      (k j : String) (e : Entry R) (entries : Entries R)
      → j ≢ k
      → filed k ((j, e) ∷ entries) ≡ filed k entries
  filed-there k j e entries h = ground (arith, eq_iff j k)

  pub filed-In :
      (k : String) (e : Entry R) (entries : Entries R)
      → IsDistinctOn key entries
      → In (k, e) entries
      → filed k entries ≡ e.items
  filed-In k e [] d i = absurd i
  filed-In k e ((j, e') ∷ entries) d (inl same) =
      filed-here k j e' entries (ap key (sym same))
      ∙ ap (λ (x : String × Entry R). x.1.items) (sym same)
  filed-In k e ((j, e') ∷ entries) d (inr m) =
      filed-there k j e' entries (All-In (λ (x : String × Entry R). j ≢ x.0) (k, e) entries d.0 m)
      ∙ filed-In k e entries d.1 m

  abbrev pub sizes : Entries R → ℕ
  sizes [] = 0
  sizes ((k, e) ∷ entries) = length e.items + sizes entries

  sizes-join :
      (g : GroupKey) (r : ResultView R) (entries : Entries R)
      → sizes (join g r entries) ≡ suc (sizes entries)
  sizes-join g r [] = omega arith
  sizes-join g r ((j, e) ∷ entries) =
      ground (arith, length-append e.items (r ∷ []), sizes-join g r entries)

  pub sizes-join_all :
      (group : ResultView R → GroupKey) (items : List (ResultView R)) (entries : Entries R)
      → sizes (join_all group items entries) ≡ sizes entries + length items
  unfolding join_all
  sizes-join_all group [] entries = omega arith
  sizes-join_all group (r ∷ items) entries =
      omega (
        arith,
        sizes-join_all group items (join (group r) r entries),
        sizes-join (group r) r entries,
      )

  sizes-insert_entry :
      (e : String × Entry R) (entries : Entries R)
      → sizes (insert_entry e entries) ≡ length e.1.items + sizes entries
  sizes-insert_entry (k, e) [] = refl
  sizes-insert_entry (k, e) ((j, d) ∷ entries) = elim (Bool-cases (pair_lt d.label j e.label k)) [
    | inl before ↦ rw before (omega (arith, sizes-insert_entry (k, e) entries))
    | inr after ↦ rw after
  ]

  pub sizes-sort_entries : (entries : Entries R) → sizes (sort_entries entries) ≡ sizes entries
  unfolding sort_entries
  sizes-sort_entries [] = refl
  sizes-sort_entries ((k, e) ∷ entries) =
      omega (arith, sizes-insert_entry (k, e) (sort_entries entries), sizes-sort_entries entries)

  pub In-insert_entry :
      (x e : String × Entry R) (entries : Entries R)
      → In x (insert_entry e entries)
      → In x (e ∷ entries)
  In-insert_entry x (k, e) [] i = i
  In-insert_entry x (k, e) ((j, d) ∷ entries) i = elim (Bool-cases (pair_lt d.label j e.label k)) [
    | inl before ↦ swapped (rw before at i) (In-insert_entry x (k, e) entries)
    | inr after ↦ rw after at i
  ]
    where
      swapped :
          In x ((j, d) ∷ insert_entry (k, e) entries)
          → (In x (insert_entry (k, e) entries) → In x ((k, e) ∷ entries))
          → In x ((k, e) ∷ (j, d) ∷ entries)
      swapped (inl here) back = inr (inl here)
      swapped (inr m) back = elim (back m) [ inl new ↦ inl new | inr old ↦ inr (inr old) ]

  pub In-sort_entries :
      (x : String × Entry R) (entries : Entries R) → In x (sort_entries entries) → In x entries
  unfolding sort_entries
  In-sort_entries x [] i = i
  In-sort_entries x (e ∷ entries) i = elim (In-insert_entry x e (sort_entries entries) i) [
    | inl same ↦ inl same
    | inr m ↦ inr (In-sort_entries x entries m)
  ]
