-- ===== src/Api/Analytics/Keyed.antt =====
-- The keys of the entries in `_groups` of src/prooflens/api/analytics.py: each comes from a result,
-- and sorting keeps them apart.
use prooflens.Base.{
  String, ◌≡◌, refl, sym, ap, ◌∙◌, ◌≢◌, inl, inr, Bool, List, [], ◌∷◌, map, filter, In, In-map, All,
  All-In, All-In_intro, IsDistinctOn, string_eq, str_eq, Bool-cases,
}
use prooflens.Service.Repo.{ResultView}
use prooflens.Api.Analytics.Groups.{
  Entry, GroupKey, Entries, join, join_all, insert_entry, sort_entries, pair_lt,
}
use prooflens.Api.Analytics.Filed.{key, In-insert_entry, In-sort_entries}

pub filter_cong :
    {A : Type 0} (p q : A → Bool)
    → ((x : A) → p x ≡ q x)
    → (xs : List A) → filter p xs ≡ filter q xs
filter_cong p q h [] = refl
filter_cong p q h (x ∷ xs) = elim (Bool-cases (q x)) [
  | inl holds ↦ rw (h x, holds) (ap (λ l. x ∷ l) (filter_cong p q h xs))
  | inr fails ↦ rw (h x, fails) (filter_cong p q h xs)
]

-- A map keeps keys apart where equal keys come from equal keys.
pub IsDistinctOn-map_to :
    {A B K J : Type 0} (key : A → K) (key' : B → J) (f : A → B) (xs : List A)
    → ((a b : A) → In a xs → In b xs → key' (f a) ≡ key' (f b) → key a ≡ key b)
    → IsDistinctOn key xs
    → IsDistinctOn key' (map f xs)
IsDistinctOn-map_to key key' f [] back d = tt
IsDistinctOn-map_to key key' f (x ∷ xs) back d = (
  All-In_intro (λ y. key' (f x) ≢ key' y) (map f xs)
      (λ y i.
        let (b, m, e) = In-map f y xs i in
        λ same.
          All-In (λ z. key x ≢ key z) b xs d.0 m (back x b (inl refl) (inr m) (same ∙ ap key' e))),
  IsDistinctOn-map_to key key' f xs (λ a b i j. back a b (inr i) (inr j)) d.1,
)

module _ {R : Type 0} where
  -- An entry whose key, label and agent id have a property that those of the results have
  abbrev pub HasEntry : (GroupKey → Type 0) → String × Entry R → Type 0
  HasEntry P (k, e) = P (record { key = k; label = e.label; agent_id = e.agent_id })

  module _ (P : GroupKey → Type 0) where
    join-HasEntry :
        (g : GroupKey) (r : ResultView R) (entries : Entries R)
        → P g
        → All (HasEntry P) entries
        → All (HasEntry P) (join g r entries)
    join-HasEntry g r [] p a = (p, tt)
    join-HasEntry g r ((j, e) ∷ entries) p a = elim (Bool-cases (str_eq j g.key)) [
      | inl same ↦ rw same a
      | inr other ↦ rw other (a.0, join-HasEntry g r entries p a.1)
    ]

    pub join_all-HasEntry :
        (group : ResultView R → GroupKey) (items : List (ResultView R)) (entries : Entries R)
        → ((r : ResultView R) → P (group r))
        → All (HasEntry P) entries
        → All (HasEntry P) (join_all group items entries)
    unfolding join_all
    join_all-HasEntry group [] entries p a = a
    join_all-HasEntry group (r ∷ items) entries p a =
        join_all-HasEntry group items (join (group r) r entries) p
          (join-HasEntry (group r) r entries (p r) a)

  insert_entry-IsDistinctOn :
      (x : String × Entry R) (entries : Entries R)
      → IsDistinctOn key (x ∷ entries)
      → IsDistinctOn key (insert_entry x entries)
  insert_entry-IsDistinctOn (k, e) [] d = d
  insert_entry-IsDistinctOn (k, e) ((j, c) ∷ entries) (new, rest) =
      elim (Bool-cases (pair_lt c.label j e.label k)) [
        | inl before ↦ rw before (
          All-In_intro (λ (y : String × Entry R). j ≢ y.0) (insert_entry (k, e) entries)
              (λ y i. elim (In-insert_entry y (k, e) entries i) [
                | inl same ↦ λ equal. new.0 (sym (equal ∙ ap key same))
                | inr m ↦ All-In (λ (z : String × Entry R). j ≢ z.0) y entries rest.0 m
              ]),
          insert_entry-IsDistinctOn (k, e) entries (new.1, rest.1),
        )
        | inr after ↦ rw after (new, rest)
      ]

  pub sort_entries-IsDistinctOn :
      (entries : Entries R) → IsDistinctOn key entries → IsDistinctOn key (sort_entries entries)
  unfolding sort_entries
  sort_entries-IsDistinctOn [] d = tt
  sort_entries-IsDistinctOn (x ∷ entries) d = insert_entry-IsDistinctOn x (sort_entries entries) (
    All-In_intro (λ y. key x ≢ key y) (sort_entries entries)
        (λ y i. All-In (λ y. key x ≢ key y) y entries d.0 (In-sort_entries y entries i)),
    sort_entries-IsDistinctOn entries d.1,
  )
