-- ===== src/Execution/Aggregate/Partition.antt =====
-- The groups of `beginTuple` against the tuples with each key.
use db2024_main.Common.{
  text_eq, ℕ, Bool-cases, List, Option, Option-cases, Text, [], append_assoc, append_nil, arith,
  false, if◌then◌else◌, inl, inr, insert, is_some, length, lookup, lookup-insert, map, none, ok,
  refl, replicate, some, str_eq, str_eq_iff, sym, true, ◌++◌, ◌∷◌, ◌≡◌, ◌∙◌, ◌||◌, ap,
}
use db2024_main.Common.Results.{>>=-eq-ok, map_result, ◌>>=◌}
use db2024_main.Catalog.{ColMeta}
use db2024_main.Query.{Floats, TabCol}
use db2024_main.Query.Eval.{get_col_at}
use db2024_main.Planner.{has_name}
use db2024_main.Execution.Aggregate.{
  AggSpec, GroupState, Groups, add_record, add_records, all_key, key_for_group, key_of, new_group,
  no_state, place, read_col_as_record, record_key, update_group,
}

-- The key of a record, for the columns that the grouping names.
unfoldable pub group_key : List ColMeta → List ℕ → Text
group_key [] rec = all_key
group_key (c ∷ metas) rec = key_of (c ∷ metas) rec

-- The records of a key, in order; null ones are skipped.
unfoldable pub members : List ColMeta → Text → List (Option (List ℕ)) → List (List ℕ)
members metas k [] = []
members metas k (none ∷ recs) = members metas k recs
members metas k (some r ∷ recs) =
    if str_eq (group_key metas r) k then r ∷ members metas k recs else members metas k recs

-- The keys in the order in which they first stand, without those seen before.
unfoldable pub first_keys : List ColMeta → List Text → List (Option (List ℕ)) → List Text
first_keys metas seen [] = []
first_keys metas seen (none ∷ recs) = first_keys metas seen recs
first_keys metas seen (some r ∷ recs) =
    let k = group_key metas r in
    let new = first_keys metas (k ∷ seen) recs in
    if has_name k seen then first_keys metas seen recs else k ∷ new

record_key-found :
    (cols : List ColMeta) (group_by : List TabCol) (metas : List ColMeta) (r : List ℕ)
    → map_result (get_col_at cols) group_by ≡ ok metas
    → record_key cols group_by r ≡ ok (group_key metas r)
unfolding record_key key_for_group group_key map_result
record_key-found cols [] [] r h = refl
record_key-found cols [] (m ∷ metas) r h = cc (h)
record_key-found cols (c ∷ group_by) [] r h =
    let (m, em, h1) = >>=-eq-ok (get_col_at cols c) _ h in
    let (ms, es, h2) = >>=-eq-ok (map_result (get_col_at cols) group_by) _ h1 in cc (h2)
record_key-found cols (c ∷ group_by) (m ∷ metas) r h = ap (λ x. x >>= λ ms. ok (key_of ms r)) h

module _ {F D : Type 0} (fl : Floats F D) (specs : List AggSpec) where
  -- A group after the records of a list.
  unfoldable pub updates : List (List ℕ) → GroupState F D → GroupState F D
  updates [] g = g
  updates (r ∷ recs) g = updates recs (update_group fl specs r g)

  -- The group of a first record, before it is counted.
  unfoldable pub fresh : List ColMeta → List ℕ → GroupState F D
  fresh metas r = record {
    group_vals = map (read_col_as_record r) metas;
    agg_states = replicate (length specs) (no_state fl);
  }

  -- The group of the records of one key, none if there are none.
  unfoldable pub group_of : List ColMeta → List (List ℕ) → Option (GroupState F D)
  group_of metas [] = none
  group_of metas (r ∷ recs) = some (updates (r ∷ recs) (fresh metas r))

  -- The same from a group that may be there.
  go_on : List ColMeta → Option (GroupState F D) → List (List ℕ) → Option (GroupState F D)
  go_on metas (some g) recs = some (updates recs g)
  go_on metas none recs = group_of metas recs

  go_on-nil : (metas : List ColMeta) (o : Option (GroupState F D)) → o ≡ go_on metas o []
  unfolding go_on group_of updates
  go_on-nil metas none = refl
  go_on-nil metas (some g) = refl

  -- The group that a record leaves.
  after_record : List ColMeta → List ℕ → Option (GroupState F D) → GroupState F D
  after_record metas r none = update_group fl specs r (fresh metas r)
  after_record metas r (some g) = update_group fl specs r g

  go_on-some :
      (metas : List ColMeta) (r : List ℕ) (o : Option (GroupState F D)) (recs : List (List ℕ))
      → go_on metas (some (after_record metas r o)) recs ≡ go_on metas o (r ∷ recs)
  unfolding go_on group_of updates after_record
  go_on-some metas r none recs = refl
  go_on-some metas r (some g) recs = refl

  module _ (cols : List ColMeta) (group_by : List TabCol) (metas : List ColMeta)
      (found : map_result (get_col_at cols) group_by ≡ ok metas) where
    record IsAdded (recs : List (Option (List ℕ))) (seen : List Text) (gs gs2 : Groups F D)
        : Type 0 where
      group :
          (k : Text) → lookup k gs2.groups ≡ go_on metas (lookup k gs.groups) (members metas k recs)
      order : gs2.group_order ≡ gs.group_order ++ first_keys metas seen recs

    -- The group table after a record, and the names that have a group then.
    stored : List ℕ → Groups F D → List (Text × GroupState F D)
    stored r gs =
        let k = group_key metas r in insert k (after_record metas r (lookup k gs.groups)) gs.groups

    stored-group :
        (r : List ℕ) (recs : List (Option (List ℕ))) (gs : Groups F D) (k : Text)
        → go_on metas (lookup k (stored r gs)) (members metas k recs)
          ≡ go_on metas (lookup k gs.groups) (members metas k (some r ∷ recs))
    unfolding stored members
    stored-group r recs gs k = elim (Bool-cases (str_eq (group_key metas r) k)) [
      | inl e ↦
          let same : group_key metas r ≡ k = (str_eq_iff (group_key metas r) k).0 e in
          rw
            (
              lookup-insert (group_key metas r) k
                  (after_record metas r (lookup (group_key metas r) gs.groups)) gs.groups,
              e,
              same,
            )
            (go_on-some metas r (lookup k gs.groups) (members metas k recs))
      | inr e ↦
          rw
            (
              lookup-insert (group_key metas r) k
                  (after_record metas r (lookup (group_key metas r) gs.groups)) gs.groups,
              e,
            )
            refl
    ]

    stored-names :
        (r : List ℕ) (gs : Groups F D) (k : Text)
        → is_some (lookup k (stored r gs))
          ≡ (str_eq (group_key metas r) k || is_some (lookup k gs.groups))
    unfolding stored
    stored-names r gs k = elim (Bool-cases (str_eq (group_key metas r) k)) [
      | inl e ↦
          rw
            (
              lookup-insert (group_key metas r) k
                  (after_record metas r (lookup (group_key metas r) gs.groups)) gs.groups,
              e,
            )
            refl
      | inr e ↦
          rw
            (
              lookup-insert (group_key metas r) k
                  (after_record metas r (lookup (group_key metas r) gs.groups)) gs.groups,
              e,
            )
            refl
    ]

    next : List ℕ → Groups F D → List Text → Groups F D
    next r gs keys = record { groups = stored r gs; group_order = gs.group_order ++ keys }

    add_record-old :
        (r : List ℕ) (gs : Groups F D)
        → is_some (lookup (group_key metas r) gs.groups) ≡ true
        → add_record fl cols group_by specs r gs ≡ ok (next r gs [])
    unfolding add_record place next stored after_record
    add_record-old r gs h = elim (Option-cases (lookup (group_key metas r) gs.groups)) [
      | inl e ↦ let nothing : false ≡ true = rw e at h in cc (nothing)
      | inr (g, e) ↦
          rw (record_key-found cols group_by metas r found, e, append_nil gs.group_order) refl
    ]

    add_record-new :
        (r : List ℕ) (gs : Groups F D)
        → is_some (lookup (group_key metas r) gs.groups) ≡ false
        → add_record fl cols group_by specs r gs ≡ ok (next r gs (group_key metas r ∷ []))
    unfolding add_record place next stored after_record new_group fresh
    add_record-new r gs h = elim (Option-cases (lookup (group_key metas r) gs.groups)) [
      | inl e ↦ rw (record_key-found cols group_by metas r found, e, found) refl
      | inr (g, e) ↦ let nothing : true ≡ false = rw e at h in cc (nothing)
    ]

    add_records-IsAdded :
        (recs : List (Option (List ℕ))) (seen : List Text) (gs : Groups F D)
        → ((k : Text) → has_name k seen ≡ is_some (lookup k gs.groups))
        → (gs2 : Groups F D) × (add_records fl cols group_by specs recs gs ≡ ok gs2)
          × IsAdded recs seen gs gs2
    unfolding add_records members first_keys next has_name
    add_records-IsAdded [] seen gs h = (
      gs,
      refl,
      record {
        group = λ k. go_on-nil metas (lookup k gs.groups);
        order = sym (append_nil gs.group_order);
      },
    )
    add_records-IsAdded (none ∷ recs) seen gs h =
        let (gs2, e, a) = add_records-IsAdded recs seen gs h in
        (gs2, e, record { group = a.group; order = a.order })
    add_records-IsAdded (some r ∷ recs) seen gs h =
        elim (Bool-cases (has_name (group_key metas r) seen)) [
          | inl e ↦
              let old = sym (h (group_key metas r)) ∙ e in
              let (gs2, e2, a) = add_records-IsAdded recs seen (next r gs []) (λ k. ground (
                arith,
                stored-names r gs k,
                h k,
                h (group_key metas r),
                str_eq_iff (group_key metas r) k,
              )) in
              (
                gs2,
                rw (add_record-old r gs old) e2,
                record {
                  group = λ k. a.group k ∙ stored-group r recs gs k;
                  order = rw e (
                      a.order
                      ∙ ap (λ l. l ++ first_keys metas seen recs) (append_nil gs.group_order));
                },
              )
          | inr e ↦
              let new = sym (h (group_key metas r)) ∙ e in
              let (gs2, e2, a) =
                add_records-IsAdded recs (group_key metas r ∷ seen)
                  (next r gs (group_key metas r ∷ [])) (λ k. rw (stored-names r gs k, h k) refl) in
              (
                gs2,
                rw (add_record-new r gs new) e2,
                record {
                  group = λ k. a.group k ∙ stored-group r recs gs k;
                  order = rw e (
                      a.order
                      ∙ append_assoc gs.group_order (group_key metas r ∷ [])
                          (first_keys metas (group_key metas r ∷ seen) recs));
                },
              )
        ]

    -- Where the grouping's columns are found, the loop over the tuples of the executor below returns
    -- from no groups with: for each key, the group whose values are those of the first record with
    -- that key and whose aggregates were updated by all records with it, in their order, and no
    -- group for a key without record; and the keys in the order in which they first stood.
    pub add_records-groups :
        (recs : List (Option (List ℕ)))
        → (gs : Groups F D) × (add_records fl cols group_by specs recs
              (record { groups = []; group_order = [] })
            ≡ ok gs)
          × ((k : Text) → lookup k gs.groups ≡ group_of metas (members metas k recs))
          × (gs.group_order ≡ first_keys metas [] recs)
    unfolding go_on has_name lookup
    add_records-groups recs =
        let (gs, e, a) =
          add_records-IsAdded recs [] (record { groups = []; group_order = [] }) (λ k. refl) in
        (gs, e, a.group, a.order)
