-- ===== src/Catalog/Database.antt =====
-- The round trip of the whole catalog.
use db2024_main.Common.{
  text_eq, All, All-map, Bool-cases, List, Option, Text, [], append_assoc, arith, false, inl, inr,
  insert, length, lookup, none, refl, some, str_eq, str_eq_iff, sym, ◌++◌, ◌∷◌, ◌≡◌, ◌∙◌, ap,
  append_nil, subst, ◌<◌,
}
use db2024_main.Catalog.{DbMeta, TabMeta}
use db2024_main.Catalog.Stream.{
  IsName, Stream, read_number, read_text, read_text-name, skip_blanks, write_number,
}
use db2024_main.Catalog.Words.{read_db, read_table, read_tables, size_limit, write_db, write_tables}
use db2024_main.Catalog.RoundTrip.{
  IsTable, bind_some, next_number, read_table-blank, read_table-write_table,
}

abbrev Tables : Type 0
Tables = List (Text × TabMeta)

-- Each table stands under its name and can be read back.
abbrev pub IsNamed : Text × TabMeta → Type 0
IsNamed p = (p.0 ≡ p.1.name) × IsTable p.1

abbrev pub DistinctKeys : List (Text × TabMeta) → Type 0
DistinctKeys [] = Unit
DistinctKeys ((k, t) ∷ tabs) = (lookup k tabs ≡ none) × DistinctKeys tabs

insert-new :
    (k : Text) (t : TabMeta) (tabs : Tables)
    → lookup k tabs ≡ none
    → insert k t tabs ≡ tabs ++ (k, t) ∷ []
unfolding insert lookup
insert-new k t [] h = refl
insert-new k t ((j, u) ∷ tabs) h = elim (Bool-cases (str_eq j k)) [
  | inl e ↦ let found : ◌≡◌ {A = Option TabMeta} (some u) none = rw e at h in cc (found)
  | inr e ↦ rw (e, insert-new k t tabs (rw e at h)) refl
]

lookup-append :
    (k j : Text) (t : TabMeta) (tabs : Tables)
    → lookup k tabs ≡ none
    → str_eq j k ≡ false
    → lookup k (tabs ++ (j, t) ∷ []) ≡ none
unfolding lookup
lookup-append k j t [] h n = rw n refl
lookup-append k j t ((i, u) ∷ tabs) h n = elim (Bool-cases (str_eq i k)) [
  | inl e ↦ let found : ◌≡◌ {A = Option TabMeta} (some u) none = rw e at h in cc (found)
  | inr e ↦ rw e (lookup-append k j t tabs (rw e at h) n)
]

-- The keys behind a new one stay new.
still_new :
    (k : Text) (t : TabMeta) (acc tabs : Tables)
    → lookup k tabs ≡ none
    → All (λ p. lookup p.0 acc ≡ none) tabs
    → All (λ p. lookup p.0 (acc ++ (k, t) ∷ []) ≡ none) tabs
unfolding lookup
still_new k t acc [] h n = tt
still_new k t acc ((j, u) ∷ tabs) h n = elim (Bool-cases (str_eq j k)) [
  | inl e ↦ let found : ◌≡◌ {A = Option TabMeta} (some u) none = rw e at h in cc (found)
  | inr e ↦ (
    lookup-append j k t acc n.0 (ground (arith, str_eq_iff j k, str_eq_iff k j)),
    still_new k t acc tabs (rw e at h) n.1,
  )
]

read_tables-write_tables :
    (tabs acc : Tables) (s after : Stream)
    → read_table s ≡ read_table (write_tables tabs after)
    → skip_blanks s ≡ skip_blanks (write_tables tabs after)
    → All IsNamed tabs
    → DistinctKeys tabs
    → All (λ p. lookup p.0 acc ≡ none) tabs
    → (r : Stream) × (read_tables (length tabs) acc s ≡ some (acc ++ tabs, r))
      × (skip_blanks r ≡ skip_blanks after)
unfolding read_tables write_tables skip_blanks
read_tables-write_tables [] acc s after e blanks named d n =
    (s, ap (λ l. some (l, s)) (sym (append_nil acc)), blanks)
read_tables-write_tables ((k, t) ∷ tabs) acc s after e blanks named d n =
    let behind : Stream = b'\n' ∷ write_tables tabs after in
    let (r, read, ended) =
      read_tables-write_tables tabs (acc ++ (k, t) ∷ []) (b'\n' ∷ behind) after
        (read_table-blank b'\n' behind refl ∙ read_table-blank b'\n' (write_tables tabs after) refl)
        refl named.1 d.1 (still_new k t acc tabs d.0 n.1) in
    (
      r,
      bind_some read_table _ s (b'\n' ∷ behind) t (e ∙ read_table-write_table t behind named.0.1)
          ∙ ap (λ a. read_tables (length tabs) a (b'\n' ∷ behind))
              (subst (λ j. insert j t acc ≡ acc ++ (k, t) ∷ []) named.0.0 (insert-new k t acc n.0))
          ∙ read
          ∙ ap (λ l. some (l, r)) (append_assoc acc ((k, t) ∷ []) tabs),
      ended,
    )

-- A catalog is read back as it was written into an empty catalog, and the reading stops behind it up
-- to blanks, if no name is empty or has a blank in it, each table stands under its own name and no
-- name stands twice, each index counts its columns, and lengths and counts fit their types.
pub read_db-write_db :
    (db empty : DbMeta) (after : Stream)
    → IsName db.name
    → length db.tabs < size_limit
    → All IsNamed db.tabs
    → DistinctKeys db.tabs
    → empty.tabs ≡ []
    → (r : Stream) × (read_db empty (write_db db after) ≡ some (db, r))
      × (skip_blanks r ≡ skip_blanks after)
unfolding read_db write_db lookup skip_blanks
read_db-write_db db empty after name count named d none_yet =
    let tabs : Stream = b'\n' ∷ write_tables db.tabs after in
    let counted : Stream = b'\n' ∷ write_number (length db.tabs) tabs in
    let (r, read, ended) =
      read_tables-write_tables db.tabs [] tabs after
        (read_table-blank b'\n' (write_tables db.tabs after) refl) refl named d
        (All-map _ _ (λ p q. refl) db.tabs named) in
    (
      r,
      bind_some read_text _ (db.name ++ counted) counted db.name
            (read_text-name db.name counted name refl)
          ∙ bind_some (read_number size_limit) _ counted tabs (length db.tabs)
              (next_number size_limit b'\n' (length db.tabs) tabs refl count refl)
          ∙ bind_some (read_tables (length db.tabs) empty.tabs) _ tabs r db.tabs (
              subst (λ a. read_tables (length db.tabs) a tabs ≡ some (db.tabs, r)) (sym none_yet)
                read),
      ended,
    )
