-- ===== src/Core/Catalog/Tables.antt =====
-- What a lookup by name finds after tables are created and dropped.
use text.Mathlib.TextEquality.{eq_iff}
use rustafari_db.Common.{
  String, ◌≡◌, ◌&&◌, Option, none, some, arith, next_u64, Option-cases, inl, inr, if◌then◌else◌,
}
use text.Mathlib.Text.{◌==◌ as str_eq}
use rustafari_db.Common.HashMap
use rustafari_db.Common.HashMap.{HashMap, nat_eq, string_eq, pair_eq, get-insert, get-remove}
use rustafari_db.Core.Schema.{Schema}
use rustafari_db.Core.Catalog.{
  Catalog, NamespaceId, ensure_namespace, add_table, create_table, remove_table, drop_table,
  namespace_id, get_table,
}
use rustafari_db.Core.Catalog.Invariant.{IsValid}

-- The catalog with a fresh namespace.
abbrev with_namespace : Catalog → String → Catalog
with_namespace c namespace = record c {
  next_namespace_id = next_u64 c.next_namespace_id;
  namespaces = HashMap.insert namespace c.next_namespace_id c.namespaces;
}

module _ (c : Catalog) (namespace name : String) (schema : Schema) (format : Option String)
    (n t : String) (v : IsValid c) where
  -- The new table in a namespace that is there.
  in_old_namespace :
      (ns : NamespaceId)
      → namespace_id c namespace ≡ some ns
      → get_table (add_table c ns name schema format).0 n t ≡ (
          if str_eq namespace n && str_eq name t
          then some (add_table c ns name schema format).1
          else get_table c n t)
  unfolding add_table get_table
  in_old_namespace ns there = elim (Option-cases (namespace_id c n)) [
    | inl missing ↦ ground (arith, eq_iff namespace n)
    | inr (k, found) ↦ ground (
      arith,
      get-insert (k, t) (ns, name) (add_table c ns name schema format).1 c.tables_by_name,
      v.namespaces_differ namespace n ns there,
      eq_iff namespace n,
    )
  ]

  in_new_namespace :
      namespace_id c namespace ≡ none
      → get_table
          (add_table (with_namespace c namespace) c.next_namespace_id name schema format).0
          n
          t
        ≡ (if str_eq namespace n && str_eq name t
            then some
                (add_table (with_namespace c namespace) c.next_namespace_id name schema format).1
            else get_table c n t)
  unfolding add_table get_table
  in_new_namespace missing =
      let fresh = c.next_namespace_id in
      let m = (add_table (with_namespace c namespace) fresh name schema format).1 in
      let seen = get-insert n namespace fresh c.namespaces in
      elim (Option-cases (namespace_id c n)) [
        | inl none_there ↦ elim (Option-cases (HashMap.get (fresh, t) c.tables_by_name)) [
          | inl free ↦ ground (
            arith,
            seen,
            get-insert (fresh, t) (fresh, name) m c.tables_by_name,
            eq_iff namespace n,
          )
          | inr (d, taken) ↦ absurd (omega (arith, v.owned fresh t d taken))
        ]
        | inr (k, found) ↦ ground (
          arith,
          seen,
          get-insert (k, t) (fresh, name) m c.tables_by_name,
          v.namespaces_below n k found,
          eq_iff namespace n,
        )
      ]

  -- A lookup after `create_table` finds the new table under its namespace and name, and under
  -- every other namespace and name what it found before: no other table is moved or lost. The
  -- catalog is valid.
  pub get_table-create_table : get_table (create_table c namespace name schema format).0 n t ≡ (
      if str_eq namespace n && str_eq name t
      then some (create_table c namespace name schema format).1
      else get_table c n t)
  unfolding create_table ensure_namespace
  get_table-create_table = elim (Option-cases (namespace_id c namespace)) [
    | inr (ns, there) ↦ rw (there, create_table, ensure_namespace) (in_old_namespace ns there)
    | inl missing ↦ rw (missing, create_table, ensure_namespace) (in_new_namespace missing)
  ]

drop_from_namespace :
    (c : Catalog) (namespace name n t : String) (ns : NamespaceId)
    → IsValid c
    → namespace_id c namespace ≡ some ns
    → get_table (remove_table c ns name).0 n t
      ≡ (if str_eq namespace n && str_eq name t then none else get_table c n t)
unfolding remove_table get_table
drop_from_namespace c namespace name n t ns v there = elim (Option-cases (namespace_id c n)) [
  | inl missing ↦ ground (arith, eq_iff namespace n)
  | inr (k, found) ↦ ground (
    arith,
    get-remove (k, t) (ns, name) c.tables_by_name,
    v.namespaces_differ namespace n ns there,
    eq_iff namespace n,
    eq_iff name t,
  )
]

-- A lookup after `drop_table` finds nothing under the dropped name, and under every other
-- namespace and name what it found before. The catalog is valid.
pub get_table-drop_table :
    (c : Catalog) (namespace name n t : String)
    → IsValid c
    → get_table (drop_table c namespace name).0 n t
      ≡ (if str_eq namespace n && str_eq name t then none else get_table c n t)
unfolding drop_table remove_table get_table
get_table-drop_table c namespace name n t v = elim (Option-cases (namespace_id c namespace)) [
  | inr (ns, there) ↦ rw (there, drop_table) (drop_from_namespace c namespace name n t ns v there)
  | inl missing ↦ ground (arith, eq_iff namespace n)
]
