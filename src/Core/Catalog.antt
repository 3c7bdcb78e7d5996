-- ===== src/Core/Catalog.antt =====
-- crates/rustafari-core/src/catalog.rs. The atomic counters are fields that `fetch_add` steps
-- modulo 2^64. A `HashMap` is iterated in the order of its association list.
pub mod Invariant
pub mod Tables
pub mod Snapshot
use rustafari_db.Common.{
  ℕ, zero, suc, ◌+◌, ◌%◌, String, Bool, List, [], ◌∷◌, Option, none, some, map, next_u64, u64_mod,
  ◌==◌, ltb, if◌then◌else◌, filter,
}
use rustafari_db.Common.HashMap
use rustafari_db.Common.HashMap.{HashMap, nat_eq, string_eq, pair_eq}
use rustafari_db.Common.Sort.{sort_strings}
use rustafari_db.Core.Schema.{Schema, rebuild_name_to_index}

abbrev pub NamespaceId : Type 0
NamespaceId = ℕ

abbrev pub TableId : Type 0
TableId = ℕ

pub record TableMeta : Type 0 where
  pub id : TableId
  pub namespace_id : NamespaceId
  pub name : String
  pub schema : Schema
  pub storage_format : String

abbrev pub new_meta : TableId → NamespaceId → String → Schema → TableMeta
new_meta id namespace_id name schema = record {
  id = id;
  namespace_id = namespace_id;
  name = name;
  schema = schema;
  storage_format = "row";
}

pub record CatalogSnapshot : Type 0 where
  pub namespaces : List (String × ℕ)
  pub tables : List TableMeta

pub record Catalog : Type 0 where
  pub next_namespace_id : ℕ
  pub next_table_id : ℕ
  pub namespaces : HashMap String NamespaceId
  pub tables_by_name : HashMap (NamespaceId × String) TableMeta
  pub tables_by_id : HashMap TableId TableMeta

abbrev pub new : Catalog
new = record {
  next_namespace_id = 0;
  next_table_id = 0;
  namespaces = HashMap.empty;
  tables_by_name = HashMap.empty;
  tables_by_id = HashMap.empty;
}

unfoldable pub create_namespace : Catalog → String → Catalog × NamespaceId
create_namespace c name = elim (HashMap.get name c.namespaces) [
  | some id ↦ (c, id)
  | none ↦ (
    record c {
      next_namespace_id = next_u64 c.next_namespace_id;
      namespaces = HashMap.insert name c.next_namespace_id c.namespaces;
    },
    c.next_namespace_id,
  )
]

unfoldable pub namespace_id : Catalog → String → Option NamespaceId
namespace_id c name = HashMap.get name c.namespaces

unfoldable pub list_namespaces : Catalog → List String
list_namespaces c = sort_strings (HashMap.keys c.namespaces)

-- The namespace of a new table: the one that has the name, or a new one.
unfoldable pub ensure_namespace : Catalog → String → Catalog × NamespaceId
unfolding namespace_id
ensure_namespace c ns_name = elim (namespace_id c ns_name) [
  | some id ↦ (c, id)
  | none ↦ (
    record c {
      next_namespace_id = next_u64 c.next_namespace_id;
      namespaces = HashMap.insert ns_name c.next_namespace_id c.namespaces;
    },
    c.next_namespace_id,
  )
]

abbrev pub with_format : Option String → TableMeta → TableMeta
with_format none meta = meta
with_format (some s) meta = record meta { storage_format = s }

-- The rest of `create_table`, once the namespace is there.
unfoldable pub add_table :
    Catalog → NamespaceId → String → Schema → Option String → Catalog × TableMeta
add_table c ns name schema storage_format =
    let meta = with_format storage_format (new_meta c.next_table_id ns name schema) in
    (
      record c {
        next_table_id = next_u64 c.next_table_id;
        tables_by_name = HashMap.insert (ns, name) meta c.tables_by_name;
        tables_by_id = HashMap.insert c.next_table_id meta c.tables_by_id;
      },
      meta,
    )

unfoldable pub create_table :
    Catalog → String → String → Schema → Option String → Catalog × TableMeta
create_table c namespace name schema storage_format =
    let (c', ns) = ensure_namespace c namespace in add_table c' ns name schema storage_format

unfoldable pub get_table : Catalog → String → String → Option TableMeta
unfolding namespace_id
get_table c namespace name = elim (namespace_id c namespace) [
  | none ↦ none
  | some ns ↦ HashMap.get (ns, name) c.tables_by_name
]

unfoldable pub get_table_by_id : Catalog → TableId → Option TableMeta
get_table_by_id c id = HashMap.get id c.tables_by_id

unfoldable pub list_tables : Catalog → String → List TableMeta
unfolding namespace_id
list_tables c namespace = elim (namespace_id c namespace) [
  | none ↦ []
  | some ns ↦ map (λ e. e.1) (filter (λ e. e.0.0 == ns) c.tables_by_name)
]

-- The rest of `drop_table`, once the namespace is found.
unfoldable pub remove_table : Catalog → NamespaceId → String → Catalog × Option TableMeta
remove_table c ns name = elim (HashMap.get (ns, name) c.tables_by_name) [
  | none ↦ (c, none)
  | some meta ↦ (
    record c {
      tables_by_name = HashMap.remove (ns, name) c.tables_by_name;
      tables_by_id = HashMap.remove meta.id c.tables_by_id;
    },
    some meta,
  )
]

unfoldable pub drop_table : Catalog → String → String → Catalog × Option TableMeta
unfolding namespace_id
drop_table c namespace name = elim (namespace_id c namespace) [
  | none ↦ (c, none)
  | some ns ↦ remove_table c ns name
]

unfoldable pub to_snapshot : Catalog → CatalogSnapshot
to_snapshot c = record { namespaces = c.namespaces; tables = HashMap.values c.tables_by_id }

abbrev pub max_u64 : ℕ → ℕ → ℕ
max_u64 a b = if ltb a b then b else a

-- The two loops of `load_snapshot`.
unfoldable pub load_namespaces :
    List (String × ℕ) → ℕ → HashMap String NamespaceId → ℕ × HashMap String NamespaceId
load_namespaces [] max_ns m = (max_ns, m)
load_namespaces ((name, id) ∷ rest) max_ns m =
    load_namespaces rest (max_u64 max_ns id) (HashMap.insert name id m)

unfoldable pub load_tables : List TableMeta → ℕ → Catalog → ℕ × Catalog
load_tables [] max_table c = (max_table, c)
load_tables (t ∷ rest) max_table c =
    let meta = record t { schema = rebuild_name_to_index t.schema } in
    load_tables rest (max_u64 max_table t.id) (record c {
      tables_by_name = HashMap.insert (meta.namespace_id, meta.name) meta c.tables_by_name;
      tables_by_id = HashMap.insert meta.id meta c.tables_by_id;
    })

unfoldable pub load_snapshot : Catalog → CatalogSnapshot → Catalog
unfolding load_namespaces load_tables
load_snapshot c snap =
    let (max_ns, namespaces) = load_namespaces snap.namespaces 0 HashMap.empty in
    let (max_table, c') = load_tables snap.tables 0 (record c {
      namespaces = namespaces;
      tables_by_name = HashMap.empty;
      tables_by_id = HashMap.empty;
    }) in
    record c' { next_namespace_id = next_u64 max_ns; next_table_id = next_u64 max_table }
