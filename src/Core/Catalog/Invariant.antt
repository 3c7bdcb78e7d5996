-- ===== src/Core/Catalog/Invariant.antt =====
-- What holds of every catalog: the two table maps agree, and fresh identifiers are fresh.
use text.Mathlib.TextEquality.{eq_iff}
use rustafari_db.Common.{
  ◌+◌, ◌<◌, String, ◌≡◌, refl, Option, none, some, arith, u64_mod, next_u64, Option-cases, inl, inr,
}
use rustafari_db.Common.HashMap
use rustafari_db.Common.HashMap.{
  HashMap, nat_eq, string_eq, pair_eq, pair_beq_iff, map_laws, get-insert, get-remove, get-empty,
}
use rustafari_db.Core.Schema.{Schema}
use rustafari_db.Core.Catalog.{
  Catalog, TableMeta, NamespaceId, TableId, new, create_namespace, ensure_namespace, add_table,
  create_table, remove_table, drop_table, namespace_id, new_meta, with_format,
}

pub record IsValid (c : Catalog) : Type 0 where
  -- The table that a name gives is filed under its own identifier, namespace and name.
  pub named :
      (ns : NamespaceId) (name : String) (m : TableMeta)
      → HashMap.get (ns, name) c.tables_by_name ≡ some m
      → (HashMap.get m.id c.tables_by_id ≡ some m) × (m.namespace_id ≡ ns) × (m.name ≡ name)
  -- A table is filed under its own identifier, which is below the next one.
  pub filed :
      (id : TableId) (m : TableMeta)
      → HashMap.get id c.tables_by_id ≡ some m
      → (m.id ≡ id) × (id < c.next_table_id)
  -- The namespace of a table has an identifier below the next one.
  pub owned :
      (ns : NamespaceId) (name : String) (m : TableMeta)
      → HashMap.get (ns, name) c.tables_by_name ≡ some m
      → ns < c.next_namespace_id
  -- The identifiers of namespaces are below the next one, and differ.
  pub namespaces_below :
      (s : String) (id : NamespaceId)
      → HashMap.get s c.namespaces ≡ some id
      → id < c.next_namespace_id
  pub namespaces_differ :
      (s t : String) (id : NamespaceId)
      → HashMap.get s c.namespaces ≡ some id
      → HashMap.get t c.namespaces ≡ some id
      → s ≡ t

-- Neither counter wraps at its next step.
pub record HasRoom (c : Catalog) : Type 0 where
  pub namespaces_left : c.next_namespace_id + 1 < u64_mod
  pub tables_left : c.next_table_id + 1 < u64_mod

pub new-IsValid : IsValid new
new-IsValid = record {
  named = λ ns name m h. cc (get-empty {K = NamespaceId × String} {V = TableMeta} (ns, name));
  filed = λ id m h. absurd (cc (get-empty {V = TableMeta} id));
  owned =
      λ ns name m h. absurd (cc (get-empty {K = NamespaceId × String} {V = TableMeta} (ns, name)));
  namespaces_below = λ s id h. absurd (cc (get-empty {V = NamespaceId} s));
  namespaces_differ = λ s t id h k. cc (get-empty {V = NamespaceId} s);
}

pub ensure_namespace-IsValid :
    (c : Catalog) (s : String) → HasRoom c → IsValid c → IsValid (ensure_namespace c s).0
unfolding ensure_namespace
ensure_namespace-IsValid c s room v = record {
  named = λ ns name m. ground (arith, v.named ns name m);
  filed = λ id m. ground (arith, v.filed id m);
  owned = λ ns name m. ground (arith, v.owned ns name m);
  namespaces_below = λ t id.
      ground (arith, v.namespaces_below t id, get-insert t s c.next_namespace_id c.namespaces);
  namespaces_differ = λ t u id. ground (
    arith,
    v.namespaces_differ t u id,
    v.namespaces_below t id,
    v.namespaces_below u id,
    get-insert t s c.next_namespace_id c.namespaces,
    get-insert u s c.next_namespace_id c.namespaces,
    eq_iff s t,
    eq_iff s u,
  );
}

-- A new table, filed under the next identifier.
file_table-IsValid :
    (c : Catalog) (t : TableMeta)
    → c.next_table_id + 1 < u64_mod
    → t.id ≡ c.next_table_id
    → t.namespace_id < c.next_namespace_id
    → IsValid c
    → IsValid (record c {
      next_table_id = next_u64 c.next_table_id;
      tables_by_name = HashMap.insert (t.namespace_id, t.name) t c.tables_by_name;
      tables_by_id = HashMap.insert c.next_table_id t c.tables_by_id;
    })
file_table-IsValid c t room fresh below v = record {
  named = λ ns name m. ground (
    arith,
    v.named ns name m,
    v.filed m.id m,
    get-insert (ns, name) (t.namespace_id, t.name) t c.tables_by_name,
    get-insert m.id c.next_table_id t c.tables_by_id,
    eq_iff t.name name,
  );
  filed = λ id m. ground (arith, v.filed id m, get-insert id c.next_table_id t c.tables_by_id);
  owned = λ ns name m.
      ground (
        arith,
        v.owned ns name m,
        get-insert (ns, name) (t.namespace_id, t.name) t c.tables_by_name,
      );
  namespaces_below = v.namespaces_below;
  namespaces_differ = v.namespaces_differ;
}

pub add_table-IsValid :
    (c : Catalog) (ns : NamespaceId) (name : String) (schema : Schema) (format : Option String)
    → c.next_table_id + 1 < u64_mod
    → ns < c.next_namespace_id
    → IsValid c
    → IsValid (add_table c ns name schema format).0
unfolding add_table
add_table-IsValid c ns name schema none room below v =
    file_table-IsValid c (new_meta c.next_table_id ns name schema) room refl below v
add_table-IsValid c ns name schema (some f) room below v =
    file_table-IsValid c (with_format (some f) (new_meta c.next_table_id ns name schema)) room refl
      below v

next_table_id-ensure_namespace :
    (c : Catalog) (s : String) → (ensure_namespace c s).0.next_table_id ≡ c.next_table_id
unfolding ensure_namespace
next_table_id-ensure_namespace c s = ground arith

-- The namespace that `ensure_namespace` returns is there, with an identifier below the next one.
pub ensure_namespace-there :
    (c : Catalog) (s : String)
    → HasRoom c
    → IsValid c
    → (namespace_id (ensure_namespace c s).0 s ≡ some (ensure_namespace c s).1)
      × ((ensure_namespace c s).1 < (ensure_namespace c s).0.next_namespace_id)
unfolding ensure_namespace
ensure_namespace-there c s room v = elim (Option-cases (namespace_id c s)) [
  | inr (ns, there) ↦ ground (arith, v.namespaces_below s ns there)
  | inl missing ↦ ground (arith, get-insert s s c.next_namespace_id c.namespaces, eq_iff s s)
]

-- `create_table` keeps the catalog valid.
pub create_table-IsValid :
    (c : Catalog) (namespace name : String) (schema : Schema) (format : Option String)
    → HasRoom c
    → IsValid c
    → IsValid (create_table c namespace name schema format).0
unfolding create_table
create_table-IsValid c namespace name schema format room v =
    add_table-IsValid (ensure_namespace c namespace).0 (ensure_namespace c namespace).1 name schema
      format (omega (arith, room.tables_left, next_table_id-ensure_namespace c namespace))
      (ensure_namespace-there c namespace room v).1 (ensure_namespace-IsValid c namespace room v)

remove_table-IsValid :
    (c : Catalog) (ns : NamespaceId) (name : String)
    → IsValid c
    → IsValid (remove_table c ns name).0
unfolding remove_table
remove_table-IsValid c ns name v = elim (Option-cases (HashMap.get (ns, name) c.tables_by_name)) [
  | inl missing ↦ rw (missing, remove_table) v
  | inr (t, there) ↦
      rw (there, remove_table)
        (record {
          named = λ n s m. ground (
            arith,
            v.named n s m,
            v.named ns name t there,
            get-remove (n, s) (ns, name) c.tables_by_name,
            get-remove m.id t.id c.tables_by_id,
            eq_iff name s,
          );
          filed = λ id m. ground (arith, v.filed id m, get-remove id t.id c.tables_by_id);
          owned =
              λ n s m. ground (arith, v.owned n s m, get-remove (n, s) (ns, name) c.tables_by_name);
          namespaces_below = v.namespaces_below;
          namespaces_differ = v.namespaces_differ;
        })
]

-- `drop_table` keeps the catalog valid, whether or not the table exists.
pub drop_table-IsValid :
    (c : Catalog) (namespace name : String) → IsValid c → IsValid (drop_table c namespace name).0
unfolding drop_table
drop_table-IsValid c namespace name v = elim (Option-cases (namespace_id c namespace)) [
  | inl missing ↦ rw (missing, drop_table) v
  | inr (ns, there) ↦ rw (there, drop_table) (remove_table-IsValid c ns name v)
]

pub create_namespace-IsValid :
    (c : Catalog) (s : String) → HasRoom c → IsValid c → IsValid (create_namespace c s).0
unfolding create_namespace
create_namespace-IsValid c s room v = unfold ensure_namespace in ensure_namespace-IsValid c s room v

-- The catalogs that a session can reach from a new one.
pub data Reach : Catalog → Type 0 where
  start : Reach new
  namespace_created :
      {c : Catalog} (s : String) → Reach c → HasRoom c → Reach (create_namespace c s).0
  table_created :
      {c : Catalog} (namespace name : String) (schema : Schema) (format : Option String)
      → Reach c
      → HasRoom c
      → Reach (create_table c namespace name schema format).0
  table_dropped :
      {c : Catalog} (namespace name : String) → Reach c → Reach (drop_table c namespace name).0

-- Every catalog that namespace creations, table creations and drops lead to from a new one is
-- valid, as long as no identifier counter wraps: a name leads to a table filed under its own
-- identifier and name, and identifiers in use are below the next one.
pub Reach-IsValid : {c : Catalog} → Reach c → IsValid c
Reach-IsValid start = new-IsValid
Reach-IsValid (namespace_created s r room) = create_namespace-IsValid _ s room (Reach-IsValid r)
Reach-IsValid (table_created namespace name schema format r room) =
    create_table-IsValid _ namespace name schema format room (Reach-IsValid r)
Reach-IsValid (table_dropped namespace name r) =
    drop_table-IsValid _ namespace name (Reach-IsValid r)
