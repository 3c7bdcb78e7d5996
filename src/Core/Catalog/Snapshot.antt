-- ===== src/Core/Catalog/Snapshot.antt =====
-- The loops that load a snapshot in crates/rustafari-core/src/catalog.rs, and what they leave in the maps
-- of a catalog.
pub mod RoundTrip
use rustafari_db.Common.{
  ℕ, ◌+◌, ◌<◌, ◌≤◌, ◌≡◌, refl, ◌∙◌, sym, ap, String, Bool, true, false, List, [], ◌∷◌, Option, none,
  some, map, arith, All, u64_mod, next_u64, ◌==◌, ltb, Option-cases, inl, inr, if◌then◌else◌,
}
use rustafari_db.Common.HashMap
use rustafari_db.Common.HashMap.{
  HashMap, nat_eq, string_eq, pair_eq, pair_beq_iff, get-insert, get-empty, IsMap, entries_found,
}
use rustafari_db.Core.Schema.{rebuild_name_to_index}
use rustafari_db.Core.Catalog.{
  Catalog, NamespaceId, TableId, TableMeta, namespace_id, get_table, get_table_by_id, to_snapshot,
  load_snapshot, load_namespaces, load_tables, max_u64,
}
use rustafari_db.Core.Catalog.Invariant.{IsValid, HasRoom}

-- A table as it is read back.
abbrev pub rebuilt : TableMeta → TableMeta
rebuilt t = record t { schema = rebuild_name_to_index t.schema }

abbrev pub rebuilt_option : Option TableMeta → Option TableMeta
rebuilt_option none = none
rebuilt_option (some t) = some (rebuilt t)

abbrev pub first_of {ℓ} : {A : Type ℓ} → Option A → Option A → Option A
first_of none o = o
first_of (some a) o = some a

pub get-load_namespaces :
    (xs : HashMap String NamespaceId) (n : ℕ) (m : HashMap String NamespaceId) (s : String)
    → IsMap xs
    → HashMap.get s (load_namespaces xs n m).1 ≡ first_of (HashMap.get s xs) (HashMap.get s m)
unfolding load_namespaces HashMap.get
get-load_namespaces [] n m s f = refl
get-load_namespaces ((name, id) ∷ rest) n m s f = ground (
  arith,
  get-load_namespaces rest (max_u64 n id) (HashMap.insert name id m) s f.1,
  get-insert s name id m,
  f.0,
  string_eq.beq_iff name s,
)

-- The greatest identifier of the namespaces, or the start where that is greater.
pub load_namespaces-bound :
    (xs : HashMap String NamespaceId) (n : ℕ) (m : HashMap String NamespaceId) (s : String)
    (id : NamespaceId)
    → (n ≤ (load_namespaces xs n m).0)
      × (HashMap.get s xs ≡ some id → id ≤ (load_namespaces xs n m).0)
unfolding load_namespaces HashMap.get
load_namespaces-bound [] n m s id = (omega arith, λ e. absurd (cc e))
load_namespaces-bound ((name, k) ∷ rest) n m s id =
    let more = load_namespaces-bound rest (max_u64 n k) (HashMap.insert name k m) s id in
    (ground (arith, more.0), ground (arith, more.0, more.1))

-- The last table of the list that has the namespace and the name.
pub find_named : NamespaceId × String → List TableMeta → Option TableMeta
find_named key [] = none
find_named key (t ∷ ts) =
    first_of (find_named key ts) (if pair_eq.beq (t.namespace_id, t.name) key then some t else none)

pub load_tables-namespaces :
    (ts : List TableMeta) (n : ℕ) (c : Catalog) → (load_tables ts n c).1.namespaces ≡ c.namespaces
unfolding load_tables
load_tables-namespaces [] n c = refl
load_tables-namespaces (t ∷ ts) n c = load_tables-namespaces ts (max_u64 n t.id) _

pub get_by_name-load_tables :
    (ts : List TableMeta) (n : ℕ) (c : Catalog) (key : NamespaceId × String)
    → HashMap.get key (load_tables ts n c).1.tables_by_name
      ≡ first_of (rebuilt_option (find_named key ts)) (HashMap.get key c.tables_by_name)
unfolding load_tables find_named
get_by_name-load_tables [] n c key = refl
get_by_name-load_tables (t ∷ ts) n c key =
    let meta = rebuilt t in
    ground (
      arith,
      get_by_name-load_tables ts (max_u64 n t.id)
          (record c {
            tables_by_name = HashMap.insert (t.namespace_id, t.name) meta c.tables_by_name;
            tables_by_id = HashMap.insert t.id meta c.tables_by_id;
          })
          key,
      get-insert key (t.namespace_id, t.name) meta c.tables_by_name,
    )

-- Every table stands under its own identifier.
abbrev pub Filed : HashMap TableId TableMeta → Type 0
Filed = All (λ e. e.1.id ≡ e.0)

pub get_by_id-load_tables :
    (m : HashMap TableId TableMeta) (n : ℕ) (c : Catalog) (id : TableId)
    → IsMap m
    → Filed m
    → HashMap.get id (load_tables (HashMap.values m) n c).1.tables_by_id
      ≡ first_of (rebuilt_option (HashMap.get id m)) (HashMap.get id c.tables_by_id)
unfolding load_tables HashMap.get
get_by_id-load_tables [] n c id f a = refl
get_by_id-load_tables ((k, t) ∷ m) n c id f a =
    let meta = rebuilt t in
    ground (
      arith,
      get_by_id-load_tables m (max_u64 n t.id)
          (record c {
            tables_by_name = HashMap.insert (t.namespace_id, t.name) meta c.tables_by_name;
            tables_by_id = HashMap.insert t.id meta c.tables_by_id;
          })
          id f.1 a.1,
      get-insert id t.id meta c.tables_by_id,
      a.0,
      f.0,
    )

pub load_tables-bound :
    (m : HashMap TableId TableMeta) (n : ℕ) (c : Catalog) (id : TableId) (t : TableMeta)
    → Filed m
    → (n ≤ (load_tables (HashMap.values m) n c).0)
      × (HashMap.get id m ≡ some t → id ≤ (load_tables (HashMap.values m) n c).0)
unfolding load_tables HashMap.get
load_tables-bound [] n c id t a = (omega arith, λ e. absurd (cc e))
load_tables-bound ((k, u) ∷ m) n c id t a =
    let meta = rebuilt u in
    let more =
      load_tables-bound m (max_u64 n u.id)
        (record c {
          tables_by_name = HashMap.insert (u.namespace_id, u.name) meta c.tables_by_name;
          tables_by_id = HashMap.insert u.id meta c.tables_by_id;
        })
        id t a.1 in
    (ground (arith, more.0), ground (arith, more.0, more.1, a.0))

-- Each table of the catalog is the one that its name gives.
abbrev pub EachNamed : Catalog → Type 0
EachNamed c =
    (id : TableId) (t : TableMeta)
    → HashMap.get id c.tables_by_id ≡ some t
    → HashMap.get (t.namespace_id, t.name) c.tables_by_name ≡ some t

abbrev pub Named : HashMap (NamespaceId × String) TableMeta → List TableMeta → Type 0
Named names = All (λ t. HashMap.get (t.namespace_id, t.name) names ≡ some t)

pub find_named-Named :
    (names : HashMap (NamespaceId × String) TableMeta) (ts : List TableMeta)
    (key : NamespaceId × String) (t : TableMeta)
    → Named names ts
    → find_named key ts ≡ some t
    → HashMap.get key names ≡ some t
unfolding find_named
find_named-Named names [] key t a e = absurd (cc e)
find_named-Named names (u ∷ ts) key t a e =
    ground (
      arith,
      find_named-Named names ts key t a.1,
      a.0,
      e,
      pair_beq_iff (u.namespace_id, u.name) key,
    )

-- A table that is filed is found by its name.
pub find_named-filed :
    (m : HashMap TableId TableMeta) (id : TableId) (t : TableMeta)
    → HashMap.get id m ≡ some t
    → find_named (t.namespace_id, t.name) (HashMap.values m) ≡ none
    → ⊥
unfolding find_named HashMap.get
find_named-filed [] id t e missing = cc e
find_named-filed ((k, u) ∷ m) id t e missing = ground (
  arith,
  e,
  missing,
  find_named-filed m id t,
  pair_beq_iff (u.namespace_id, u.name) (t.namespace_id, t.name),
)

pub load_namespaces-least :
    (xs : HashMap String NamespaceId) (n b : ℕ) (m : HashMap String NamespaceId)
    → n < b
    → All (λ e. e.1 < b) xs
    → (load_namespaces xs n m).0 < b
unfolding load_namespaces
load_namespaces-least [] n b m l a = l
load_namespaces-least ((name, k) ∷ rest) n b m l a =
    load_namespaces-least rest (max_u64 n k) b (HashMap.insert name k m) (ground (arith, l, a.0))
      a.1

pub load_tables-least :
    (ts : List TableMeta) (n b : ℕ) (c : Catalog)
    → n < b
    → All (λ t. t.id < b) ts
    → (load_tables ts n c).0 < b
unfolding load_tables
load_tables-least [] n b c l a = l
load_tables-least (t ∷ ts) n b c l a =
    load_tables-least ts (max_u64 n t.id) b _ (ground (arith, l, a.0)) a.1

pub first_of-none {ℓ} : {A : Type ℓ} (o : Option A) → first_of o none ≡ o
first_of-none none = refl
first_of-none (some a) = refl
