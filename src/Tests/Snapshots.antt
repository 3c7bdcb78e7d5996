-- ===== src/Tests/Snapshots.antt =====
-- The snapshot of the catalog with the table `people`, read back.
use rustafari_db.Common.{
  ℕ, ◌≡◌, ◌≢◌, ◌+◌, refl, ap, String, none, some, arith, subst, Bool-cases, inl, inr, ◌==◌,
}
use rustafari_db.Common.HashMap
use rustafari_db.Common.HashMap.{nat_eq, string_eq, pair_eq, IsMap}
use rustafari_db.Core.Catalog
use rustafari_db.Core.Catalog.{TableId, TableMeta}
use rustafari_db.Core.Catalog.Snapshot.{EachNamed, rebuilt_option}
use rustafari_db.Core.Catalog.Snapshot.RoundTrip.{load_snapshot-to_snapshot}
use rustafari_db.Executor.Write.{execute_create_table}
use rustafari_db.Tests.Fixtures.{people, created}
use rustafari_db.Tests.Session.{created_IsValid}
use rustafari_db.Tests.History.{created_room}

namespaces_IsMap : IsMap created.catalog.namespaces
unfolding execute_create_table Catalog.create_table Catalog.add_table Catalog.ensure_namespace
    HashMap.get HashMap.insert
namespaces_IsMap = (refl, tt)

tables_IsMap : IsMap created.catalog.tables_by_id
unfolding execute_create_table Catalog.create_table Catalog.add_table Catalog.ensure_namespace
    HashMap.get HashMap.insert
tables_IsMap = (refl, tt)

created-EachNamed : EachNamed created.catalog
unfolding execute_create_table Catalog.create_table Catalog.add_table Catalog.ensure_namespace
    HashMap.get HashMap.insert
created-EachNamed id t e = elim (Bool-cases (0 == id)) [
  | inl first ↦
      let there : some people ≡ some t = ground (arith, e, first) in
      let same : people ≡ t = ap (λ o. elim o [ none ↦ people | some x ↦ x ]) there in
      subst (λ x. HashMap.get (x.namespace_id, x.name) created.catalog.tables_by_name ≡ some x) same
        refl
  | inr other ↦ absurd (ground (arith, e, other))
]

abbrev reloaded : Catalog.Catalog
reloaded = Catalog.load_snapshot Catalog.new (Catalog.to_snapshot created.catalog)

load_snapshot-to_snapshot_example :
    ((s : String) → Catalog.namespace_id reloaded s ≡ Catalog.namespace_id created.catalog s)
    × ((ns name : String)
        → Catalog.get_table reloaded ns name
          ≡ rebuilt_option (Catalog.get_table created.catalog ns name))
    × ((id : TableId)
        → Catalog.get_table_by_id reloaded id
          ≡ rebuilt_option (Catalog.get_table_by_id created.catalog id))
    × ((k : ℕ) → Catalog.get_table_by_id reloaded (reloaded.next_table_id + k) ≡ none)
    × ((s : String) (k : ℕ)
        → Catalog.namespace_id reloaded s ≢ some (reloaded.next_namespace_id + k))
load_snapshot-to_snapshot_example =
    load_snapshot-to_snapshot Catalog.new created.catalog created_IsValid created_room
      namespaces_IsMap tables_IsMap created-EachNamed
