-- ===== src/Core/Catalog/Snapshot/RoundTrip.antt =====
-- The snapshot of a catalog of crates/rustafari-core/src/catalog.rs read back.
use rustafari_db.Common.{
  ℕ, ◌+◌, ◌<◌, ◌≡◌, ◌≢◌, ◌∙◌, sym, ap, String, [], ◌∷◌, none, some, arith, All, Option-cases, inl,
  inr,
}
use rustafari_db.Common.HashMap
use rustafari_db.Common.HashMap.{
  HashMap, nat_eq, string_eq, pair_eq, pair_beq_iff, get-insert, get-empty, IsMap, entries_found,
}
use rustafari_db.Core.Catalog.{
  Catalog, NamespaceId, TableId, TableMeta, namespace_id, get_table, get_table_by_id, to_snapshot,
  load_snapshot, load_namespaces,
}
use rustafari_db.Core.Catalog.Invariant.{IsValid, HasRoom}
use rustafari_db.Core.Catalog.Snapshot.{
  rebuilt_option, get-load_namespaces, load_namespaces-bound, find_named, load_tables-namespaces,
  get_by_name-load_tables, Filed, get_by_id-load_tables, load_tables-bound, EachNamed, Named,
  find_named-Named, find_named-filed, load_namespaces-least, load_tables-least, first_of-none,
}

module _ (c0 c : Catalog) (v : IsValid c) (room : HasRoom c) (n_map : IsMap c.namespaces)
    (t_map : IsMap c.tables_by_id) (named : EachNamed c) where
  abbrev loaded : Catalog
  loaded = load_snapshot c0 (to_snapshot c)

  namespaces_least :
      (xs : HashMap String NamespaceId)
      → All (λ e. HashMap.get e.0 c.namespaces ≡ some e.1) xs
      → All (λ e. e.1 < c.next_namespace_id + 1) xs
  namespaces_least [] a = tt
  namespaces_least (e ∷ xs) a =
      (omega (arith, v.namespaces_below e.0 e.1 a.0), namespaces_least xs a.1)

  filed_tables :
      (m : HashMap TableId TableMeta)
      → All (λ e. HashMap.get e.0 c.tables_by_id ≡ some e.1) m
      → Filed m
        × All (λ t. t.id < c.next_table_id + 1) (HashMap.values m)
        × Named c.tables_by_name (HashMap.values m)
  filed_tables [] a = (tt, tt, tt)
  filed_tables (e ∷ m) a =
      let (same, below) = v.filed e.0 e.1 a.0 in
      let (f, l, n) = filed_tables m a.1 in
      ((same, f), (omega (arith, same, below), l), (named e.0 e.1 a.0, n))

  abbrev all_filed :
      Filed c.tables_by_id
      × All (λ t. t.id < c.next_table_id + 1) (HashMap.values c.tables_by_id)
      × Named c.tables_by_name (HashMap.values c.tables_by_id)
  all_filed = filed_tables c.tables_by_id (entries_found c.tables_by_id t_map)

  loaded_namespaces : (s : String) → namespace_id loaded s ≡ namespace_id c s
  unfolding namespace_id load_snapshot to_snapshot HashMap.get
  loaded_namespaces s =
      ap (HashMap.get s) (load_tables-namespaces (HashMap.values c.tables_by_id) 0 _)
      ∙ get-load_namespaces c.namespaces 0 [] s n_map
      ∙ first_of-none (HashMap.get s c.namespaces)

  find_named-same :
      (key : NamespaceId × String)
      → find_named key (HashMap.values c.tables_by_id) ≡ HashMap.get key c.tables_by_name
  find_named-same key =
      let ts = HashMap.values c.tables_by_id in
      elim (Option-cases (find_named key ts)) [
        | inr (t, found) ↦
            found ∙ sym (find_named-Named c.tables_by_name ts key t all_filed.2 found)
        | inl missing ↦ elim (Option-cases (HashMap.get key c.tables_by_name)) [
          | inl none_there ↦ missing ∙ sym none_there
          | inr (t, there) ↦
              let (filed, n_is, name_is) = v.named key.0 key.1 t there in
              absurd (
                find_named-filed c.tables_by_id t.id t filed (
                  ap (λ n. find_named (n, t.name) ts) n_is
                  ∙ ap (λ s. find_named (key.0, s) ts) name_is
                  ∙ missing))
        ]
      ]

  loaded_by_name :
      (key : NamespaceId × String)
      → HashMap.get key loaded.tables_by_name ≡ rebuilt_option (HashMap.get key c.tables_by_name)
  unfolding load_snapshot to_snapshot HashMap.get
  loaded_by_name key =
      get_by_name-load_tables (HashMap.values c.tables_by_id) 0 _ key
      ∙ first_of-none (rebuilt_option (find_named key (HashMap.values c.tables_by_id)))
      ∙ ap rebuilt_option (find_named-same key)

  loaded_by_id : (id : TableId) → get_table_by_id loaded id ≡ rebuilt_option (get_table_by_id c id)
  unfolding get_table_by_id load_snapshot to_snapshot HashMap.get
  loaded_by_id id =
      get_by_id-load_tables c.tables_by_id 0 _ id t_map all_filed.0
      ∙ first_of-none (rebuilt_option (HashMap.get id c.tables_by_id))

  loaded_table :
      (ns name : String) → get_table loaded ns name ≡ rebuilt_option (get_table c ns name)
  unfolding get_table
  loaded_table ns name = elim (Option-cases (namespace_id c ns)) [
    | inl missing ↦ ground (arith, missing, loaded_namespaces ns)
    | inr (n, there) ↦ ground (arith, there, loaded_namespaces ns, loaded_by_name (n, name))
  ]

  -- The next identifiers are above all those in use.
  loaded_fresh :
      ((s : String) (id : NamespaceId) → namespace_id c s ≡ some id → id < loaded.next_namespace_id)
      × ((id : TableId) (t : TableMeta) → get_table_by_id c id ≡ some t → id < loaded.next_table_id)
  unfolding load_snapshot to_snapshot namespace_id get_table_by_id
  loaded_fresh =
      let xs = c.namespaces in
      let m = c.tables_by_id in
      let max_ns : (load_namespaces xs 0 HashMap.empty).0 < c.next_namespace_id + 1 =
        load_namespaces-least xs 0 (c.next_namespace_id + 1) HashMap.empty (omega arith)
          (namespaces_least xs (entries_found xs n_map)) in
      let max_table =
        load_tables-least (HashMap.values m) 0 (c.next_table_id + 1)
          (record c0 {
            namespaces = (load_namespaces xs 0 HashMap.empty).1;
            tables_by_name = HashMap.empty;
            tables_by_id = HashMap.empty;
          })
          (omega arith) all_filed.1 in
      (
        λ s id there.
            let le = (load_namespaces-bound xs 0 HashMap.empty s id).1 there in
            omega (arith, le, max_ns, room.namespaces_left),
        λ id t there.
            let le =
              (load_tables-bound m 0
                  (record c0 {
                    namespaces = (load_namespaces xs 0 HashMap.empty).1;
                    tables_by_name = HashMap.empty;
                    tables_by_id = HashMap.empty;
                  })
                  id t all_filed.0).1
                there in
            omega (arith, le, max_table, room.tables_left),
      )

  no_table_after : (k : ℕ) → get_table_by_id loaded (loaded.next_table_id + k) ≡ none
  no_table_after k = elim (Option-cases (get_table_by_id c (loaded.next_table_id + k))) [
    | inl missing ↦ loaded_by_id (loaded.next_table_id + k) ∙ ap rebuilt_option missing
    | inr (t, there) ↦
        let below = loaded_fresh.1 (loaded.next_table_id + k) t there in
        absurd (omega (arith, below))
  ]

  no_namespace_after :
      (s : String) (k : ℕ) → namespace_id loaded s ≢ some (loaded.next_namespace_id + k)
  no_namespace_after s k e =
      let below = loaded_fresh.0 s (loaded.next_namespace_id + k) (sym (loaded_namespaces s) ∙ e) in
      omega (arith, below)

  -- A catalog loaded from the snapshot of another has its namespaces, and by name and by identifier its
  -- tables, each with the index of its columns built again; no identifier that it will give out is in
  -- use. The other catalog is valid, its counters do not wrap, its maps hold no key twice, and each of
  -- its tables is the one that its name gives.
  pub load_snapshot-to_snapshot :
      ((s : String) → namespace_id loaded s ≡ namespace_id c s)
      × ((ns name : String) → get_table loaded ns name ≡ rebuilt_option (get_table c ns name))
      × ((id : TableId) → get_table_by_id loaded id ≡ rebuilt_option (get_table_by_id c id))
      × ((k : ℕ) → get_table_by_id loaded (loaded.next_table_id + k) ≡ none)
      × ((s : String) (k : ℕ) → namespace_id loaded s ≢ some (loaded.next_namespace_id + k))
  load_snapshot-to_snapshot =
      (loaded_namespaces, loaded_table, loaded_by_id, no_table_after, no_namespace_after)
