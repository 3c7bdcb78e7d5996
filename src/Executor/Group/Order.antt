-- ===== src/Executor/Group/Order.antt =====
-- ORDER BY of crates/rustafari-executor/src/lib.rs: a reordering of the input, in order.
use rustafari_db.Common.{
  ℕ, ◌+◌, ◌<◌, ◌≡◌, ◌≢◌, refl, ◌⊎◌, true, false, String, Bool, get_elem?, List, [], ◌∷◌, some,
  arith, All, gt,
}
use rustafari_db.Common.Int.{ℤ, pos, pos_part, neg_part}
use mathlib.Core.List.{Perm}
use rustafari_db.Common.Sort.{sort_by, sort_by-perm, sort_by-Ranked, Ranked, IsTotalPreorder}
use rustafari_db.Core.Catalog.{TableMeta}
use rustafari_db.Core.Error.{ok}
use rustafari_db.Core.Host.{Host}
use rustafari_db.Core.Row
use rustafari_db.Core.Row.{Row}
use rustafari_db.Core.Schema.{Schema, column_index}
use rustafari_db.Core.Value.{int64}
use rustafari_db.Sql.Plan.{PlanNode}
use rustafari_db.Executor.Predicate.{compare_vals, compare}
use rustafari_db.Executor.State.{SessionState, Exec}
use rustafari_db.Executor.Read.{ExecutionResult, rows, scan_meta}
use rustafari_db.Executor.Group.{find_order, compare_rows, execute_order_by}

-- A smaller integer comes before where the column ascends, and after where it descends.
abbrev pub Before : Bool → ℤ → ℤ → Type 0
Before true x y = pos_part x + neg_part y < pos_part y + neg_part x
Before false x y = pos_part y + neg_part x < pos_part x + neg_part y

-- The columns, by name and direction, stand in the schema at the indices.
abbrev pub Located : Schema → List (String × Bool) → List (ℕ × Bool) → Type 0
Located schema [] [] = Unit
Located schema (c ∷ cs) (o ∷ os) =
    (column_index schema c.0 ≡ some o.0) × (c.1 ≡ o.1) × Located schema cs os
Located schema _ _ = ⊥

find_order-Located :
    (schema : Schema) (columns : List (String × Bool)) (order : List (ℕ × Bool))
    → Located schema columns order
    → find_order schema columns ≡ ok order
unfolding find_order
find_order-Located schema [] [] l = refl
find_order-Located schema (c ∷ cs) (o ∷ os) l =
    ground (arith, l.0, l.1, find_order-Located schema cs os l.2)
find_order-Located schema [] (o ∷ os) l = absurd l
find_order-Located schema (c ∷ cs) [] l = absurd l

module _ {h : Host} where
  -- The columns of the order hold integers in the row.
  abbrev pub HasInts : List (ℕ × Bool) → Row h → Type 0
  HasInts order row = All (λ c. (a : ℤ) × (get_elem? row.values c.0 ≡ some (int64 a))) order

  -- The integers of the columns, negated in order where a column descends.
  total :
      (order : List (ℕ × Bool)) (a b : Row h)
      → HasInts order a
      → HasInts order b
      → compare_rows order a b ≡ gt
      → compare_rows order b a ≢ gt
  unfolding compare_rows compare_vals compare Row.get
  total [] a b ha hb g = cc
  total ((i, asc) ∷ order) a b ((x, ex), ha) ((y, ey), hb) g =
      ground (arith, ex, ey, total order a b ha hb)

  trans :
      (order : List (ℕ × Bool)) (a b c : Row h)
      → HasInts order a
      → HasInts order b
      → HasInts order c
      → compare_rows order a b ≢ gt
      → compare_rows order b c ≢ gt
      → compare_rows order a c ≢ gt
  unfolding compare_rows compare_vals compare Row.get
  trans [] a b c ha hb hc g k = g
  trans ((i, asc) ∷ order) a b c ((x, ex), ha) ((y, ey), hb) ((z, ez), hc) g k =
      ground (arith, ex, ey, ez, trans order a b c ha hb hc)

  HasInts-order : (order : List (ℕ × Bool)) → IsTotalPreorder (compare_rows order) (HasInts order)
  HasInts-order order = record { total = total order; trans = trans order }

  -- The integer at an index of a row.
  abbrev pub int_at : Row h → ℕ → ℤ
  int_at row i = elim (get_elem? row.values i) [ some (int64 a) ↦ a | _ ↦ pos 0 ]

  -- The first column whose integers differ has the one of the first row before that of the second.
  abbrev pub InOrder : List (ℕ × Bool) → Row h → Row h → Type 0
  InOrder [] a b = Unit
  InOrder ((i, asc) ∷ order) a b =
      Before asc (int_at a i) (int_at b i) ⊎ ((int_at a i ≡ int_at b i) × InOrder order a b)

  compare_rows-InOrder :
      (order : List (ℕ × Bool)) (a b : Row h)
      → HasInts order a
      → HasInts order b
      → compare_rows order a b ≢ gt
      → InOrder order a b
  unfolding compare_rows compare_vals compare Row.get
  compare_rows-InOrder [] a b ha hb g = tt
  compare_rows-InOrder ((i, asc) ∷ order) a b ((x, ex), ha) ((y, ey), hb) g =
      ground (arith, ex, ey, g, compare_rows-InOrder order a b ha hb)

  -- ORDER BY yields exactly the rows of its input, each as often as the input has it, in an order in
  -- which every row stands to each later one as the columns say: in the first column where the two
  -- differ, the earlier row has the smaller integer if the column ascends and the greater if it
  -- descends. The columns stand in the schema at the indices, the input yields rows, and the columns
  -- hold integers in all of them; the state is what the input left.
  pub order_by-Ranked :
      (input : PlanNode h) (columns : List (String × Bool)) (run : Exec h (ExecutionResult h))
      (found : List (Row h)) (s s' : SessionState h) (meta : TableMeta) (order : List (ℕ × Bool))
      → run s ≡ (ok (rows found), s')
      → scan_meta s' input ≡ ok meta
      → Located meta.schema columns order
      → All (HasInts order) found
      → (out : List (Row h)) × (execute_order_by input columns run s ≡ (ok (rows out), s'))
        × Perm out found
        × Ranked (InOrder order) out
  unfolding execute_order_by
  order_by-Ranked input columns run found s s' meta order e1 e2 located ints = (
    sort_by (compare_rows order) found,
    ground (arith, e1, e2, find_order-Located meta.schema columns order located),
    sort_by-perm (compare_rows order) found,
    sort_by-Ranked (compare_rows order) (HasInts order) (InOrder order) (compare_rows-InOrder order)
        (HasInts-order order) found ints,
  )
