-- ===== src/Executor/Group/Projected.antt =====
-- ORDER BY over a projection in crates/rustafari-executor/src/lib.rs: the index that the table's schema
-- gives a column is used on rows that hold the projected columns alone.
use rustafari_db.Common.{
  ℕ, zero, suc, ◌≡◌, refl, ◌∙◌, ◌≤◌, ap, String, Bool, List, [], ◌∷◌, none, map, arith, All, eq,
  length, get_elem?, Ordering,
}
use rustafari_db.Common.Sort.{sort_by, insert_sorted}
use rustafari_db.Core.Catalog.{TableMeta}
use rustafari_db.Core.Error.{ok}
use rustafari_db.Core.Host.{Host}
use rustafari_db.Core.Row
use rustafari_db.Core.Row.{Row}
use rustafari_db.Core.Schema.{Schema}
use rustafari_db.Core.Value.{Value}
use rustafari_db.Sql.Plan.{PlanNode}
use rustafari_db.Executor.Predicate.{compare_vals}
use rustafari_db.Executor.State.{SessionState}
use rustafari_db.Executor.Read.{rows, scan_meta, project_values, execute_project}
use rustafari_db.Executor.Group.{find_order, compare_rows, execute_order_by}
use rustafari_db.Executor.Plan.{execute_node}

get_elem?-past {ℓ} : {A : Type ℓ} (xs : List A) (i : ℕ) → length xs ≤ i → get_elem? xs i ≡ none
get_elem?-past [] i l = refl
get_elem?-past (x ∷ xs) zero l = absurd (omega arith)
get_elem?-past (x ∷ xs) (suc i) l = get_elem?-past xs i (omega arith)

module _ {ℓ κ} {A : Type ℓ} (cmp : A → A → Ordering) (P : A → Type κ)
    (alike : (a b : A) → P a → P b → cmp a b ≡ eq) where
  -- A list whose elements compare alike is left as it is.
  sort_by-alike : (xs : List A) → All P xs → sort_by cmp xs ≡ xs
  unfolding sort_by insert_sorted
  sort_by-alike [] a = refl
  sort_by-alike (x ∷ []) a = refl
  sort_by-alike (x ∷ y ∷ xs) (p, a) =
      ap (insert_sorted cmp x) (sort_by-alike (y ∷ xs) a) ∙ rw (alike x y p a.0, insert_sorted) refl

-- The order's columns lie past the first `n`.
abbrev pub LiesPast : ℕ → List (ℕ × Bool) → Type 0
LiesPast n = All (λ c. n ≤ c.0)

module _ {h : Host} where
  -- The row has no more values than `n`.
  abbrev HasAtMost : ℕ → Row h → Type 0
  HasAtMost n row = length row.values ≤ n

  compare_rows-past :
      (n : ℕ) (order : List (ℕ × Bool)) (a b : Row h)
      → LiesPast n order
      → HasAtMost n a
      → HasAtMost n b
      → compare_rows order a b ≡ eq
  unfolding compare_rows compare_vals Row.get
  compare_rows-past n [] a b p la lb = refl
  compare_rows-past n ((i, asc) ∷ order) a b p la lb = ground (
    arith,
    get_elem?-past a.values i (omega (arith, p.0)),
    get_elem?-past b.values i (omega (arith, p.0)),
    compare_rows-past n order a b p.1 la lb,
  )

  length-project_values :
      (schema : Schema) (row : Row h) (cs : List String)
      → length (project_values schema row cs) ≤ length cs
  unfolding project_values Row.get
  length-project_values schema row [] = omega arith
  length-project_values schema row (c ∷ cs) = ground (arith, length-project_values schema row cs)

  projected : Schema → List String → List (Row h) → List (Row h)
  projected schema cs = map (λ row. Row.new (project_values schema row cs))

  projected-HasAtMost :
      (schema : Schema) (cs : List String) (rs : List (Row h))
      → All (HasAtMost (length cs)) (projected schema cs rs)
  unfolding projected Row.new
  projected-HasAtMost schema cs [] = tt
  projected-HasAtMost schema cs (r ∷ rs) =
      (length-project_values schema r cs, projected-HasAtMost schema cs rs)

module _ {h : Host} (debug : Value h → String) where
  -- ORDER BY over a projection does nothing where each of its columns has an index in the table's schema
  -- that is at least the number of the projected columns: the rows stay as the projection gives them,
  -- also if they are out of order. The input yields rows, and the columns are found.
  pub order_by-project :
      (input : PlanNode h) (cs : List String) (columns : List (String × Bool))
      (found : List (Row h)) (s s' : SessionState h) (meta : TableMeta) (order : List (ℕ × Bool))
      → execute_node debug input s ≡ (ok (rows found), s')
      → scan_meta s' input ≡ ok meta
      → find_order meta.schema columns ≡ ok order
      → LiesPast (length cs) order
      → execute_node debug (PlanNode.order_by (PlanNode.project input cs) columns) s
        ≡ execute_node debug (PlanNode.project input cs) s
  unfolding execute_node execute_order_by execute_project projected scan_meta
  order_by-project input cs columns found s s' meta order e1 e2 e3 past =
      let out = projected meta.schema cs found in
      let same : sort_by (compare_rows order) out ≡ out =
        sort_by-alike (compare_rows order) (HasAtMost (length cs))
          (λ a b la lb. compare_rows-past (length cs) order a b past la lb) out
          (projected-HasAtMost meta.schema cs found) in
      ground (arith, e1, e2, e3, same)
