-- ===== src/Executor/Plan/Reads.antt =====
-- Queries of crates/rustafari-executor/src/lib.rs and the state that they leave.
use rustafari_db.Common.{String, refl, ◌≡◌, ◌∙◌, arith}
use rustafari_db.Common.HashMap.{HashMap}
use rustafari_db.Core.Catalog.{Catalog, TableId}
use rustafari_db.Core.Host.{Host}
use rustafari_db.Core.Schema.{Schema}
use rustafari_db.Core.Value.{Value}
use rustafari_db.Index.BTree.{BTreeIndex}
use rustafari_db.Storage.TableStore.{TableStore}
use rustafari_db.Sql.Plan.{PlanNode}
use rustafari_db.Executor.State.{SessionState, flush_columnar_buffer, store_chunk}
use rustafari_db.Executor.Plan.{execute_node}
use rustafari_db.Executor.Plan.Kept.{IsQuery, query-Keeps}

module _ {h : Host} where
  -- The catalog, the rows and the indexes.
  abbrev pub data_of :
      SessionState h → Catalog × TableStore h × HashMap (TableId × String) BTreeIndex
  data_of s = (s.catalog, s.row_store, s.index_store)

  pub flush-data_of :
      (t : TableId) (schema : Schema) (s : SessionState h)
      → data_of (flush_columnar_buffer t schema s) ≡ data_of s
  unfolding flush_columnar_buffer store_chunk
  flush-data_of t schema s = ground arith

  -- A query leaves the catalog, the rows and the indexes as they are, whether it ends in rows, an
  -- error or a panic: what it may change is the columnar buffer and the columnar store, by a flush.
  pub query-data_of :
      (debug : Value h → String) (p : PlanNode h) (s : SessionState h)
      → IsQuery p
      → data_of (execute_node debug p s).1 ≡ data_of s
  query-data_of debug p s q =
      query-Keeps (λ z. data_of z ≡ data_of s)
        (λ input z meta _ e. flush-data_of meta.id meta.schema z ∙ e) debug p s q refl
