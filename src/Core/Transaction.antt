-- ===== src/Core/Transaction.antt =====
-- crates/rustafari-core/src/transaction.rs. The clock that stamps a context is an argument.
use rustafari_db.Common.{ℕ}
use rustafari_db.Core.Host.{Host}

abbrev pub TransactionId : Type 0
TransactionId = ℕ

abbrev pub none_id : TransactionId
none_id = 0

pub data IsolationLevel : Type 0 where
  read_uncommitted read_committed repeatable_read serializable : IsolationLevel

abbrev pub default_isolation : IsolationLevel
default_isolation = read_committed

pub data TransactionState : Type 0 where
  active committed aborted : TransactionState

pub record TransactionContext (h : Host) : Type 0 where
  pub id : TransactionId
  pub snapshot_ts : h.Timestamp
  pub isolation : IsolationLevel
  pub state : TransactionState

-- `now` is what `Utc::now()` returns.
unfoldable pub new :
    {h : Host} → TransactionId → IsolationLevel → h.Timestamp → TransactionContext h
new id isolation now = record { id = id; snapshot_ts = now; isolation = isolation; state = active }
