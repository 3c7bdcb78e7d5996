-- ===== src/Storage/Wal.antt =====
-- crates/rustafari-storage/src/wal.rs. `to_vec` of serde_json is a parameter, and so is what the
-- operating system does of a write; the buffer of `BufWriter` is that of the standard library.
pub mod Frames
pub mod Log
pub mod Writes
use rustafari_db.Common.{
  ℕ, zero, suc, ◌+◌, ◌-◌, ◌/◌, ◌%◌, ◌^◌, String, Bool, true, false, List, [], ◌∷◌, ◌++◌, Option,
  none, some, length, take, drop, ltb, leb, if◌then◌else◌,
}
use rustafari_db.Core.Error.{RustafariError, Result, ok, err, panic, io}

pub data WalRecord : Type 0 where
  begin : ℕ → WalRecord
  insert : ℕ → ℕ → List ℕ → WalRecord
  delete : ℕ → ℕ → WalRecord
  update : ℕ → ℕ → List ℕ → WalRecord
  commit abort : ℕ → WalRecord

-- The bytes of the file, and those that wait in the buffer.
pub record WalWriter : Type 0 where
  pub file : List ℕ
  pub buffer : List ℕ

-- A file that is opened is created where it is missing, and appended to where it is there.
abbrev pub open_file : List ℕ → WalWriter
open_file contents = record { file = contents; buffer = [] }

abbrev pub buffer_capacity : ℕ
buffer_capacity = 8192

-- What the system does of a write to a file with the given bytes: it takes them all, or some of them
-- before an error.
abbrev pub System : Type 0
System = List ℕ → List ℕ → Option (ℕ × String)

-- A step on a writer: its outcome, and the writer that it leaves in every case.
abbrev pub Write : Type 0
Write = WalWriter → Result (Unit {0}) × WalWriter

infixl 5 ◌>>◌
abbrev pub ◌>>◌ : Write → Write → Write
◌>>◌ m n w = let (r, w') = m w in elim r [ ok _ ↦ n w' | err e ↦ (err e, w') | panic ↦ (panic, w') ]

-- `u32::to_le_bytes`
abbrev pub le_bytes : ℕ → ℕ → List ℕ
le_bytes zero n = []
le_bytes (suc k) n = (n % 256) ∷ le_bytes k (n / 256)

module _ (system : System) where
  -- `File::write_all`
  unfoldable pub write_file : List ℕ → Write
  write_file bytes w = elim (system w.file bytes) [
    | none ↦ (ok tt, record w { file = w.file ++ bytes })
    | some (n, e) ↦ (err (io e), record w { file = w.file ++ take n bytes })
  ]

  -- What the system does not take stays in the buffer.
  unfoldable pub write_buffer : Write
  write_buffer w = elim (system w.file w.buffer) [
    | none ↦ (ok tt, record { file = w.file ++ w.buffer; buffer = [] })
    | some (n, e) ↦
        (err (io e), record { file = w.file ++ take n w.buffer; buffer = drop n w.buffer })
  ]

  -- `BufWriter::flush`: an empty buffer asks nothing of the system.
  unfoldable pub flush : Write
  unfolding write_buffer
  flush w = elim w.buffer [ [] ↦ (ok tt, w) | _ ↦ write_buffer w ]

  -- The bytes are copied to the buffer, or written at once where they fill it.
  unfoldable pub store_bytes : List ℕ → Write
  unfolding write_file
  store_bytes bytes w =
      if leb buffer_capacity (length bytes)
      then write_file bytes w
      else (ok tt, record w { buffer = w.buffer ++ bytes })

  -- `BufWriter::write_all`: a buffer with too little room is flushed first.
  unfoldable pub write_all : List ℕ → Write
  unfolding flush store_bytes
  write_all bytes w =
      if ltb (buffer_capacity - length w.buffer) (length bytes)
      then (flush >> store_bytes bytes) w
      else store_bytes bytes w

  -- `to_vec` encodes a record, or fails with an error.
  unfoldable pub append : (WalRecord → Result (List ℕ)) → WalRecord → Write
  unfolding write_all flush
  append to_vec entry w = elim (to_vec entry) [
    | ok bytes ↦ (write_all (le_bytes 4 (length bytes % 2 ^ 32)) >> write_all bytes >> flush) w
    | err e ↦ (err e, w)
    | panic ↦ (panic, w)
  ]
