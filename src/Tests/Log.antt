-- ===== src/Tests/Log.antt =====
-- The theorems on the write-ahead log and on Arrow arrays.
use rustafari_db.Common.{
  ℕ, ◌≡◌, refl, String, true, List, [], ◌∷◌, ◌++◌, Option, none, some, length, arith, inl,
}
use rustafari_db.Common.Int.{ℤ, pos}
use rustafari_db.Core.Error.{Result, ok}
use rustafari_db.Core.Host.{F64}
use rustafari_db.Core.Value.{Value, int64, null}
use rustafari_db.Storage.Wal.{
  WalRecord, WalWriter, open_file, System, write_file, flush, store_bytes, write_all, append,
}
use rustafari_db.Storage.Wal.Frames.{frame, Records, append-Records}
use rustafari_db.Storage.Wal.Log.{read_log, append_all, read_log-append_all}
use rustafari_db.Storage.Wal.Writes.{append_all-read_log}
use rustafari_db.Executor.Arrow.{BuilderOf, Arrow, ArrowType, column_to_arrow}
use rustafari_db.Executor.Arrow.Slots.{HoldsCalls, IsArrayOf, column_to_arrow-IsArrayOf}
use rustafari_db.Tests.Fixtures.{host}

-- An encoder that writes the kind of a record, and a system that takes every write.
abbrev kind_of : WalRecord → Result (List ℕ)
kind_of (WalRecord.begin tx) = ok (1 ∷ [])
kind_of (WalRecord.commit tx) = ok (2 ∷ 2 ∷ [])
kind_of _ = ok []

abbrev takes_all : System
takes_all file bytes = none

-- A disk with room for three more bytes.
abbrev almost_full : System
almost_full file bytes = some (3, "no space left on device")

abbrev begin_commit : List WalRecord
begin_commit = WalRecord.begin 1 ∷ WalRecord.commit 1 ∷ []

abbrev logged : WalWriter
logged = record { file = 1 ∷ 0 ∷ 0 ∷ 0 ∷ 1 ∷ 2 ∷ 0 ∷ 0 ∷ 0 ∷ 2 ∷ 2 ∷ []; buffer = [] }

logged_bytes : append_all takes_all kind_of begin_commit (open_file []) ≡ (ok tt, logged)
unfolding append_all append write_all store_bytes write_file flush
logged_bytes = refl

append-Records_example :
    Records
      (frame (1 ∷ []))
      (open_file [])
      (append almost_full kind_of (WalRecord.begin 1) (open_file []))
append-Records_example =
    append-Records almost_full kind_of (WalRecord.begin 1) (1 ∷ []) (open_file []) refl

read_log-append_all_example :
    read_log (length logged.file) logged.file ≡ some ((1 ∷ []) ∷ (2 ∷ 2 ∷ []) ∷ [])
read_log-append_all_example =
    read_log-append_all takes_all kind_of begin_commit ((1 ∷ []) ∷ (2 ∷ 2 ∷ []) ∷ []) logged
      (refl, omega arith, (refl, omega arith, tt)) logged_bytes

append_all-read_log_example :
    (w : WalWriter) × (append_all takes_all kind_of begin_commit (open_file []) ≡ (ok tt, w))
    × (read_log (length w.file) w.file ≡ some ((1 ∷ []) ∷ (2 ∷ 2 ∷ []) ∷ []))
append_all-read_log_example =
    append_all-read_log takes_all (λ file bytes. refl) kind_of begin_commit
      ((1 ∷ []) ∷ (2 ∷ 2 ∷ []) ∷ []) (refl, omega arith, (refl, omega arith, tt))

-- Arrays as lists of slots.
record Slots : Type 0 where
  ints : List (Option ℤ)
  floats : List (Option F64)
  texts : List (Option String)

abbrev list_builder : {A : Type 0} → (List (Option A) → Slots) → BuilderOf A Slots
list_builder {A} f = record {
  Builder = List (Option A);
  empty = [];
  append_value = λ b a. b ++ some a ∷ [];
  append_null = λ b. b ++ none ∷ [];
  finish = f;
}

abbrev list_arrow : Arrow
list_arrow = record {
  ArrayRef = Slots;
  Batch = List Slots;
  int64_builder = list_builder (λ s. record { ints = s; floats = []; texts = [] });
  float64_builder = list_builder (λ s. record { ints = []; floats = s; texts = [] });
  string_builder = list_builder (λ s. record { ints = []; floats = []; texts = s });
  no_int64 = record { ints = []; floats = []; texts = [] };
  try_new = λ fields arrays. inl arrays;
}

abbrev holds_calls :
    {A : Type 0} (f : List (Option A) → Slots) (g : Slots → List (Option A))
    → ((s : List (Option A)) → g (f s) ≡ s)
    → HoldsCalls (list_builder f)
holds_calls f g k = record {
  given = λ s. s;
  slots = g;
  given_empty = refl;
  given_value = λ x a. refl;
  given_null = λ x. refl;
  slots_finish = k;
}

abbrev null_first : List (Value host)
null_first = int64 (pos 5) ∷ []

column_to_arrow-IsArrayOf_example :
    (arr : Slots) × (t : ArrowType) × (column_to_arrow list_arrow
        (record { column_name = "n"; values = null ∷ null_first })
      ≡ ok (arr, record { name = "n"; data_type = t; nullable = true }))
    × IsArrayOf list_arrow
        (holds_calls _ (λ s. s.ints) (λ s. refl))
        (holds_calls _ (λ s. s.floats) (λ s. refl))
        (holds_calls _ (λ s. s.texts) (λ s. refl))
        null
        (null ∷ null_first)
        (arr, t)
column_to_arrow-IsArrayOf_example =
    column_to_arrow-IsArrayOf list_arrow (holds_calls _ (λ s. s.ints) (λ s. refl))
      (holds_calls _ (λ s. s.floats) (λ s. refl)) (holds_calls _ (λ s. s.texts) (λ s. refl)) "n"
      null null_first
