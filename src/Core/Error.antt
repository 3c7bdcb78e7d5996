-- ===== src/Core/Error.antt =====
-- crates/rustafari-core/src/error.rs, with `Result` and a panic as a third outcome.
use Prim.Native.String.{◌++◌ as ◌+++◌}
use rustafari_db.Common.{String, List, [], ◌∷◌, Option, none, some}

-- An IO or serialization error is held by its text.
pub data RustafariError : Type 0 where
  io serialization transaction_conflict transaction_not_found table_not_found :
      String → RustafariError
  namespace_not_found schema parse execution storage index lake other : String → RustafariError

pub data Result {ℓ} (A : Type ℓ) : Type ℓ where
  ok : A → Result A
  err : RustafariError → Result A
  panic : Result A

-- The `?` operator.
infixl 5 ◌>>=◌
abbrev pub ◌>>=◌ {ℓ κ} : {A : Type ℓ} {B : Type κ} → Result A → (A → Result B) → Result B
ok a >>= f = f a
err e >>= f = err e
panic >>= f = panic

-- `Option::ok_or_else`
abbrev pub ok_or {ℓ} : {A : Type ℓ} → RustafariError → Option A → Result A
ok_or e none = err e
ok_or e (some a) = ok a

-- `iter().map(f).collect::<Result<Vec<_>>>()`: the first error stops the walk.
abbrev pub collect {ℓ κ} : {A : Type ℓ} {B : Type κ} → (A → Result B) → List A → Result (List B)
collect f [] = ok []
collect f (x ∷ xs) = f x >>= λ y. collect f xs >>= λ ys. ok (y ∷ ys)

-- `Display`
unfoldable pub display : RustafariError → String
display (io s) = "IO error: " +++ s
display (serialization s) = "Serialization error: " +++ s
display (transaction_conflict s) = "Transaction conflict: " +++ s
display (transaction_not_found s) = "Transaction not found: " +++ s
display (table_not_found s) = "Table not found: " +++ s
display (namespace_not_found s) = "Namespace not found: " +++ s
display (schema s) = "Schema error: " +++ s
display (parse s) = "Parse error: " +++ s
display (execution s) = "Execution error: " +++ s
display (storage s) = "Storage error: " +++ s
display (index s) = "Index error: " +++ s
display (lake s) = "Lake error: " +++ s
display (other s) = s
