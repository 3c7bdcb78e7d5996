-- ===== src/Storage/Page.antt =====
-- crates/rustafari-storage/src/page.rs. Sums of `usize` wrap, as in a release build; a slice whose
-- start lies past its end panics.
pub mod Access
use rustafari_db.Common.{
  ℕ, ◌+◌, ◌-◌, ◌%◌, Bool, true, false, List, ◌++◌, length, take, drop, replicate, ltb, u64_mod,
  if◌then◌else◌,
}
use rustafari_db.Core.Error.{Result, ok, err, panic, storage}

abbrev pub page_size : ℕ
page_size = 8192

pub record PageId : Type 0 where
  pub file_id : ℕ
  pub page_no : ℕ

pub record Page : Type 0 where
  pub id : PageId
  pub bytes : List ℕ
  pub dirty : Bool

unfoldable pub new : PageId → Page
new id = record { id = id; bytes = replicate page_size 0; dirty = false }

-- `&data[start..end]`
unfoldable pub read : Page → ℕ → ℕ → Result (List ℕ)
read p start end =
    if ltb page_size end
    then err (storage "read out of page bounds")
    else if ltb end start
    then panic
    else ok (take (end - start) (drop start p.bytes))

-- `data[offset..end].copy_from_slice(bytes)`
abbrev pub copy_into : List ℕ → ℕ → List ℕ → List ℕ
copy_into target offset bytes = take offset target ++ (bytes ++ drop (offset + length bytes) target)

unfoldable pub write : Page → ℕ → List ℕ → Page × Result (Unit {0})
write p offset bytes =
    let end = (offset + length bytes) % u64_mod in
    if ltb page_size end
    then (p, err (storage "write out of page bounds"))
    else if ltb end offset
    then (p, panic)
    else (record p { bytes = copy_into p.bytes offset bytes; dirty = true }, ok tt)
