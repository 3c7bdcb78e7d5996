-- ===== src/Storage/Page/Access.antt =====
-- Reads and writes of a page: where they fail, what a write changes, and what a read then sees.
use rustafari_db.Common.{
  ℕ, ◌+◌, ◌-◌, ◌≤◌, ◌<◌, ◌≡◌, refl, true, ◌&&◌, List, ◌++◌, arith, length, take, drop, get_elem?,
  ltb, leb, u64_mod, if◌then◌else◌, length-append, length-take, length-drop, length-replicate,
}
use rustafari_db.Common.Slices.{
  get_elem?-append, get_elem?-take, get_elem?-drop, take-append_left, drop-append_left,
}
use rustafari_db.Core.Error.{ok, err, storage}
use rustafari_db.Storage.Page.{Page, PageId, page_size, new, read, write, copy_into}

-- A page holds exactly `page_size` bytes.
abbrev pub IsValid : Page → Type 0
IsValid p = length p.bytes ≡ page_size

pub new-IsValid : (id : PageId) → IsValid (new id)
unfolding new
new-IsValid id = length-replicate {A = ℕ} page_size 0

length-copy_into :
    (target bytes : List ℕ) (offset : ℕ)
    → offset + length bytes ≤ length target
    → length (copy_into target offset bytes) ≡ length target
length-copy_into target bytes offset h = omega (
  arith,
  length-append (take offset target) (bytes ++ drop (offset + length bytes) target),
  length-append bytes (drop (offset + length bytes) target),
  length-take offset target,
  length-drop (offset + length bytes) target,
)

get_elem?-copy_into :
    (target bytes : List ℕ) (offset i : ℕ)
    → offset + length bytes ≤ length target
    → get_elem? (copy_into target offset bytes) i ≡ (
        if leb offset i && ltb i (offset + length bytes)
        then get_elem? bytes (i - offset)
        else get_elem? target i)
get_elem?-copy_into target bytes offset i h =
    let n = length bytes in
    let len : length (take offset target) ≡ offset = omega (arith, length-take offset target) in
    let e : offset + n + (i - offset - n) ≡ (if leb (offset + n) i then i else offset + n) =
      ground arith in
    ground (
      arith,
      len,
      e,
      get_elem?-append (take offset target) (bytes ++ drop (offset + n) target) i,
      get_elem?-append bytes (drop (offset + n) target) (i - offset),
      get_elem?-take offset target i,
      get_elem?-drop (offset + n) target (i - offset - n),
    )

module _ (p : Page) (offset : ℕ) (bytes : List ℕ) (valid : IsValid p) where
  write_eq :
      offset + length bytes ≤ page_size
      → write p offset bytes
        ≡ (record p { bytes = copy_into p.bytes offset bytes; dirty = true }, ok tt)
  unfolding write
  write_eq fits = ground arith

  -- A write that fits in the page succeeds, marks the page dirty and sets the byte at every
  -- position: to the written one inside the range, to the old one elsewhere.
  pub write_fits :
      offset + length bytes ≤ page_size
      → ((write p offset bytes).1 ≡ ok tt)
        × ((write p offset bytes).0.dirty ≡ true)
        × ((write p offset bytes).0.id ≡ p.id)
        × ((i : ℕ)
            → get_elem? (write p offset bytes).0.bytes i ≡ (
                if leb offset i && ltb i (offset + length bytes)
                then get_elem? bytes (i - offset)
                else get_elem? p.bytes i))
  write_fits fits =
      rw (write_eq fits)
        (refl, refl, refl, λ i. get_elem?-copy_into p.bytes bytes offset i (omega arith))

  -- A write that does not fit, its end within the machine's numbers, fails and changes nothing.
  pub write_too_long :
      page_size < offset + length bytes
      → offset + length bytes < u64_mod
      → write p offset bytes ≡ (p, err (storage "write out of page bounds"))
  unfolding write
  write_too_long long small = ground arith

  -- Every write, also one that fails, leaves a page of `page_size` bytes.
  pub write-IsValid : length bytes < u64_mod → offset < u64_mod → IsValid (write p offset bytes).0
  unfolding write
  write-IsValid small off = ground (arith, length-copy_into p.bytes bytes offset)

  -- What was written is read back.
  pub read-write :
      offset + length bytes ≤ page_size
      → read (write p offset bytes).0 offset (offset + length bytes) ≡ ok bytes
  unfolding read
  read-write fits =
      let n = length bytes in
      let rest = bytes ++ drop (offset + n) p.bytes in
      let cut : offset + n - offset ≡ n = omega arith in
      let at : drop offset (copy_into p.bytes offset bytes) ≡ rest =
        drop-append_left offset (take offset p.bytes) rest
          (omega (arith, length-take offset p.bytes)) in
      let back : take n rest ≡ bytes = take-append_left n bytes (drop (offset + n) p.bytes) refl in
      rw (write_eq fits) (ground (arith, cut, at, back))
