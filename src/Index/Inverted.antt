-- ===== src/Index/Inverted.antt =====
-- crates/rustafari-index/src/inverted.rs. The Unicode tables behind `to_lowercase`, `split_whitespace`
-- and `is_alphanumeric` are parameters. A hash map is listed in the order of its association list; no
-- theorem depends on it.
pub mod Postings
pub mod Search
use Prim.Native.Char.{Char}
use Prim.Native.Nat.{compare}
use Prim.Native.String.{String}
use rustafari_db.Common.{
  ℕ, ◌+◌, ◌%◌, ◌^◌, Bool, true, false, not, List, [], ◌∷◌, ◌++◌, Option, none, some, map, filter,
  take, Ordering, ◌==◌, if◌then◌else◌,
}
use rustafari_db.Common.HashMap
use rustafari_db.Common.HashMap.{HashMap, nat_eq, string_eq}
use rustafari_db.Common.Sort.{sort_by}
use rustafari_db.Storage.TableStore.{RowId}

pub record InvertedIndex : Type 0 where
  pub index : HashMap String (List RowId)
  pub doc_terms : HashMap RowId (List String)

abbrev pub new : InvertedIndex
new = record { index = HashMap.empty; doc_terms = HashMap.empty }

abbrev pub or_none {ℓ} : {A : Type ℓ} → Option (List A) → List A
or_none none = []
or_none (some xs) = xs

-- The identifiers under a term.
abbrev pub postings : String → HashMap String (List RowId) → List RowId
postings t m = or_none (HashMap.get t m)

abbrev is_some_text : String → Bool
is_some_text String.[] = false
is_some_text (String.◌∷◌ _ _) = true

abbrev keep_chars : (Char → Bool) → String → String
keep_chars p String.[] = String.[]
keep_chars p (String.◌∷◌ c s) = let rest = keep_chars p s in if p c then String.◌∷◌ c rest else rest

unfoldable pub tokenize :
    (String → String) → (String → List String) → (Char → Bool) → String → List String
tokenize to_lowercase split_whitespace is_alphanumeric text =
    filter is_some_text (map (keep_chars is_alphanumeric) (split_whitespace (to_lowercase text)))

-- The loop of `insert`: `entry(t).or_default().push(row_id)`.
unfoldable pub post_all :
    RowId → List String → HashMap String (List RowId) → HashMap String (List RowId)
post_all r [] m = m
post_all r (t ∷ ts) m = post_all r ts (HashMap.insert t (postings t m ++ r ∷ []) m)

-- A term whose identifiers are all gone is taken out.
abbrev pub store_postings :
    String → List RowId → HashMap String (List RowId) → HashMap String (List RowId)
store_postings t [] m = HashMap.remove t m
store_postings t (i ∷ is) m = HashMap.insert t (i ∷ is) m

unfoldable pub unpost : RowId → String → HashMap String (List RowId) → HashMap String (List RowId)
unpost r t m = elim (HashMap.get t m) [
  | none ↦ m
  | some ids ↦ store_postings t (filter (λ i. not (i == r)) ids) m
]

-- The loop of `delete`.
unfoldable pub unpost_all :
    RowId → List String → HashMap String (List RowId) → HashMap String (List RowId)
unfolding unpost
unpost_all r [] m = m
unpost_all r (t ∷ ts) m = unpost_all r ts (unpost r t m)

-- `*counts.entry(id).or_default() += 1` for every identifier; a `u32`.
abbrev pub or_zero_count : Option ℕ → ℕ
or_zero_count none = 0
or_zero_count (some n) = n

unfoldable pub count_ids : List RowId → HashMap RowId ℕ → HashMap RowId ℕ
count_ids [] m = m
count_ids (i ∷ is) m =
    count_ids is (HashMap.insert i ((or_zero_count (HashMap.get i m) + 1) % 2 ^ 32) m)

unfoldable pub count_terms :
    List String → HashMap String (List RowId) → HashMap RowId ℕ → HashMap RowId ℕ
unfolding count_ids
count_terms [] index m = m
count_terms (t ∷ ts) index m = count_terms ts index (count_ids (postings t index) m)

-- The greater count first.
abbrev pub by_count : RowId × ℕ → RowId × ℕ → Ordering
by_count a b = compare b.1 a.1

unfoldable pub insert_terms : InvertedIndex → RowId → List String → InvertedIndex
unfolding post_all
insert_terms ix r terms = record {
  index = post_all r terms ix.index;
  doc_terms = HashMap.insert r terms ix.doc_terms;
}

unfoldable pub delete : InvertedIndex → RowId → InvertedIndex
unfolding unpost_all
delete ix r = elim (HashMap.get r ix.doc_terms) [
  | none ↦ ix
  | some terms ↦ record {
    index = unpost_all r terms ix.index;
    doc_terms = HashMap.remove r ix.doc_terms;
  }
]

-- The search for terms; for none the source returns at once.
unfoldable pub search_terms : InvertedIndex → List String → ℕ → List RowId
unfolding count_terms sort_by
search_terms ix [] top_k = []
search_terms ix (t ∷ ts) top_k =
    map (λ c. c.0) (take top_k (sort_by by_count (count_terms (t ∷ ts) ix.index HashMap.empty)))

module _ (to_lowercase : String → String) (split_whitespace : String → List String)
    (is_alphanumeric : Char → Bool) where
  unfoldable pub insert : InvertedIndex → RowId → String → InvertedIndex
  unfolding tokenize insert_terms
  insert ix r text = insert_terms ix r (tokenize to_lowercase split_whitespace is_alphanumeric text)

  unfoldable pub search : InvertedIndex → String → ℕ → List RowId
  unfolding tokenize search_terms
  search ix query top_k =
      search_terms ix (tokenize to_lowercase split_whitespace is_alphanumeric query) top_k
