-- ===== src/Index/Inverted/Postings.antt =====
-- The terms of the inverted index of crates/rustafari-index/src/inverted.rs against the terms that it
-- keeps for each row.
use text.Mathlib.Text.{◌==◌ as str_eq}
use text.Mathlib.TextEquality.{eq_iff}
use rustafari_db.Common.{
  ℕ, suc, ◌+◌, ◌≡◌, refl, String, false, not, ◌&&◌, List, [], ◌∷◌, ◌++◌, none, arith, filter, any,
  ◌==◌, if◌then◌else◌, Option-cases, inl, inr,
}
use rustafari_db.Common.HashMap
use rustafari_db.Common.HashMap.{HashMap, nat_eq, string_eq, get-insert, get-remove}
use rustafari_db.Storage.TableStore.{RowId}
use rustafari_db.Index.Inverted.{
  InvertedIndex, or_none, postings, post_all, store_postings, unpost, unpost_all, insert_terms,
  delete,
}

-- How often an identifier, or a term, stands in a list.
abbrev pub id_count : RowId → List RowId → ℕ
id_count i [] = 0
id_count i (x ∷ xs) = let rest = id_count i xs in if x == i then suc rest else rest

abbrev pub term_count : String → List String → ℕ
term_count u [] = 0
term_count u (t ∷ ts) = let rest = term_count u ts in if str_eq t u then suc rest else rest

id_count-append_one :
    (i r : RowId) (xs : List RowId)
    → id_count i (xs ++ r ∷ []) ≡ (if r == i then suc (id_count i xs) else id_count i xs)
id_count-append_one i r [] = refl
id_count-append_one i r (x ∷ xs) = ground (arith, id_count-append_one i r xs)

id_count-retain :
    (i r : RowId) (xs : List RowId)
    → id_count i (filter (λ x. not (x == r)) xs) ≡ (if r == i then 0 else id_count i xs)
id_count-retain i r [] = ground arith
id_count-retain i r (x ∷ xs) = ground (arith, id_count-retain i r xs)

id_count-post_all :
    (i r : RowId) (u : String) (ts : List String) (m : HashMap String (List RowId))
    → id_count i (postings u (post_all r ts m))
      ≡ id_count i (postings u m) + (if r == i then term_count u ts else 0)
unfolding post_all
id_count-post_all i r u [] m = ground arith
id_count-post_all i r u (t ∷ ts) m =
    let ids = postings t m ++ r ∷ [] in
    ground (
      arith,
      id_count-post_all i r u ts (HashMap.insert t ids m),
      get-insert u t ids m,
      eq_iff t u,
      id_count-append_one i r (postings t m),
    )

postings-store :
    (t u : String) (ids : List RowId) (m : HashMap String (List RowId))
    → postings u (store_postings t ids m) ≡ (if str_eq t u then ids else postings u m)
postings-store t u [] m = ground (arith, get-remove u t m)
postings-store t u (i ∷ is) m = ground (arith, get-insert u t (i ∷ is) m)

id_count-unpost :
    (i r : RowId) (t u : String) (m : HashMap String (List RowId))
    → id_count i (postings u (unpost r t m))
      ≡ (if str_eq t u && r == i then 0 else id_count i (postings u m))
unfolding unpost
id_count-unpost i r t u m = elim (Option-cases (HashMap.get t m)) [
  | inl missing ↦ ground (arith, missing, eq_iff t u)
  | inr (ids, there) ↦ ground (
    arith,
    there,
    eq_iff t u,
    postings-store t u (filter (λ x. not (x == r)) ids) m,
    id_count-retain i r ids,
  )
]

id_count-unpost_all :
    (i r : RowId) (u : String) (ts : List String) (m : HashMap String (List RowId))
    → id_count i (postings u (unpost_all r ts m))
      ≡ (if r == i && any (λ t. str_eq t u) ts then 0 else id_count i (postings u m))
unfolding unpost_all
id_count-unpost_all i r u [] m = ground arith
id_count-unpost_all i r u (t ∷ ts) m =
    ground (arith, id_count-unpost_all i r u ts (unpost r t m), id_count-unpost i r t u m)

-- Every row stands under every term as often as the term is among those kept for the row.
abbrev pub IsValid : InvertedIndex → Type 0
IsValid ix =
    (i : RowId) (u : String)
    → id_count i (postings u ix.index) ≡ term_count u (or_none (HashMap.get i ix.doc_terms))

-- The insertion of a row that the index does not hold keeps the two maps in step.
pub insert_terms-IsValid :
    (ix : InvertedIndex) (r : RowId) (terms : List String)
    → HashMap.get r ix.doc_terms ≡ none
    → IsValid ix
    → IsValid (insert_terms ix r terms)
unfolding insert_terms
insert_terms-IsValid ix r terms fresh v i u =
    ground (
      arith,
      fresh,
      v i u,
      id_count-post_all i r u terms ix.index,
      get-insert i r terms ix.doc_terms,
    )

term_count_zero :
    (u : String) (ts : List String) → any (λ t. str_eq t u) ts ≡ false → term_count u ts ≡ 0
term_count_zero u [] e = refl
term_count_zero u (t ∷ ts) e = ground (arith, term_count_zero u ts)

id_count-delete :
    (ix : InvertedIndex) (r i : RowId) (u : String)
    → IsValid ix
    → id_count i (postings u (delete ix r).index)
      ≡ (if r == i then 0 else id_count i (postings u ix.index))
unfolding delete
id_count-delete ix r i u v = elim (Option-cases (HashMap.get r ix.doc_terms)) [
  | inl missing ↦ ground (arith, missing, v r u, v i u)
  | inr (terms, there) ↦
      ground
        (arith, there, v r u, id_count-unpost_all i r u terms ix.index, term_count_zero u terms)
]

terms-delete :
    (ix : InvertedIndex) (r i : RowId)
    → or_none (HashMap.get i (delete ix r).doc_terms)
      ≡ (if r == i then [] else or_none (HashMap.get i ix.doc_terms))
unfolding delete
terms-delete ix r i = elim (Option-cases (HashMap.get r ix.doc_terms)) [
  | inl missing ↦ ground (arith, missing)
  | inr (terms, there) ↦ ground (arith, there, get-remove i r ix.doc_terms)
]

-- The deletion of a row keeps the two maps in step, and leaves the row under no term and every other
-- row as often under each term as it was. The index is valid.
pub delete-IsValid :
    (ix : InvertedIndex) (r : RowId)
    → IsValid ix
    → IsValid (delete ix r)
      × ((i : RowId) (u : String)
          → id_count i (postings u (delete ix r).index)
            ≡ (if r == i then 0 else id_count i (postings u ix.index)))
delete-IsValid ix r v = (
  λ i u. ground (arith, id_count-delete ix r i u v, terms-delete ix r i, v i u),
  λ i u. id_count-delete ix r i u v,
)
