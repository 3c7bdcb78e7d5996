-- ===== src/Tests/Indexes.antt =====
-- The theorems on the indexes at concrete inputs.
use mathlib.Core.List.{Perm}
use rustafari_db.Common.{
  ℕ, ◌≡◌, ◌≢◌, ◌↔◌, refl, String, true, List, [], ◌∷◌, ◌++◌, map, take, some, ◌==◌, ◌<◌, ◌^◌, arith,
  All, any, gt, ◌⊎◌, if◌then◌else◌,
}
use rustafari_db.Common.HashMap
use rustafari_db.Common.HashMap.{nat_eq, string_eq}
use rustafari_db.Common.BTreeMap.{is_eq}
use rustafari_db.Common.Sort.{Ranked}
use rustafari_db.Common.Int.{pos, negsuc}
use rustafari_db.Core.Error.{ok}
use rustafari_db.Core.Host.{F32}
use rustafari_db.Core.Value.{int64}
use rustafari_db.Storage.TableStore.{RowId}
use rustafari_db.Index.BTree
use rustafari_db.Index.BTree.{BTreeIndex, IndexKey, cmp_bytes, end_or_last, bytes_ord, from_value}
use rustafari_db.Index.BTree.Key.{key_order, from_value-key_order}
use rustafari_db.Index.BTree.Rows.{
  IsValid, has_id, without, between, ids_after, insert-IsValid, range_hits,
}
use rustafari_db.Index.Inverted
use rustafari_db.Index.Inverted.{InvertedIndex, postings, insert_terms, by_count, search_terms}
use rustafari_db.Index.Inverted.Postings as Postings
use rustafari_db.Index.Inverted.Postings.{id_count, insert_terms-IsValid, delete-IsValid}
use rustafari_db.Index.Inverted.Search.{score, AtLeast, search_terms-ranking}
use rustafari_db.Index.Vector.{VectorIndex, search}
use rustafari_db.Index.Vector.Nearest.{AtMost, measured, search-ranking}
use rustafari_db.Tests.Fixtures.{host}

from_value-key_order_example :
    (k l : IndexKey) × (from_value {h = host} (int64 (negsuc 0)) ≡ ok k)
    × (from_value {h = host} (int64 (pos 5)) ≡ ok l)
    × (cmp_bytes k l ≡ key_order (negsuc 0) (pos 5))
from_value-key_order_example =
    from_value-key_order host (negsuc 0) (pos 5) (omega arith, omega arith)
      (omega arith, omega arith)

abbrev one_key : BTreeIndex
one_key = BTree.insert BTree.new (0 ∷ 5 ∷ []) 1

ids_after_example :
    (BTree.get (BTree.insert one_key (0 ∷ 6 ∷ []) 2) (0 ∷ 5 ∷ []) ≡ (
      if is_eq (cmp_bytes (0 ∷ 5 ∷ []) (0 ∷ 6 ∷ []))
      then BTree.get one_key (0 ∷ 5 ∷ []) ++ 2 ∷ []
      else BTree.get one_key (0 ∷ 5 ∷ [])))
    × (BTree.get (BTree.delete one_key (0 ∷ 6 ∷ []) 2).0 (0 ∷ 5 ∷ []) ≡ (
        if is_eq (cmp_bytes (0 ∷ 5 ∷ []) (0 ∷ 6 ∷ []))
        then without 2 (BTree.get one_key (0 ∷ 5 ∷ []))
        else BTree.get one_key (0 ∷ 5 ∷ [])))
    × ((BTree.delete one_key (0 ∷ 6 ∷ []) 2).1 ≡ has_id 2 (BTree.get one_key (0 ∷ 6 ∷ [])))
ids_after_example = ids_after one_key (0 ∷ 6 ∷ []) (0 ∷ 5 ∷ []) 2

one_key-IsValid : IsValid one_key
one_key-IsValid = insert-IsValid BTree.new (0 ∷ 5 ∷ []) 1 tt

in_order : cmp_bytes (0 ∷ 1 ∷ []) (0 ∷ 5 ∷ []) ≢ gt
in_order = ground arith

range_hits_example :
    (ids : List RowId) × (BTree.range one_key (0 ∷ 1 ∷ []) (some (0 ∷ 5 ∷ [])) ≡ ok ids)
    × ((r : RowId)
        → (has_id r ids ≡ true) ↔ (
            (k : IndexKey) × (between (0 ∷ 1 ∷ []) (end_or_last (some (0 ∷ 5 ∷ []))) k ≡ true)
            × (has_id r (BTree.get one_key k) ≡ true)))
range_hits_example = range_hits one_key (0 ∷ 1 ∷ []) (some (0 ∷ 5 ∷ [])) one_key-IsValid in_order

empty-IsValid : Postings.IsValid Inverted.new
unfolding HashMap.get
empty-IsValid = λ i u. refl

abbrev one_text : InvertedIndex
one_text = insert_terms Inverted.new 4 ("red" ∷ "fox" ∷ "red" ∷ [])

one_text-IsValid : Postings.IsValid one_text
unfolding HashMap.get
one_text-IsValid =
    insert_terms-IsValid Inverted.new 4 ("red" ∷ "fox" ∷ "red" ∷ []) refl empty-IsValid

delete-IsValid_example :
    Postings.IsValid (Inverted.delete one_text 4)
    × ((i : RowId) (u : String)
        → id_count i (postings u (Inverted.delete one_text 4).index)
          ≡ (if 4 == i then 0 else id_count i (postings u one_text.index)))
delete-IsValid_example = delete-IsValid one_text 4 one_text-IsValid

few : (i : RowId) → score i ("red" ∷ []) one_text.index < 2 ^ 32
unfolding insert_terms Inverted.post_all HashMap.get HashMap.insert
few i = ground arith

search_terms-ranking_example :
    (ranking : List (RowId × ℕ)) × (search_terms one_text ("red" ∷ []) 10
      ≡ map (λ c. c.0) (take 10 ranking))
    × All (λ c. c.1 ≡ score c.0 ("red" ∷ []) one_text.index) ranking
    × Ranked AtLeast ranking
    × ((i : RowId)
        → (score i ("red" ∷ []) one_text.index ≡ 0) ⊎ (any (λ c. c.0 == i) ranking ≡ true))
search_terms-ranking_example = search_terms-ranking one_text "red" [] 10 few

abbrev two_vectors : VectorIndex
two_vectors = record { dimension = 2; entries = (1, 0 ∷ 0 ∷ []) ∷ (2, 5 ∷ 7 ∷ []) ∷ [] }

search-ranking_example :
    (ranking : List (RowId × F32)) × (search host (λ a b. "dimension") two_vectors (1 ∷ 2 ∷ []) 1
      ≡ ok (take 1 ranking))
    × Perm ranking (measured host (1 ∷ 2 ∷ []) two_vectors.entries)
    × Ranked AtMost ranking
search-ranking_example =
    search-ranking host (λ a b. "dimension") two_vectors (1 ∷ 2 ∷ []) 1 refl (refl, (refl, tt))
