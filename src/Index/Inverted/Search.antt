-- ===== src/Index/Inverted/Search.antt =====
-- The search of the inverted index of crates/rustafari-index/src/inverted.rs: scores and ranking.
use rustafari_db.Common.{
  ℕ, zero, suc, ◌+◌, ◌%◌, ◌^◌, ◌<◌, ◌≡◌, ◌≢◌, refl, ◌∙◌, sym, ap, String, true, List, [], ◌∷◌, some,
  map, take, arith, All, gt, ◌≤◌, any, ◌==◌, inl, inr, ◌⊎◌,
}
use rustafari_db.Common.HashMap
use rustafari_db.Common.HashMap.{HashMap, nat_eq, get-insert, IsMap, insert-IsMap, entries_found}
use rustafari_db.Common.Sort.{
  sort_by, Ranked, IsTotalPreorder, sort_by-Ranked, All-sort_by, any-sort_by,
}
use rustafari_db.Storage.TableStore.{RowId}
use rustafari_db.Index.Inverted.{
  InvertedIndex, postings, or_zero_count, count_ids, count_terms, by_count, search_terms,
}
use rustafari_db.Index.Inverted.Postings.{id_count}

-- How often a row stands under the terms, all together.
abbrev pub score : RowId → List String → HashMap String (List RowId) → ℕ
score i [] index = 0
score i (t ∷ ts) index = id_count i (postings t index) + score i ts index

abbrev seen : RowId → HashMap RowId ℕ → ℕ
seen i m = or_zero_count (HashMap.get i m)

seen-count_ids :
    (i : RowId) (ids : List RowId) (m : HashMap RowId ℕ)
    → seen i m + id_count i ids < 2 ^ 32
    → seen i (count_ids ids m) ≡ seen i m + id_count i ids
unfolding count_ids
seen-count_ids i [] m l = omega arith
seen-count_ids i (x ∷ ids) m l =
    let n = (seen x m + 1) % 2 ^ 32 in
    ground (arith, l, seen-count_ids i ids (HashMap.insert x n m), get-insert i x n m)

seen-count_terms :
    (i : RowId) (ts : List String) (index : HashMap String (List RowId)) (m : HashMap RowId ℕ)
    → seen i m + score i ts index < 2 ^ 32
    → seen i (count_terms ts index m) ≡ seen i m + score i ts index
unfolding count_terms
seen-count_terms i [] index m l = omega arith
seen-count_terms i (t ∷ ts) index m l =
    let e = seen-count_ids i (postings t index) m (omega arith) in
    seen-count_terms i ts index (count_ids (postings t index) m) (omega (arith, e))
    ∙ omega (arith, e)

count_ids-IsMap : (ids : List RowId) (m : HashMap RowId ℕ) → IsMap m → IsMap (count_ids ids m)
unfolding count_ids
count_ids-IsMap [] m f = f
count_ids-IsMap (i ∷ ids) m f = count_ids-IsMap ids _ (insert-IsMap i _ m f)

count_terms-IsMap :
    (ts : List String) (index : HashMap String (List RowId)) (m : HashMap RowId ℕ)
    → IsMap m
    → IsMap (count_terms ts index m)
unfolding count_terms
count_terms-IsMap [] index m f = f
count_terms-IsMap (t ∷ ts) index m f =
    count_terms-IsMap ts index _ (count_ids-IsMap (postings t index) m f)

abbrev AnyCount : RowId × ℕ → Type 0
AnyCount _ = Unit

by_count-order : IsTotalPreorder by_count AnyCount
by_count-order = record {
  total = λ x y p q g. ground (arith, g);
  trans = λ x y z p q r g k. ground (arith, g, k);
}

All-AnyCount : (xs : List (RowId × ℕ)) → All AnyCount xs
All-AnyCount [] = tt
All-AnyCount (x ∷ xs) = (tt, All-AnyCount xs)

-- The entries of the counts, by lookup: each has the row's score, and a row with a score has one.
scored :
    (f : RowId → ℕ) (m n : HashMap RowId ℕ)
    → ((i : RowId) → seen i m ≡ f i)
    → All (λ c. HashMap.get c.0 m ≡ some c.1) n
    → All (λ c. c.1 ≡ f c.0) n
scored f m [] e a = tt
scored f m (c ∷ n) e a = (sym (ap or_zero_count a.0) ∙ e c.0, scored f m n e a.1)

listed : (i : RowId) (m : HashMap RowId ℕ) → seen i m ≢ 0 → any (λ c. c.0 == i) m ≡ true
unfolding HashMap.get
listed i [] ne = absurd (ne refl)
listed i (c ∷ m) ne = ground (arith, ne, listed i m)

nothing_seen : (i : RowId) → seen i HashMap.empty ≡ 0
unfolding HashMap.get
nothing_seen i = refl

zero-or-not : (n : ℕ) → (n ≡ 0) ⊎ (n ≢ 0)
zero-or-not zero = inl refl
zero-or-not (suc n) = inr (λ e. absurd (omega (arith, e)))

-- The count of the first is at least that of the second.
abbrev pub AtLeast : RowId × ℕ → RowId × ℕ → Type 0
AtLeast a b = b.1 ≤ a.1

by_count-AtLeast : (a b : RowId × ℕ) → AnyCount a → AnyCount b → by_count a b ≢ gt → AtLeast a b
by_count-AtLeast a b p q g = ground (arith, g)

-- A search for terms yields the first `top_k` rows of a ranking: in the ranking every row has its
-- score, which is how often it stands under the terms, a term that a text or the query repeats counted
-- each time; every score is at least each later one, and every row with a score other than 0 is there.
-- Every score is below 2 ^ 32.
pub search_terms-ranking :
    (ix : InvertedIndex) (t : String) (ts : List String) (top_k : ℕ)
    → ((i : RowId) → score i (t ∷ ts) ix.index < 2 ^ 32)
    → (ranking : List (RowId × ℕ)) × (search_terms ix (t ∷ ts) top_k
        ≡ map (λ c. c.0) (take top_k ranking))
      × All (λ c. c.1 ≡ score c.0 (t ∷ ts) ix.index) ranking
      × Ranked AtLeast ranking
      × ((i : RowId) → (score i (t ∷ ts) ix.index ≡ 0) ⊎ (any (λ c. c.0 == i) ranking ≡ true))
unfolding search_terms
search_terms-ranking ix t ts top_k below =
    let m = count_terms (t ∷ ts) ix.index HashMap.empty in
    let counts : (i : RowId) → seen i m ≡ score i (t ∷ ts) ix.index = λ i.
      seen-count_terms i (t ∷ ts) ix.index HashMap.empty (omega (arith, nothing_seen i, below i))
      ∙ omega (arith, nothing_seen i) in
    (
      sort_by by_count m,
      refl,
      All-sort_by by_count (λ c. c.1 ≡ score c.0 (t ∷ ts) ix.index) m
          (scored (λ i. score i (t ∷ ts) ix.index) m m counts
            (entries_found m (count_terms-IsMap (t ∷ ts) ix.index HashMap.empty tt))),
      sort_by-Ranked by_count AnyCount AtLeast by_count-AtLeast by_count-order m (All-AnyCount m),
      λ i. elim (zero-or-not (score i (t ∷ ts) ix.index)) [
        | inl none_there ↦ inl none_there
        | inr some_there ↦ inr (
            any-sort_by by_count (λ c. c.0 == i) m
            ∙ listed i m (λ e. some_there (sym (counts i) ∙ e)))
      ],
    )
