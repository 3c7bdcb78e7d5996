-- ===== src/Document/Filter/Meaning.antt =====
-- How the conditions of a filter of crates/rustafari-document/src/filter.rs combine.
use rustafari_db.Common.{
  ◌≡◌, refl, String, Bool, true, false, not, Option, none, some, arith, if◌then◌else◌,
}
use rustafari_db.Core.Host.{Host}
use rustafari_db.Core.Value.{Value}
use rustafari_db.Document.Filter.{
  gt_op, gte_op, lt_op, lte_op, DocFilter, done, condition, all_of, any_of, none_of, Filters,
  no_filter, more, compare, cmp_match, matches_filter, matches_condition, matches_all, matches_any,
}

module _ {h : Host} where
  -- The conditions of one filter before those of another.
  abbrev pub followed_by : DocFilter h → DocFilter h → DocFilter h
  followed_by done g = g
  followed_by (condition c cs) g = condition c (followed_by cs g)

  -- One filter with the conditions of all.
  abbrev pub joined : Filters h → DocFilter h
  joined no_filter = done
  joined (more f fs) = followed_by f (joined fs)

  -- The filters, each under `$not`.
  abbrev pub negated : Filters h → Filters h
  negated no_filter = no_filter
  negated (more f fs) = more (condition (none_of f) done) (negated fs)

  matches-followed_by :
      (get : String → Option (Value h)) (f g : DocFilter h)
      → matches_filter get (followed_by f g)
        ≡ (if matches_filter get f then matches_filter get g else false)
  unfolding matches_filter
  matches-followed_by get done g = refl
  matches-followed_by get (condition c cs) g = ground (arith, matches-followed_by get cs g)

  -- `$and` over filters matches exactly when the one filter that has all their conditions matches.
  pub all_of-joined :
      (get : String → Option (Value h)) (fs : Filters h)
      → matches_condition get (all_of fs) ≡ matches_filter get (joined fs)
  unfolding matches_filter matches_condition matches_all
  all_of-joined get no_filter = refl
  all_of-joined get (more f fs) =
      ground (arith, all_of-joined get fs, matches-followed_by get f (joined fs))

  -- `$not` of an `$or` matches exactly when the `$and` of the negated filters does, and `$not` of an
  -- `$and` exactly when the `$or` of the negated filters does.
  pub none_of_dual :
      (get : String → Option (Value h)) (fs : Filters h)
      → (matches_condition get (none_of (condition (any_of fs) done))
          ≡ matches_condition get (all_of (negated fs)))
        × (matches_condition get (none_of (condition (all_of fs) done))
            ≡ matches_condition get (any_of (negated fs)))
  unfolding matches_filter matches_condition matches_all matches_any
  none_of_dual get no_filter = (refl, refl)
  none_of_dual get (more f fs) =
      (ground (arith, (none_of_dual get fs).0), ground (arith, (none_of_dual get fs).1))

  abbrev pub compares : Value h → Value h → Bool
  compares f c = elim (compare f c) [ none ↦ false | some _ ↦ true ]

  -- On values that compare, `$gte` is the negation of `$lt` and `$lte` that of `$gt`, and exactly one
  -- side of each pair holds; values that do not compare satisfy none of the four.
  pub cmp_match_dual :
      (f c : Value h)
      → (cmp_match gte_op f c ≡ (if compares f c then not (cmp_match lt_op f c) else false))
        × (cmp_match lte_op f c ≡ (if compares f c then not (cmp_match gt_op f c) else false))
  unfolding cmp_match
  cmp_match_dual f c = (ground arith, ground arith)
