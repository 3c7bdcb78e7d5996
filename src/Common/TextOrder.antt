-- ===== src/Common/TextOrder.antt =====
-- The order of texts, as a key order. (The native comparison is by code points, which is the order
-- of the UTF-8 bytes.)
use Prim.Native.Nat.Ordering.{lt, gt}
use Prim.Native.String.{String, compare}
use Prim.Native.String.compare as clauses
use mathlib.Core.Path.{◌≡◌}
use native.Mathlib.Omega.{arith}
use text.Mathlib.TextEquality.{path_by_compare}
use text.Mathlib.TextPositions.{compare_refl}
use rustafari_db.Common.BTreeMap.{Ord}

pub lt_of_gt_text : (s t : String) → compare s t ≡ gt → compare t s ≡ lt
lt_of_gt_text String.[] String.[] h = cc
lt_of_gt_text String.[] (String.◌∷◌ d t) h = cc (clauses.nil-cons d t)
lt_of_gt_text (String.◌∷◌ c s) String.[] h = clauses.nil-cons c s
lt_of_gt_text (String.◌∷◌ c s) (String.◌∷◌ d t) h =
    rw clauses.cons-cons (ground (arith, clauses.cons-cons c d s t, lt_of_gt_text s t))

pub gt_of_lt_text : (s t : String) → compare s t ≡ lt → compare t s ≡ gt
gt_of_lt_text String.[] String.[] h = cc
gt_of_lt_text String.[] (String.◌∷◌ d t) h = clauses.cons-nil d t
gt_of_lt_text (String.◌∷◌ c s) String.[] h = cc (clauses.cons-nil c s)
gt_of_lt_text (String.◌∷◌ c s) (String.◌∷◌ d t) h =
    rw clauses.cons-cons (ground (arith, clauses.cons-cons c d s t, gt_of_lt_text s t))

pub lt_trans_text : (s t u : String) → compare s t ≡ lt → compare t u ≡ lt → compare s u ≡ lt
lt_trans_text String.[] String.[] u h k = cc
lt_trans_text String.[] (String.◌∷◌ d t) String.[] h k = cc (clauses.cons-nil d t)
lt_trans_text String.[] (String.◌∷◌ d t) (String.◌∷◌ e u) h k = clauses.nil-cons e u
lt_trans_text (String.◌∷◌ c s) String.[] u h k = cc (clauses.cons-nil c s)
lt_trans_text (String.◌∷◌ c s) (String.◌∷◌ d t) String.[] h k = cc (clauses.cons-nil d t)
lt_trans_text (String.◌∷◌ c s) (String.◌∷◌ d t) (String.◌∷◌ e u) h k =
    rw clauses.cons-cons
      (ground (arith, clauses.cons-cons c d s t, clauses.cons-cons d e t u, lt_trans_text s t u))

instance abbrev pub text_ord : Ord String
text_ord = record {
  cmp = compare;
  cmp_refl = compare_refl;
  eq_of_cmp = path_by_compare;
  lt_of_gt = lt_of_gt_text;
  gt_of_lt = gt_of_lt_text;
  lt_trans = lt_trans_text;
}
