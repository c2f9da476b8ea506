-- ===== src/Platform/Registry/Order.antt =====
-- The order of texts, as `compare` computes it, is total and transitive, so a least identifier is
-- below all the others.
use Prim.Native.Nat.{Ordering}
use Prim.Native.String.compare
use Prim.Native.String.{String, [], ◌∷◌, compare}
use xrayctl.Common.{◌≢◌, ◌⊎◌, inl, inr, arith}

abbrev pub AtMost : String → String → Type 0
AtMost s t = compare s t ≢ Ordering.gt

pub AtMost-trans : (s t u : String) → AtMost s t → AtMost t u → AtMost s u
AtMost-trans [] t [] h k = λ e. cc compare.nil-nil
AtMost-trans [] t (d ∷ u) h k = λ e. cc (compare.nil-cons d u)
AtMost-trans (c ∷ s) [] u h k = absurd (h (compare.cons-nil c s))
AtMost-trans (c ∷ s) (d ∷ t) [] h k = absurd (k (compare.cons-nil d t))
AtMost-trans (c ∷ s) (d ∷ t) (b ∷ u) h k = ground (
  arith,
  compare.cons-cons c d s t,
  compare.cons-cons d b t u,
  compare.cons-cons c b s u,
  AtMost-trans s t u,
)

pub AtMost-total : (s t : String) → AtMost s t ⊎ AtMost t s
AtMost-total [] [] = inl (λ e. cc compare.nil-nil)
AtMost-total [] (d ∷ t) = inl (λ e. cc (compare.nil-cons d t))
AtMost-total (c ∷ s) [] = inr (λ e. cc (compare.nil-cons c s))
AtMost-total (c ∷ s) (d ∷ t) =
    ground (arith, compare.cons-cons c d s t, compare.cons-cons d c t s, AtMost-total s t)
