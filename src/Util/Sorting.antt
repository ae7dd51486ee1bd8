-- ===== src/Util/Sorting.antt =====
-- `sort.Strings`, for keys that are distinct: any sorting algorithm gives the same result.
use Prim.Native.Nat.{Ordering}
use Prim.Native.String.{compare}
use elasticell_operator.Base.{
  String, Bool, true, false, List, [], ◌∷◌, Dict, if◌then◌else◌, ◌≡◌, refl,
}

abbrev text_le : String → String → Bool
text_le s t = elim (compare s t) [ Ordering.gt ↦ false | _ ↦ true ]

unfoldable pub insert_sorted : String → List String → List String
insert_sorted s [] = s ∷ []
insert_sorted s (t ∷ ts) = if text_le s t then s ∷ t ∷ ts else t ∷ insert_sorted s ts

unfoldable pub sort : List String → List String
unfolding insert_sorted
sort [] = []
sort (s ∷ ss) = insert_sorted s (sort ss)

unfoldable pub keys : {V : Type 0} → Dict V → List String
keys [] = []
keys ((k, v) ∷ m) = k ∷ keys m

sort_example : sort ("zone" ∷ "region" ∷ "rack" ∷ []) ≡ "rack" ∷ "region" ∷ "zone" ∷ []
unfolding sort
sort_example = refl
