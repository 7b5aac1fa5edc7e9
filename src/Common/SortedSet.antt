-- ===== src/Common/SortedSet.antt =====
-- `sorted(set(texts))`
use mathlib.Core.Path.{◌≡◌, refl}
use mathlib.Core.Bool.{false, ◌||◌}
use mathlib.Core.List.{List, [], ◌∷◌}
use native.Mathlib.Omega.{arith}
use text.Mathlib.TextEquality.{eq_iff}
use Prim.Native.String.{String}
use one_year_billion.Common.Base.{if◌then◌else◌, is_empty}
use one_year_billion.Common.Text.{◌≟◌, before, is_in}

unfoldable pub insert_text : String → List String → List String
insert_text s [] = s ∷ []
insert_text s (t ∷ ts) =
    let later = insert_text s ts in
    if s ≟ t then t ∷ ts else (if before s t then s ∷ t ∷ ts else t ∷ later)

unfoldable pub sorted_set : List String → List String
unfolding insert_text
sorted_set [] = []
sorted_set (s ∷ ss) = insert_text s (sorted_set ss)

sorted_set_sample : sorted_set ("b" ∷ "a" ∷ "b" ∷ []) ≡ "a" ∷ "b" ∷ []
unfolding sorted_set
sorted_set_sample = refl

is_empty-insert_text : (s : String) (ts : List String) → is_empty (insert_text s ts) ≡ false
unfolding insert_text
is_empty-insert_text s [] = refl
is_empty-insert_text s (t ∷ ts) = ground arith

pub is_empty-sorted_set : (ss : List String) → is_empty (sorted_set ss) ≡ is_empty ss
unfolding sorted_set
is_empty-sorted_set [] = refl
is_empty-sorted_set (s ∷ ss) = is_empty-insert_text s (sorted_set ss)

mem-insert_text :
    (r s : String) (ts : List String) → is_in r (insert_text s ts) ≡ (r ≟ s || is_in r ts)
unfolding insert_text
mem-insert_text r s [] = refl
mem-insert_text r s (t ∷ ts) =
    ground (arith, eq_iff s t, eq_iff r s, eq_iff r t, mem-insert_text r s ts)

pub mem-sorted_set : (r : String) (ss : List String) → is_in r (sorted_set ss) ≡ is_in r ss
unfolding sorted_set
mem-sorted_set r [] = refl
mem-sorted_set r (s ∷ ss) = ground (arith, mem-insert_text r s (sorted_set ss), mem-sorted_set r ss)
