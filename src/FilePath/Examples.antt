-- ===== src/FilePath/Examples.antt =====
-- Concrete runs of the theorems about paths, and tests.
use aibris.Prelude.{◌≡◌, refl, some, ◌<◌, Text, codes, List, [], ◌∷◌, true, text_eq}
use aibris.FilePath.{clean, abs_path, path_contains, target_path_depth, rel, rel_elements, elements}
use aibris.FilePath.Segments.{IsName}
use aibris.FilePath.Containment.{strict_prefix, path_contains-abs_path}
use aibris.FilePath.Depth.{IsCanonical, path_contains-depth, path_contains_trans}

a-IsName : IsName (codes "a")
unfolding text_eq
a-IsName = record { not_empty = refl; not_dot = refl; not_dot_dot = refl; no_sep = refl }

b-IsName : IsName (codes "b")
unfolding text_eq
b-IsName = record { not_empty = refl; not_dot = refl; not_dot_dot = refl; no_sep = refl }

abbrev one : List Text
one = codes "a" ∷ []

abbrev two : List Text
two = codes "a" ∷ codes "b" ∷ []

abbrev three : List Text
three = codes "a" ∷ codes "b" ∷ codes "a" ∷ []

path_contains-abs_path_example : path_contains (abs_path one) (abs_path two) ≡ strict_prefix one two
path_contains-abs_path_example =
    path_contains-abs_path one two (a-IsName, tt) (a-IsName, (b-IsName, tt))

one-IsCanonical : IsCanonical (abs_path one)
one-IsCanonical = record { names = one; are_names = (a-IsName, tt); path_eq = refl }

two-IsCanonical : IsCanonical (abs_path two)
two-IsCanonical = record { names = two; are_names = (a-IsName, (b-IsName, tt)); path_eq = refl }

three-IsCanonical : IsCanonical (abs_path three)
three-IsCanonical = record {
  names = three;
  are_names = (a-IsName, (b-IsName, (a-IsName, tt)));
  path_eq = refl;
}

one-contains-two : path_contains (abs_path one) (abs_path two) ≡ true
unfolding strict_prefix text_eq
one-contains-two = path_contains-abs_path one two (a-IsName, tt) (a-IsName, (b-IsName, tt))

two-contains-three : path_contains (abs_path two) (abs_path three) ≡ true
unfolding strict_prefix text_eq
two-contains-three =
    path_contains-abs_path two three (a-IsName, (b-IsName, tt))
      (a-IsName, (b-IsName, (a-IsName, tt)))

path_contains_trans_example : path_contains (abs_path one) (abs_path three) ≡ true
path_contains_trans_example =
    path_contains_trans (abs_path one) (abs_path two) (abs_path three) one-IsCanonical
      two-IsCanonical three-IsCanonical one-contains-two two-contains-three

path_contains-depth_example : target_path_depth (abs_path one) < target_path_depth (abs_path two)
path_contains-depth_example =
    path_contains-depth (abs_path one) (abs_path two) one-IsCanonical two-IsCanonical
      one-contains-two

clean_test : clean (codes "/a/./b//../c/") ≡ codes "/a/c"
unfolding clean text_eq
clean_test = refl

rel_test : rel (codes "/a/b") (codes "/a/c") ≡ some (codes "../c")
unfolding rel clean text_eq rel_elements elements
rel_test = refl
