-- ===== src/Tests/Paths.antt =====
-- Path names: include/utils/path.h.
use naive_fs.Base.{◌≡◌, refl, ◌⊎◌, inr, true, false, [], ◌∷◌, ◌++◌, List, ℕ}
use naive_fs.FilePath.{parse}
use naive_fs.FilePath.Parse.{join, AreNames, parse-join, parse_sound}

abbrev two_names : List (List ℕ)
two_names = (b'a' ∷ b'b' ∷ []) ∷ (b'c' ∷ []) ∷ []

double_separator : (parse (b'/' ∷ b'a' ∷ b'/' ∷ b'/' ∷ b'b' ∷ [])).valid ≡ false
unfolding parse
double_separator = refl

parse-join_example :
    parse (join two_names ++ (b'/' ∷ [])) ≡ record { valid = true; name_list = two_names }
unfolding join
parse-join_example =
    parse-join two_names (b'/' ∷ []) ((refl, (refl, (refl, tt))), ((refl, (refl, tt)), tt))
      (inr refl) refl

abbrev path_name : List ℕ
path_name = b'/' ∷ b'a' ∷ b'/' ∷ []

parse_sound_example :
    AreNames (parse path_name).name_list
    × ((path_name ≡ join (parse path_name).name_list)
        ⊎ (path_name ≡ join (parse path_name).name_list ++ (b'/' ∷ [])))
unfolding parse
parse_sound_example = parse_sound path_name refl
