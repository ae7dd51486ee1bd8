-- ===== src/Util/Texts.antt =====
-- `strings.Split` and `strings.Join`-like loops, by a one-byte separator.
use Prim.Native.Char.{Char, code}
use Prim.Native.String.{String}
use elasticell_operator.Base.{ℕ, List, [], ◌∷◌, nat_eq, if◌then◌else◌, ◌≡◌, refl}

abbrev put_char : Char → List String → List String
put_char c [] = String.◌∷◌ c String.[] ∷ []
put_char c (p ∷ ps) = String.◌∷◌ c p ∷ ps

-- The parts of a text between the separators; a text with none is its only part.
unfoldable pub split : ℕ → String → List String
split sep String.[] = String.[] ∷ []
split sep (String.◌∷◌ c s) =
    let rest = split sep s in if nat_eq (code c) sep then String.[] ∷ rest else put_char c rest

split_example : split b',' "a,b,,c" ≡ "a" ∷ "b" ∷ "" ∷ "c" ∷ []
unfolding split
split_example = refl
