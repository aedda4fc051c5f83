-- ===== src/Prelude/Texts.antt =====
-- Texts taken apart: `strings.CutPrefix`, and `strings.SplitN` and `Split` at a character.
use Prim.Native.Char.{Char, code}
use Prim.Native.Nat.{ℕ}
use Prim.Native.String.{String}
use Prim.Native.String.append as Append
use mathlib.Core.Path.{◌≡◌, refl, ap, sym, ◌∙◌}
use mathlib.Core.Bool.{Bool, true, false, true≢false, ◌||◌}
use mathlib.Core.Logic.{inl, inr}
use mathlib.Core.List.{List, [], ◌∷◌}
use mathlib.Core.Option as Option
use mathlib.Core.Option.{Option, none, some}
use native.Mathlib.Omega.{arith}
use text.Mathlib.Text.{◌==◌}
use text.Mathlib.TextEquality.{eq_iff}
use loyalty_points_app.Prelude.Tests.{nat_eq, concat, Bool-cases, if◌then◌else◌}

-- What follows a prefix.
unfoldable pub cut_prefix : String → String → Option String
cut_prefix s String.[] = some s
cut_prefix String.[] (String.◌∷◌ p prefix) = none
cut_prefix (String.◌∷◌ c s) (String.◌∷◌ p prefix) =
    let rest = cut_prefix s prefix in if nat_eq (code c) (code p) then rest else none

pub cut_prefix-concat : (prefix s : String) → cut_prefix (concat prefix s) prefix ≡ some s
unfolding cut_prefix
cut_prefix-concat String.[] s = ap some (Append.nil s)
cut_prefix-concat (String.◌∷◌ p prefix) s =
    ground (arith, Append.cons p prefix s, cut_prefix-concat prefix s)

unfoldable pub has_char : ℕ → String → Bool
has_char sep String.[] = false
has_char sep (String.◌∷◌ c s) = nat_eq (code c) sep || has_char sep s

abbrev before_rest : Char → String × String → String × String
before_rest c (a, b) = (String.◌∷◌ c a, b)

-- The two parts at the first separator, where there is one.
unfoldable pub split_first : ℕ → String → Option (String × String)
split_first sep String.[] = none
split_first sep (String.◌∷◌ c s) =
    let rest = split_first sep s in
    if nat_eq (code c) sep then some ("", s) else Option.map (before_rest c) rest

-- All the parts at a separator.
abbrev onto_first : Char → List String → List String
onto_first c [] = String.◌∷◌ c "" ∷ []
onto_first c (p ∷ ps) = String.◌∷◌ c p ∷ ps

unfoldable pub split : ℕ → String → List String
split sep String.[] = "" ∷ []
split sep (String.◌∷◌ c s) =
    let rest = split sep s in if nat_eq (code c) sep then "" ∷ rest else onto_first c rest

-- A text without the separator, the separator and any text are split into the two.
pub split_first-concat :
    (sep : Char) (a b : String)
    → has_char (code sep) a ≡ false
    → split_first (code sep) (concat a (concat (String.◌∷◌ sep "") b)) ≡ some (a, b)
unfolding split_first has_char
split_first-concat sep String.[] b h =
    rw (Append.nil (concat (String.◌∷◌ sep "") b), Append.cons sep "" b, Append.nil b)
      (ground arith)
split_first-concat sep (String.◌∷◌ c a) b h =
    rw (Append.cons c a (concat (String.◌∷◌ sep "") b))
      (elim (Bool-cases (nat_eq (code c) (code sep))) [
        | inl same ↦ absurd (true≢false (rw same at h))
        | inr other ↦ rw (other, split_first-concat sep a b (rw other at h)) refl
      ])

abbrev has_first : String → Bool
has_first String.[] = false
has_first (String.◌∷◌ c s) = true

-- A text in front of which something stands is not empty.
pub concat-ne-empty : (c : Char) (a s : String) → (concat (String.◌∷◌ c a) s == "") ≡ false
concat-ne-empty c a s = elim (Bool-cases (concat (String.◌∷◌ c a) s == "")) [
  | inl same ↦ absurd (
      true≢false (
        sym (ap has_first (Append.cons c a s))
        ∙ ap has_first ((eq_iff (concat (String.◌∷◌ c a) s) "").0 same)))
  | inr other ↦ other
]
