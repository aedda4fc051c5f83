-- ===== src/Tests/Letters.antt =====
-- An order of texts for the sample: character by character, by code point.
use Prim.Native.Char.{code}
use text.Mathlib.TextEquality.{Char-path}
use loyalty_points_app.Prelude.{
  String, ◌≡◌, refl, Bool, true, false, ◌&&◌, ◌||◌, ltb, nat_eq, arith, eq_iff, ◌==◌,
}

abbrev pub sorts_before : String → String → Bool
sorts_before String.[] String.[] = false
sorts_before String.[] (String.◌∷◌ d t) = true
sorts_before (String.◌∷◌ c s) String.[] = false
sorts_before (String.◌∷◌ c s) (String.◌∷◌ d t) =
    ltb (code c) (code d) || nat_eq (code c) (code d) && sorts_before s t

pub sorts_before_irrefl : (s : String) → sorts_before s s ≡ false
sorts_before_irrefl String.[] = refl
sorts_before_irrefl (String.◌∷◌ c s) = ground (arith, sorts_before_irrefl s)

pub sorts_before_trans :
    (s t u : String) → sorts_before s t ≡ true → sorts_before t u ≡ true → sorts_before s u ≡ true
sorts_before_trans String.[] String.[] u h k = ground arith
sorts_before_trans String.[] (String.◌∷◌ d t) String.[] h k = ground arith
sorts_before_trans String.[] (String.◌∷◌ d t) (String.◌∷◌ f u) h k = refl
sorts_before_trans (String.◌∷◌ c s) String.[] u h k = ground arith
sorts_before_trans (String.◌∷◌ c s) (String.◌∷◌ d t) String.[] h k = ground arith
sorts_before_trans (String.◌∷◌ c s) (String.◌∷◌ d t) (String.◌∷◌ f u) h k =
    ground (arith, sorts_before_trans s t u)

sorts_before_antisym : (s t : String) → sorts_before s t ≡ false → sorts_before t s ≡ false → s ≡ t
sorts_before_antisym String.[] String.[] h k = refl
sorts_before_antisym String.[] (String.◌∷◌ d t) h k = ground arith
sorts_before_antisym (String.◌∷◌ c s) String.[] h k = ground arith
sorts_before_antisym (String.◌∷◌ c s) (String.◌∷◌ d t) h k =
    ground (arith, Char-path c d, sorts_before_antisym s t)

pub sorts_before_total :
    (s t : String) → (s == t) ≡ false → sorts_before s t ≡ false → sorts_before t s ≡ true
sorts_before_total s t h k = ground (arith, eq_iff s t, sorts_before_antisym s t)
