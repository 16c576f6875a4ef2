-- ===== src/Common/Dict.antt =====
-- JavaScript's `Map` with text keys, in insertion order: `set` keeps the place of a key it holds.
use mathlib.Core.Path.{◌≡◌, refl, ◌∙◌}
use mathlib.Core.Bool.{Bool, true, false, not, ◌||◌}
use mathlib.Core.Logic.{inl, inr}
use mathlib.Core.List.{List, [], ◌∷◌, ◌++◌}
use mathlib.Core.Option.{Option, none, some}
use native.Mathlib.Omega.{arith}
use browsercore_http.Common.Tests.{Text, text_eq, if◌then◌else◌, text_eq→eq, Bool-cases, is_none}

abbrev pub Headers : Type 0
Headers = List (Text × Text)

unfoldable pub get : Text → Headers → Option Text
get k [] = none
get k ((j, v) ∷ m) = if text_eq j k then some v else get k m

unfoldable pub has : Text → Headers → Bool
has k [] = false
has k ((j, v) ∷ m) = text_eq j k || has k m

unfoldable pub set : Text → Text → Headers → Headers
set k v [] = (k, v) ∷ []
set k v ((j, w) ∷ m) = if text_eq j k then (j, v) ∷ m else (j, w) ∷ set k v m

-- No key stands twice, as in every `Map`.
abbrev pub IsMap : Headers → Type 0
IsMap [] = Unit {0}
IsMap ((k, v) ∷ m) = (has k m ≡ false) × IsMap m

pub text_eq_comm : (s t : Text) → text_eq s t ≡ text_eq t s
unfolding text_eq
text_eq_comm [] [] = refl
text_eq_comm [] (y ∷ ys) = refl
text_eq_comm (x ∷ xs) [] = refl
text_eq_comm (x ∷ xs) (y ∷ ys) = ground (arith, text_eq_comm xs ys)

pub set_fresh : (k v : Text) (m : Headers) → has k m ≡ false → set k v m ≡ m ++ ((k, v) ∷ [])
unfolding has set
set_fresh k v [] h = refl
set_fresh k v ((j, w) ∷ m) h = ground (arith, set_fresh k v m)

pub has-append : (k : Text) (m n : Headers) → has k (m ++ n) ≡ has k m || has k n
unfolding has
has-append k [] n = refl
has-append k ((j, w) ∷ m) n = ground (arith, has-append k m n)

-- A key of the second part is not in the first.
pub IsMap-append : (k v : Text) (m n : Headers) → IsMap (m ++ ((k, v) ∷ n)) → has k m ≡ false
unfolding has
IsMap-append k v [] n h = refl
IsMap-append k v ((j, w) ∷ m) n h =
    ground (arith, has-append j m ((k, v) ∷ n), text_eq_comm j k, IsMap-append k v m n h.1)

text_eq_left : (i k j : Text) → text_eq i k ≡ true → text_eq k j ≡ text_eq i j
text_eq_left i k j h = rw (text_eq→eq i k h)

text_eq_right : (i k j : Text) → text_eq k j ≡ true → text_eq i j ≡ text_eq i k
text_eq_right i k j h = rw (text_eq→eq k j h)

-- The law of `Map.prototype.set` and `get`.
pub get-set :
    (j k v : Text) (m : Headers) → get j (set k v m) ≡ (if text_eq k j then some v else get j m)
unfolding get set
get-set j k v [] = refl
get-set j k v ((i, w) ∷ m) =
    ground (arith, text_eq_left i k j, text_eq_right i k j, get-set j k v m)

pub has-get : (k : Text) (m : Headers) → has k m ≡ not (is_none (get k m))
unfolding has get
has-get k [] = refl
has-get k ((j, v) ∷ m) = ground (arith, has-get k m)

pub has-set : (j k v : Text) (m : Headers) → has j (set k v m) ≡ text_eq k j || has j m
unfolding has set
has-set j k v [] = ground arith
has-set j k v ((i, w) ∷ m) = ground (arith, text_eq_left i k j, has-set j k v m)

pub set-IsMap : (k v : Text) (m : Headers) → IsMap m → IsMap (set k v m)
unfolding has set
set-IsMap k v [] h = (refl, tt)
set-IsMap k v ((i, w) ∷ m) (fresh, h) = elim (Bool-cases (text_eq i k)) [
  | inl here ↦ rw (set, here) (fresh, h)
  | inr there ↦
      rw (set, there)
        (has-set i k v m ∙ ground (arith, there, fresh, text_eq_comm i k), set-IsMap k v m h)
]
