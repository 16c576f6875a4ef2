-- ===== src/Common/Table/Laws.antt =====
-- What `find` sees behind `set` and `delete`.
use Prim.Native.Nat.{ℕ}
use mathlib.Core.Path.{◌≡◌, refl}
use mathlib.Core.Logic.{◌≢◌, inl, inr}
use mathlib.Core.List.{List, [], ◌∷◌}
use mathlib.Core.Bool.{true, false}
use mathlib.Core.Option.{none, some}
use native.Mathlib.Omega.{arith}
use browsercore_http.Common.Tests.{◌==◌, Bool-cases}
use browsercore_http.Common.Table.{find, set, delete}

module _ {ℓ} {V : Type ℓ} where
  pub find_here :
      (j k : ℕ) (w : V) (m : List (ℕ × V)) → (j == k) ≡ true → find k ((j, w) ∷ m) ≡ some w
  unfolding find
  find_here j k w m here = rw (find, here) refl

  pub find_there :
      (j k : ℕ) (w : V) (m : List (ℕ × V)) → (j == k) ≡ false → find k ((j, w) ∷ m) ≡ find k m
  unfolding find
  find_there j k w m there = rw (find, there) refl

  pub find-set : (k : ℕ) (v : V) (m : List (ℕ × V)) → find k (set k v m) ≡ some v
  unfolding find set
  find-set k v [] = ground arith
  find-set k v ((j, w) ∷ m) = elim (Bool-cases (j == k)) [
    | inl here ↦ rw (set, here) (rw (find, here) refl)
    | inr there ↦ rw (set, there) (rw (find, there) (find-set k v m))
  ]

  pub find-set_other : (i k : ℕ) (v : V) (m : List (ℕ × V)) → i ≢ k → find i (set k v m) ≡ find i m
  unfolding find set
  find-set_other i k v [] other = ground arith
  find-set_other i k v ((j, w) ∷ m) other = elim (Bool-cases (j == k)) [
    | inl here ↦ ground arith
    | inr there ↦ ground (arith, find-set_other i k v m other)
  ]

  pub find-delete_other : (i k : ℕ) (m : List (ℕ × V)) → i ≢ k → find i (delete k m) ≡ find i m
  unfolding find delete
  find-delete_other i k [] other = refl
  find-delete_other i k ((j, w) ∷ m) other = elim (Bool-cases (j == k)) [
    | inl here ↦ ground arith
    | inr there ↦ ground (arith, find-delete_other i k m other)
  ]

  -- A key that is missing stays missing.
  pub find-delete_missing :
      (i k : ℕ) (m : List (ℕ × V)) → find i m ≡ none → find i (delete k m) ≡ none
  unfolding find delete
  find-delete_missing i k [] h = refl
  find-delete_missing i k ((j, w) ∷ m) h = elim (Bool-cases (j == k)) [
    | inl here ↦ ground arith
    | inr there ↦ ground (arith, find-delete_missing i k m)
  ]
