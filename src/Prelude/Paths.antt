-- ===== src/Prelude/Paths.antt =====
-- Strings, as lists of bytes, and `BTreeMap` with string keys: an association list whose first entry of
-- a key counts. The order of the keys does not show, since no such map is walked through.
use freeos.Prelude.Tests.{◌==◌, if◌then◌else◌}
use Prim.Native.Nat.{ℕ}
use mathlib.Core.Path.{◌≡◌, refl}
use mathlib.Core.Bool.{Bool, true, false, ◌&&◌}
use mathlib.Core.Option.{Option, none, some}
use mathlib.Core.List.{List, [], ◌∷◌}
use native.Mathlib.Omega.{arith}

-- The bytes of a `String`.
abbrev pub Str : Type 0
Str = List ℕ

unfoldable pub same : Str → Str → Bool
same [] [] = true
same [] (y ∷ t) = false
same (x ∷ s) [] = false
same (x ∷ s) (y ∷ t) = x == y && same s t

pub same_self : (s : Str) → same s s ≡ true
unfolding same
same_self [] = refl
same_self (x ∷ s) = ground (arith, same_self s)

pub same-≡ : (s t : Str) → same s t ≡ true → s ≡ t
unfolding same
same-≡ [] [] e = refl
same-≡ [] (y ∷ t) e = cc
same-≡ (x ∷ s) [] e = cc
same-≡ (x ∷ s) (y ∷ t) e = ground (arith, same-≡ s t)

same_comm : (s t : Str) → same s t ≡ same t s
unfolding same
same_comm [] [] = refl
same_comm [] (y ∷ t) = refl
same_comm (x ∷ s) [] = refl
same_comm (x ∷ s) (y ∷ t) = ground (arith, same_comm s t)

abbrev pub StrMap {ℓ} : Type ℓ → Type ℓ
StrMap V = List (Str × V)

module _ {ℓ} {V : Type ℓ} where
  unfoldable pub get : Str → StrMap V → Option V
  get k [] = none
  get k ((j, v) ∷ m) = if same j k then some v else get k m

  unfoldable pub insert : Str → V → StrMap V → StrMap V
  insert k v [] = (k, v) ∷ []
  insert k v ((j, w) ∷ m) = if same j k then (j, v) ∷ m else (j, w) ∷ insert k v m

  unfoldable pub remove : Str → StrMap V → StrMap V
  remove k [] = []
  remove k ((j, w) ∷ m) = if same j k then m else (j, w) ∷ remove k m

  -- Each key occurs once.
  abbrev pub Distinct : StrMap V → Type ℓ
  Distinct [] = Unit {ℓ}
  Distinct ((j, v) ∷ m) = (get j m ≡ none) × Distinct m

  pub get-insert :
      (k j : Str) (v : V) (m : StrMap V)
      → get j (insert k v m) ≡ (if same k j then some v else get j m)
  unfolding get insert
  get-insert k j v [] = refl
  get-insert k j v ((i, w) ∷ m) =
      ground (arith, get-insert k j v m, same-≡ i k, same-≡ i j, same-≡ k j, same_self i)

  pub get-remove_other :
      (k j : Str) (m : StrMap V) → same k j ≡ false → get j (remove k m) ≡ get j m
  unfolding get remove
  get-remove_other k j [] ne = refl
  get-remove_other k j ((i, w) ∷ m) ne =
      ground (arith, get-remove_other k j m, same-≡ i k, same-≡ i j)

  pub get-remove_self : (k : Str) (m : StrMap V) → Distinct m → get k (remove k m) ≡ none
  unfolding get remove
  get-remove_self k [] d = refl
  get-remove_self k ((i, w) ∷ m) d = ground (arith, get-remove_self k m d.1, same-≡ i k)

  pub insert-Distinct : (k : Str) (v : V) (m : StrMap V) → Distinct m → Distinct (insert k v m)
  unfolding insert get
  insert-Distinct k v [] d = (refl, tt)
  insert-Distinct k v ((i, w) ∷ m) d =
      ground (arith, insert-Distinct k v m d.1, get-insert k i v m, same_comm i k)

  pub remove-Distinct : (k : Str) (m : StrMap V) → Distinct m → Distinct (remove k m)
  unfolding remove
  remove-Distinct k [] d = tt
  remove-Distinct k ((i, w) ∷ m) d =
      ground (arith, remove-Distinct k m d.1, get-remove_other k i m, same_comm i k)
