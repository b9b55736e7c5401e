-- ===== src/FilePaths/Parts.antt =====
-- `parent` and `name` take a path apart.
use freeos.Prelude.{
  ℕ, zero, suc, ◌+◌, ◌-◌, ◌<◌, ◌≡◌, refl, ap, true, false, [], ◌∷◌, ◌++◌, none, some, arith, ltb,
  Option-cases, inl, inr, length, take, drop, take-append-drop, take_all,
}
use freeos.Prelude.Errors.{ok}
use freeos.Prelude.Paths.{Str}
use freeos.Links.{is_dir, is_root}
use freeos.FilePaths.{panics, returns, rfind, strip_suffix, parent, name}

rfind_lt : (s : Str) (i : ℕ) → rfind s ≡ some i → i < length s
unfolding rfind
rfind_lt [] i e = cc
rfind_lt (c ∷ s) i e = elim (Option-cases (rfind s)) [
  | inl no_more ↦ ground (arith, no_more, e)
  | inr (j, there) ↦ ground (arith, there, e, rfind_lt s j there)
]

-- Behind the last slash there is none.
rfind_last : (s : Str) (i : ℕ) → rfind s ≡ some i → rfind (drop (suc i) s) ≡ none
unfolding rfind
rfind_last [] i e = cc
rfind_last (c ∷ s) zero e = elim (Option-cases (rfind s)) [
  | inl no_more ↦ no_more
  | inr (j, there) ↦ absurd (ground (arith, there, e))
]
rfind_last (c ∷ s) (suc i) e = elim (Option-cases (rfind s)) [
  | inl no_more ↦ absurd (ground (arith, no_more, e))
  | inr (j, there) ↦ rfind_last s i (ground (arith, there, e))
]

-- What ends at the last slash ends in a slash.
rfind-is_dir : (s : Str) (i : ℕ) → rfind s ≡ some i → is_dir (take (suc i) s) ≡ true
unfolding rfind is_dir
rfind-is_dir [] i e = cc
rfind-is_dir (c ∷ s) zero e = elim (Option-cases (rfind s)) [
  | inl no_more ↦ ground (arith, no_more, e)
  | inr (j, there) ↦ absurd (ground (arith, there, e))
]
rfind-is_dir (c ∷ []) (suc i) e = absurd (ground (arith, e))
rfind-is_dir (c ∷ d ∷ s) (suc i) e = elim (Option-cases (rfind (d ∷ s))) [
  | inl no_more ↦ absurd (ground (arith, no_more, e))
  | inr (j, there) ↦ rfind-is_dir (d ∷ s) i (ground (arith, there, e))
]

is_dir-rfind : (s : Str) → is_dir s ≡ true → rfind s ≡ some (length s - 1)
unfolding rfind is_dir
is_dir-rfind [] e = cc
is_dir-rfind (c ∷ []) e = ground (arith, e)
is_dir-rfind (c ∷ d ∷ s) e = rw (is_dir-rfind (d ∷ s) e) (ap some (omega arith))

-- A path that is not the root, does not end in two slashes and has a slash is taken apart by
-- `parent` and `name`: without the slash at its end it is the one before the other, the parent ends in a slash, and the name has none.
pub parent-name :
    (p : Str) (pos : ℕ)
    → is_root p ≡ false
    → is_dir (strip_suffix p) ≡ false
    → rfind (strip_suffix p) ≡ some pos
    → (d : Str) × (n : Str) × (parent p ≡ ok d)
      × (name p ≡ returns (ok n))
      × (d ++ n ≡ strip_suffix p)
      × (is_dir d ≡ true)
      × (rfind n ≡ none)
unfolding parent name
parent-name p pos not_root single there =
    let s = strip_suffix p in
    let within : pos < length s = rfind_lt s pos there in
    let ordered : ltb (length s) (pos + 1) ≡ false = ground arith in
    (
      take (suc pos) s,
      drop (suc pos) s,
      rw (not_root, there) refl,
      rw (not_root, there, single, ordered) (ap (λ t. returns (ok t)) (rest s pos)),
      take-append-drop (suc pos) s,
      rfind-is_dir s pos there,
      rfind_last s pos there,
    )
  where
    length-drop : (n : ℕ) (t : Str) → length (drop n t) ≡ length t - n
    length-drop zero t = omega arith
    length-drop (suc n) [] = omega arith
    length-drop (suc n) (c ∷ t) = omega (arith, length-drop n t)

    rest : (s : Str) (pos : ℕ) → take (length s - (pos + 1)) (drop (pos + 1) s) ≡ drop (suc pos) s
    rest s pos =
        let one : pos + 1 ≡ suc pos = omega arith in
        rw one (
          take_all (length s - suc pos) (drop (suc pos) s) (omega (arith, length-drop (suc pos) s)))

-- `name` panics on a path that is not the root and ends in two slashes.
name_panics : (p : Str) → is_root p ≡ false → is_dir (strip_suffix p) ≡ true → name p ≡ panics
unfolding name
name_panics p not_root double =
    let s = strip_suffix p in
    let found : rfind s ≡ some (length s - 1) = is_dir-rfind s double in
    let behind_end : ltb (length s - 1) (length s - 1 + 1) ≡ true = ground arith in
    rw (not_root, found, double, behind_end) refl
