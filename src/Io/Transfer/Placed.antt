-- ===== src/Io/Transfer/Placed.antt =====
-- Bytes placed in a file at an offset.
use freeos.Prelude.{
  ℕ, ◌+◌, ◌≤◌, ◌≡◌, ap, ap₂, sym, ◌∙◌, List, ◌++◌, arith, length, take, drop, length-append,
  length-take, take-append_left, append_assoc, take-append-drop, take_all, [], drop-append_right,
  drop-drop,
}

-- The content with `bytes` in place of what was at the offset.
abbrev pub place : ℕ → List ℕ → List ℕ → List ℕ
place o bytes c = take o c ++ (bytes ++ drop (o + length bytes) c)

pub length-place :
    (o : ℕ) (bytes c : List ℕ) → o ≤ length c → o + length bytes ≤ length (place o bytes c)
length-place o bytes c inside = omega (
  arith,
  length-append (take o c) (bytes ++ drop (o + length bytes) c),
  length-append bytes (drop (o + length bytes) c),
  length-take o c inside,
)

pub place-nil : (o : ℕ) (c : List ℕ) → place o [] c ≡ c
place-nil o c =
    let none_more : o + 0 ≡ o = omega arith in
    ap (λ k. take o c ++ drop k c) none_more ∙ take-append-drop o c

-- Bytes placed behind those that were placed before.
pub place-place :
    (o : ℕ) (a b c : List ℕ)
    → o ≤ length c
    → place (o + length a) b (place o a c) ≡ place o (a ++ b) c
place-place o a b c inside =
    let t = take o c in
    let rest = drop (o + length a) c in
    let lt : length t ≡ o = length-take o c inside in
    let la : length (t ++ a) ≡ o + length a = length-append t a ∙ ap (λ k. k + length a) lt in
    let whole : place o a c ≡ (t ++ a) ++ rest = sym (append_assoc t a rest) in
    let front : take (o + length a) (place o a c) ≡ t ++ a =
      ap (take (o + length a)) whole
      ∙ take-append_left (o + length a) (t ++ a) rest (omega (arith, la))
      ∙ take_all (o + length a) (t ++ a) (omega (arith, la)) in
    let back : drop (o + length a + length b) (place o a c) ≡ drop (o + length (a ++ b)) c =
      ap₂ drop (ap (λ k. k + length b) (sym la)) whole
      ∙ drop-append_right (length b) (t ++ a) rest
      ∙ drop-drop (length b) (o + length a) c
      ∙ ap (λ k. drop k c) (let n = length-append a b in omega (arith, n)) in
    ap₂ (λ x y. x ++ (b ++ y)) front back
    ∙ append_assoc t a (b ++ drop (o + length (a ++ b)) c)
    ∙ ap (λ x. t ++ x) (sym (append_assoc a b (drop (o + length (a ++ b)) c)))
