-- ===== src/Links/Counts.antt =====
-- The reference counts of `HardlinkManager` count its links.
use freeos.Prelude.{
  ℕ, zero, suc, ◌+◌, ◌≡◌, ◌≢◌, refl, false, [], ◌∷◌, Option, none, some, arith, ◌==◌, if◌then◌else◌,
  Bool-cases, Option-cases, inl, inr,
}
use freeos.Prelude.Paths.{
  Str, StrMap, same, same_self, same-≡, get, insert, remove, Distinct, get-insert, get-remove_other,
  get-remove_self, insert-Distinct, remove-Distinct,
}
use freeos.Links.{
  FileSystem, Links, State, increase, decrease_ref_count, enter, atomic_link_update,
  atomic_link_remove, create_link, or_remove_file, remove_link,
}

-- 1 when the link leads to `q`.
abbrev leads : Str → Option Str → ℕ
leads q none = 0
leads q (some p) = if same p q then 1 else 0

-- How many links lead to `q`.
unfoldable pub count : Str → StrMap Str → ℕ
count q [] = 0
count q ((k, p) ∷ m) = leads q (some p) + count q m

count-insert :
    (q k p : Str) (m : StrMap Str)
    → count q (insert k p m) + leads q (get k m) ≡ count q m + leads q (some p)
unfolding count insert get
count-insert q k p [] = omega arith
count-insert q k p ((j, w) ∷ m) = ground (arith, count-insert q k p m)

count-remove : (q k : Str) (m : StrMap Str) → count q (remove k m) + leads q (get k m) ≡ count q m
unfolding count remove get
count-remove q k [] = omega arith
count-remove q k ((j, w) ∷ m) = ground (arith, count-remove q k m)

-- The number that a table of counts holds for a path, 0 where it has no entry.
abbrev pub counted : Option ℕ → ℕ
counted none = 0
counted (some n) = n

-- No entry is 0, and the entries are the numbers that `c` gives.
abbrev pub Counts : (Str → ℕ) → StrMap ℕ → Type 0
Counts c m = Distinct m × ((q : Str) → (counted (get q m) ≡ c q) × (get q m ≢ some 0))

-- Every link is counted: a path's count is the number of links that lead to it.
pub record IsCounted (l : Links) : Type 0 where
  pub one_link : Distinct l.links
  pub counts : Counts (λ q. count q l.links) l.ref_counts

-- `decreased` and `increase` in a table of counts.
decrease_entry-Counts :
    (p : Str) (n : ℕ) (c c' : Str → ℕ) (m : StrMap ℕ)
    → Counts c m
    → ((q : Str) → c' q + leads q (some p) ≡ c q)
    → get p m ≡ some (suc (suc n))
    → Counts c' (insert p (suc n) m)
decrease_entry-Counts p n c c' m (d, k) less e = (
  insert-Distinct p (suc n) m d,
  λ q. (
    ground (arith, get-insert p q (suc n) m, k q, less q, same-≡ p q),
    ground (arith, get-insert p q (suc n) m, k q),
  ),
)

drop_entry-Counts :
    (p : Str) (c c' : Str → ℕ) (m : StrMap ℕ)
    → Counts c m
    → ((q : Str) → c' q + leads q (some p) ≡ c q)
    → get p m ≡ some 1
    → Counts c' (remove p m)
drop_entry-Counts p c c' m (d, k) less e = (
  remove-Distinct p m d,
  λ q. elim (Bool-cases (same p q)) [
    | inl it ↦
        let p_q : p ≡ q = same-≡ p q it in
        (
          ground (arith, p_q, get-remove_self p m d, k q, less q),
          ground (arith, p_q, get-remove_self p m d),
        )
    | inr other ↦ (
      ground (arith, get-remove_other p q m other, k q, less q),
      ground (arith, get-remove_other p q m other, k q),
    )
  ],
)

increase-Counts :
    (p : Str) (c c' : Str → ℕ) (m : StrMap ℕ)
    → Counts c m
    → ((q : Str) → c' q ≡ c q + leads q (some p))
    → Counts c' (increase p m)
increase-Counts p c c' m (d, k) more = elim (Option-cases (get p m)) [
  | inl absent ↦
      rw (absent, increase)
        (
          insert-Distinct p 1 m d,
          λ q. (
            ground (arith, get-insert p q 1 m, k q, more q, same-≡ p q),
            ground (arith, get-insert p q 1 m, k q),
          ),
        )
  | inr (n, there) ↦
      rw (there, increase)
        (
          insert-Distinct p (n + 1) m d,
          λ q. (
            ground (arith, get-insert p q (n + 1) m, k q, more q, same-≡ p q),
            ground (arith, get-insert p q (n + 1) m, k q),
          ),
        )
]

module _ (f : FileSystem) where
  decrease_ref_count-Counts :
      (p : Str) (s : State f) (c c' : Str → ℕ)
      → Counts c s.inner.ref_counts
      → ((q : Str) → c' q + leads q (some p) ≡ c q)
      → Counts c' (decrease_ref_count f p s).1.inner.ref_counts
  unfolding decrease_ref_count
  decrease_ref_count-Counts p s c c' k less = elim (Option-cases (get p s.inner.ref_counts)) [
    | inl absent ↦ absurd (ground (arith, k.1 p, less p, same_self p))
    | inr (zero, there) ↦ absurd ((k.1 p).1 there)
    | inr (suc zero, there) ↦ rw there (drop_entry-Counts p c c' s.inner.ref_counts k less there)
    | inr (suc (suc n), there) ↦
        let left : (suc n == 0) ≡ false = ground arith in
        rw (there, left) (decrease_entry-Counts p n c c' s.inner.ref_counts k less there)
  ]

  -- Counting down touches no link.
  pub decrease_ref_count_links :
      (p : Str) (s : State f) → (decrease_ref_count f p s).1.inner.links ≡ s.inner.links
  unfolding decrease_ref_count
  decrease_ref_count_links p s = ground arith

  enter-IsCounted :
      (src dst : Str) (s : State f)
      → Distinct s.inner.links
      → Counts (λ q. count q (remove src s.inner.links)) s.inner.ref_counts
      → IsCounted (enter f src dst s).inner
  enter-IsCounted src dst s d k = record {
    one_link = insert-Distinct src dst s.inner.links d;
    counts =
        increase-Counts dst (λ q. count q (remove src s.inner.links))
          (λ q. count q (insert src dst s.inner.links)) s.inner.ref_counts k
          (λ q.
            ground (arith, count-insert q src dst s.inner.links, count-remove q src s.inner.links));
  }

  -- Counts do not change when a path without a link is taken out.
  Counts-remove :
      (src : Str) (s : State f)
      → get src s.inner.links ≡ none
      → IsCounted s.inner
      → Counts (λ q. count q (remove src s.inner.links)) s.inner.ref_counts
  Counts-remove src s absent v = (
    v.counts.0,
    λ q. (ground (arith, v.counts.1 q, count-remove q src s.inner.links), (v.counts.1 q).1),
  )

  atomic_link_update-IsCounted :
      (src dst : Str) (s : State f)
      → IsCounted s.inner
      → IsCounted (atomic_link_update f src dst s).inner
  unfolding atomic_link_update
  atomic_link_update-IsCounted src dst s v = elim (Option-cases (get src s.inner.links)) [
    | inl absent ↦ rw absent (enter-IsCounted src dst s v.one_link (Counts-remove src s absent v))
    | inr (old, linked) ↦ rw linked (elim (Bool-cases (same old dst)) [
      | inl it ↦ rw it v
      | inr other ↦
          let same_links = decrease_ref_count_links old s in
          rw other (
            enter-IsCounted src dst (decrease_ref_count f old s).1 (rw same_links v.one_link) (
              rw same_links (
                decrease_ref_count-Counts old s (λ q. count q s.inner.links)
                  (λ q. count q (remove src s.inner.links)) v.counts
                  (λ q. ground (arith, count-remove q src s.inner.links)))))
    ])
  ]

  -- `create_link` keeps every path's reference count equal to the number of links that lead to it.
  pub create_link-IsCounted :
      (src dst : Str) (s : State f)
      → IsCounted s.inner
      → IsCounted (create_link f src dst s).1.inner
  unfolding create_link
  create_link-IsCounted src dst s v = ground (arith, atomic_link_update-IsCounted src dst s v)

  atomic_link_remove-IsCounted :
      (src : Str) (s : State f) → IsCounted s.inner → IsCounted (atomic_link_remove f src s).1.inner
  unfolding atomic_link_remove
  atomic_link_remove-IsCounted src s v = elim (Option-cases (get src s.inner.links)) [
    | inl absent ↦ rw absent v
    | inr (dst, linked) ↦
        let s' : State f = record s {
          inner = record s.inner { links = remove src s.inner.links };
        } in
        let same_links = decrease_ref_count_links dst s' in
        rw linked (record {
          one_link = rw same_links (remove-Distinct src s.inner.links v.one_link);
          counts = rw same_links (
              decrease_ref_count-Counts dst s' (λ q. count q s.inner.links)
                (λ q. count q (remove src s.inner.links)) v.counts
                (λ q. ground (arith, count-remove q src s.inner.links)));
        })
  ]

  or_remove_file-inner :
      (src : Str) (out : Option Str × State f) → (or_remove_file f src out).1.inner ≡ out.1.inner
  or_remove_file-inner src (none, s) = refl
  or_remove_file-inner src (some dst, s) = refl

  -- `remove_link` keeps every path's reference count equal to the number of links that lead to it.
  remove_link-IsCounted :
      (src : Str) (s : State f) → IsCounted s.inner → IsCounted (remove_link f src s).1.inner
  unfolding remove_link
  remove_link-IsCounted src s v =
      rw (or_remove_file-inner src (atomic_link_remove f src s))
        (atomic_link_remove-IsCounted src s v)
