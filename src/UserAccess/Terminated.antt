-- ===== src/UserAccess/Terminated.antt =====
-- What `check_null_terminated` reads, and what it gives.
use freeos.Prelude.{
  ℕ, zero, suc, ◌+◌, ◌-◌, ◌*◌, ◌/◌, ◌≤◌, ◌<◌, ◌≡◌, ◌≢◌, ap, subst, true, Option, none, some, ◌==◌,
  leb, arith, if◌then◌else◌, Bool-cases, inl, inr,
}
use freeos.Prelude.Errors.{LinuxResult, ok, err}
use freeos.Prelude.Words.{align_down_4k}
use freeos.UserAccess.{Space, is_aligned, page_loop, scan_loop, check_null_terminated}

module _ (a : Space) where
  open a use {check_region_access, read}

  -- The page `j` behind the page `base`.
  abbrev nth_page : ℕ → ℕ → ℕ
  nth_page base j = base + j * 4096

  -- The first `j` pages from `base` on were checked.
  abbrev PagesChecked : ℕ → ℕ → Type 0
  PagesChecked base j = (k : ℕ) → k < j → check_region_access (nth_page base k) 4096 ≡ true

  one_more :
      (base j : ℕ)
      → PagesChecked base j
      → check_region_access (nth_page base j) 4096 ≡ true
      → PagesChecked base (suc j)
  one_more base j before now k h = elim (Bool-cases (k == j)) [
    | inl it ↦ let e : k ≡ j = ground (arith, it) in rw e now
    | inr other ↦ before k (ground (arith, other))
  ]

  -- After the loop over the pages, the page of `ptr` is behind.
  abbrev Reached : ℕ → ℕ → LinuxResult ℕ → Type 0
  Reached base ptr (err e) = Unit {0}
  Reached base ptr (ok page) =
      (j : ℕ) × (page ≡ nth_page base j) × (ptr < page) × PagesChecked base j

  page_loop-Reached :
      (rounds base j ptr page : ℕ)
      → page ≡ nth_page base j
      → PagesChecked base j
      → ptr < page + rounds
      → Reached base ptr (page_loop a rounds ptr page)
  unfolding page_loop
  page_loop-Reached zero base j ptr page e c h = (j, e, omega arith, c)
  page_loop-Reached (suc rounds) base j ptr page e c h = elim (Bool-cases (leb page ptr)) [
    | inl more ↦ elim (Bool-cases (check_region_access page 4096)) [
      | inl may ↦
          rw (more, may)
            (page_loop-Reached rounds base (suc j) ptr (page + 4096) (omega (arith, e))
              (one_more base j c (subst (λ q. check_region_access q 4096 ≡ true) e may))
              (omega arith))
      | inr may_not ↦ rw (more, may_not) tt
    ]
    | inr over ↦ rw over (j, e, ground (arith, over), c)
  ]

  page_of :
      (start ptr j : ℕ)
      → start ≤ ptr
      → ptr < nth_page (align_down_4k start) j
      → PagesChecked (align_down_4k start) j
      → check_region_access (align_down_4k ptr) 4096 ≡ true
  unfolding align_down_4k
  page_of start ptr j behind within c =
      let k = ptr / 4096 - start / 4096 in
      let same_page : nth_page (start / 4096 * 4096) k ≡ ptr / 4096 * 4096 = omega arith in
      subst (λ q. check_region_access q 4096 ≡ true) same_page (c k (omega arith))

  -- The scan stops at the element `z`, and the pages of the elements up to it may be read.
  abbrev pub Stops : ℕ → ℕ → ℕ → Option (LinuxResult ℕ) → Type 0
  Stops start size z none = ⊥
  Stops start size z (some (err e)) = Unit {0}
  Stops start size z (some (ok n)) =
      (n ≡ z)
      × ((i : ℕ) → i ≤ z → check_region_access (align_down_4k (start + i * size)) 4096 ≡ true)

  module _ (start size z : ℕ) (ends : read (start + z * size) ≡ 0)
      (goes_on : (i : ℕ) → i < z → read (start + i * size) ≢ 0) where
    -- The elements before `len` were read behind a check.
    abbrev ReadChecked : ℕ → Type 0
    ReadChecked len =
        (i : ℕ) → i < len → check_region_access (align_down_4k (start + i * size)) 4096 ≡ true

    read_one :
        (len j page : ℕ)
        → page ≡ nth_page (align_down_4k start) j
        → start + len * size < page
        → PagesChecked (align_down_4k start) j
        → ReadChecked len
        → ReadChecked (suc len)
    read_one len j page e within c before i h = elim (Bool-cases (i == len)) [
      | inl it ↦
          let same : i ≡ len = ground (arith, it) in
          rw same (page_of start (start + len * size) j (omega arith) (omega (arith, e)) c)
      | inr other ↦ before i (ground (arith, other))
    ]

    after_pages :
        (fuel len : ℕ) (r : LinuxResult ℕ)
        → len ≤ z
        → Reached (align_down_4k start) (start + len * size) r
        → ReadChecked len
        → ((j page : ℕ)
            → len < z
            → page ≡ nth_page (align_down_4k start) j
            → PagesChecked (align_down_4k start) j
            → ReadChecked (suc len)
            → Stops start size z (scan_loop a fuel start size (len + 1) page))
        → Stops start size z (elim r [
          | err e ↦ some (err e)
          | ok page' ↦
              let rest = scan_loop a fuel start size (len + 1) page' in
              if read (start + len * size) == 0 then some (ok len) else rest
        ])
    after_pages fuel len (err e) h reached before next = tt
    after_pages fuel len (ok page) h (j, e, within, c) before next =
        let now = read_one len j page e within c before in
        elim (Bool-cases (read (start + len * size) == 0)) [
          | inl zero_here ↦ elim (Bool-cases (len == z)) [
            | inl it ↦
                let same : len ≡ z = ground (arith, it) in
                rw zero_here (same, (λ i p. now i (omega (arith, same))))
            | inr early ↦ absurd (goes_on len (ground (arith, early)) (ground (arith, zero_here)))
          ]
          | inr more ↦ elim (Bool-cases (len == z)) [
            | inl it ↦
                let same : len ≡ z = ground (arith, it) in
                absurd (ground (arith, more, ends, ap (λ n. read (start + n * size)) same))
            | inr early ↦ rw more (next j page (ground (arith, early)) e c now)
          ]
        ]

    scan_loop-Stops :
        (fuel len j page : ℕ)
        → len ≤ z
        → z < len + fuel
        → page ≡ nth_page (align_down_4k start) j
        → PagesChecked (align_down_4k start) j
        → ReadChecked len
        → Stops start size z (scan_loop a fuel start size len page)
    unfolding scan_loop
    scan_loop-Stops zero len j page h bound e c before = absurd (omega arith)
    scan_loop-Stops (suc fuel) len j page h bound e c before =
        let ptr = start + len * size in
        after_pages fuel len (page_loop a (suc ptr) ptr page) h
          (page_loop-Reached (suc ptr) (align_down_4k start) j ptr page e c (omega arith)) before
          (λ j' page' less e' c' now.
            subst (λ n. Stops start size z (scan_loop a fuel start size n page')) (omega arith)
              (scan_loop-Stops fuel (suc len) j' page' less (omega arith) e' c' now))

    -- Where the first zero among the elements is the element `z`, and with fuel for it,
    -- `check_null_terminated` comes to an end. It fails, or gives `z`, and then every element that it
    -- read lies in a page that the check of the region lets it read.
    pub check_null_terminated-Stops :
        (fuel align : ℕ)
        → z < fuel
        → Stops start size z (check_null_terminated a fuel start size align)
    unfolding check_null_terminated
    check_null_terminated-Stops fuel align bound = elim (Bool-cases (is_aligned start align)) [
      | inl fine ↦ rw fine (
          scan_loop-Stops fuel 0 0 (align_down_4k start) (omega arith) (omega arith) (omega arith)
            (λ k p. absurd (omega arith)) (λ i p. absurd (omega arith)))
      | inr odd ↦ rw odd tt
    ]
