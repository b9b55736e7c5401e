-- ===== src/Links/Behaviour.antt =====
-- What `create_link` and `remove_link` do to the links, the counts and the files.
use freeos.Prelude.{
  ℕ, suc, ◌-◌, ◌<◌, ◌≡◌, ◌↔◌, refl, true, false, none, some, arith, ◌==◌, if◌then◌else◌, Bool-cases,
  Option-cases, inl, inr,
}
use freeos.Prelude.Errors.{ok}
use freeos.Prelude.Paths.{Str, same, same-≡, get, remove, get-insert, get-remove_self}
use freeos.Links.{
  FileSystem, Links, State, decrease_ref_count, drop_file, atomic_link_update, atomic_link_remove,
  create_link, remove_link, is_dir, real_path, link_count,
}
use freeos.Links.Counts.{count, IsCounted, decrease_ref_count_links}

module _ (f : FileSystem) where
  open f use {Disk, exists, remove_file}

  atomic_link_update_links :
      (src dst k : Str) (s : State f)
      → get k (atomic_link_update f src dst s).inner.links
        ≡ (if same src k then some dst else get k s.inner.links)
  unfolding atomic_link_update
  atomic_link_update_links src dst k s = elim (Option-cases (get src s.inner.links)) [
    | inl absent ↦ rw absent (get-insert src k dst s.inner.links)
    | inr (old, linked) ↦ rw linked (elim (Bool-cases (same old dst)) [
      | inl it ↦ rw it (ground (arith, same-≡ src k, same-≡ old dst))
      | inr other ↦
          rw (other, decrease_ref_count_links f old s) (get-insert src k dst s.inner.links)
    ])
  ]

  -- `create_link` succeeds exactly when the target exists and its path ends in a slash, so never on
  -- the path of a regular file.
  create_link_succeeds :
      (src dst : Str) (s : State f)
      → ((create_link f src dst s).0 ≡ ok tt) ↔ ((exists s.disk dst ≡ true) × (is_dir dst ≡ true))
  unfolding create_link
  create_link_succeeds src dst s = ground arith

  -- After a successful `create_link` the new path leads to the target, and every other path leads
  -- where it led before.
  create_link_leads :
      (src dst k : Str) (s : State f)
      → (create_link f src dst s).0 ≡ ok tt
      → real_path (create_link f src dst s).1.inner k
        ≡ (if same src k then dst else real_path s.inner k)
  unfolding create_link real_path
  create_link_leads src dst k s e = elim (Bool-cases (exists s.disk dst)) [
    | inl there ↦ rw there (elim (Bool-cases (is_dir dst)) [
      | inl dir ↦
          rw (dir, real_path, atomic_link_update_links src dst k s)
            (elim (Bool-cases (same src k)) [ inl it ↦ rw it refl | inr other ↦ rw other refl ])
      | inr file ↦ absurd (ground arith)
    ])
    | inr missing ↦ absurd (ground arith)
  ]

  decrease_last :
      (p : Str) (s : State f)
      → get p s.inner.ref_counts ≡ some 1
      → decrease_ref_count f p s ≡ drop_file f p s
  unfolding decrease_ref_count
  decrease_last p s one = rw one refl

  decrease_other :
      (p : Str) (s : State f) (n : ℕ)
      → get p s.inner.ref_counts ≡ some (suc (suc n))
      → (decrease_ref_count f p s).1.disk ≡ s.disk
  unfolding decrease_ref_count
  decrease_other p s n more = let left : (suc n == 0) ≡ false = ground arith in rw (more, left) refl

  -- The entry of a path to which links lead is their number.
  entry_lem :
      (p : Str) (n : ℕ) (l : Links)
      → IsCounted l
      → count p l.links ≡ suc n
      → get p l.ref_counts ≡ some (suc n)
  entry_lem p n l v many = elim (Option-cases (get p l.ref_counts)) [
    | inl absent ↦ absurd (ground (arith, (v.counts.1 p).0))
    | inr (k, there) ↦ ground (arith, (v.counts.1 p).0)
  ]

  -- The number that `link_count` gives for a path to which links lead is the number of these links.
  link_count_lem :
      (p : Str) (s : State f)
      → IsCounted s.inner
      → 0 < count p s.inner.links
      → link_count f p s ≡ count p s.inner.links
  unfolding link_count
  link_count_lem p s v some_link = elim (Option-cases (get p s.inner.ref_counts)) [
    | inl absent ↦ absurd (ground (arith, (v.counts.1 p).0))
    | inr (n, there) ↦ rw (there, link_count) (ground (arith, (v.counts.1 p).0))
  ]

  -- The state with one link taken out, before its target is counted down.
  abbrev unlinked : Str → State f → State f
  unlinked src s = record s { inner = record s.inner { links = remove src s.inner.links } }

  remove_link_lem :
      (src dst : Str) (s : State f)
      → get src s.inner.links ≡ some dst
      → remove_link f src s ≡ (some dst, (decrease_ref_count f dst (unlinked src s)).1)
  unfolding remove_link atomic_link_remove
  remove_link_lem src dst s linked = rw linked refl

  -- With correct counts, `remove_link` of the only link to a path gives that path, removes its
  -- file, and the link is gone.
  remove_link_last :
      (src dst : Str) (s : State f)
      → IsCounted s.inner
      → get src s.inner.links ≡ some dst
      → count dst s.inner.links ≡ 1
      → let (found, s') = remove_link f src s in
        (found ≡ some dst)
        × (s'.disk ≡ (remove_file s.disk dst).1)
        × (get src s'.inner.links ≡ none)
  remove_link_last src dst s v linked one =
      rw
        (
          remove_link_lem src dst s linked,
          decrease_last dst (unlinked src s) (entry_lem dst 0 s.inner v one),
        )
        (refl, refl, get-remove_self src s.inner.links v.one_link)

  -- With correct counts, `remove_link` of a link to a path to which another link leads gives the
  -- path and removes the link, but leaves the files alone.
  remove_link_other :
      (src dst : Str) (s : State f)
      → IsCounted s.inner
      → get src s.inner.links ≡ some dst
      → 1 < count dst s.inner.links
      → let (found, s') = remove_link f src s in
        (found ≡ some dst) × (s'.disk ≡ s.disk) × (get src s'.inner.links ≡ none)
  remove_link_other src dst s v linked many =
      let n = count dst s.inner.links - 2 in
      rw (remove_link_lem src dst s linked, decrease_ref_count_links f dst (unlinked src s))
        (
          refl,
          decrease_other dst (unlinked src s) n
              (entry_lem dst (suc n) s.inner v (omega (arith, many))),
          get-remove_self src s.inner.links v.one_link,
        )
