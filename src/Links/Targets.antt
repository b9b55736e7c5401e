-- ===== src/Links/Targets.antt =====
-- The paths that links lead to.
use freeos.Prelude.{
  ◌≡◌, refl, ap, sym, ◌∙◌, true, some, arith, ◌==◌, Bool-cases, Option-cases, inl, inr,
  if◌then◌else◌,
}
use freeos.Prelude.Paths.{Str, get, get-insert, insert, same}
use freeos.Links.{
  Links, FileSystem, State, new, is_dir, create_link, atomic_link_update, decrease_ref_count,
  decreased, enter,
}

-- Every link leads to a path that ends in a slash.
abbrev pub LeadsToDirs : Links → Type 0
LeadsToDirs l = (k dst : Str) → get k l.links ≡ some dst → is_dir dst ≡ true

pub new-LeadsToDirs : LeadsToDirs new
unfolding new get
new-LeadsToDirs k dst e = cc

module _ (f : FileSystem) where
  decrease_keeps_links :
      (p : Str) (s : State f) → (decrease_ref_count f p s).1.inner.links ≡ s.inner.links
  unfolding decrease_ref_count
  decrease_keeps_links p s = elim (Option-cases (get p s.inner.ref_counts)) [
    | inl absent ↦ rw absent refl
    | inr (n, there) ↦
        rw there (elim (Bool-cases (decreased n == 0)) [
          | inl last ↦ rw last refl
          | inr more ↦ rw more refl
        ])
  ]

  insert-LeadsToDirs :
      (src dst : Str) (l l' : Links)
      → is_dir dst ≡ true
      → LeadsToDirs l
      → l'.links ≡ insert src dst l.links
      → LeadsToDirs l'
  insert-LeadsToDirs src dst l l' dir leads now k d there =
      let at : (if same src k then some dst else get k l.links) ≡ some d =
        sym (get-insert src k dst l.links) ∙ ap (λ t. get k t) (sym now) ∙ there in
      elim (Bool-cases (same src k)) [
        | inl it ↦ ground (arith, at, dir)
        | inr other ↦ leads k d (ground (arith, at))
      ]

  update-LeadsToDirs :
      (src dst : Str) (s : State f)
      → is_dir dst ≡ true
      → LeadsToDirs s.inner
      → LeadsToDirs (atomic_link_update f src dst s).inner
  unfolding atomic_link_update
  update-LeadsToDirs src dst s dir leads = elim (Option-cases (get src s.inner.links)) [
    | inl free ↦
        rw free (insert-LeadsToDirs src dst s.inner (enter f src dst s).inner dir leads refl)
    | inr (old, linked) ↦ rw linked (elim (Bool-cases (same old dst)) [
      | inl same_path ↦ rw same_path leads
      | inr other ↦
          let s' = (decrease_ref_count f old s).1 in
          rw other (
            insert-LeadsToDirs src dst s.inner (enter f src dst s').inner dir leads
              (ap (insert src dst) (decrease_keeps_links old s)))
    ])
  ]

  -- `create_link` makes links to paths that end in a slash only.
  pub create_link-LeadsToDirs :
      (src dst : Str) (s : State f)
      → LeadsToDirs s.inner
      → LeadsToDirs (create_link f src dst s).1.inner
  unfolding create_link
  create_link-LeadsToDirs src dst s leads = elim (Bool-cases (f.exists s.disk dst)) [
    | inl there ↦ rw there (elim (Bool-cases (is_dir dst)) [
      | inl dir ↦ rw dir (update-LeadsToDirs src dst s dir leads)
      | inr plain ↦ rw plain leads
    ])
    | inr missing ↦ rw missing leads
  ]
