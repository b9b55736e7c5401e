-- ===== src/FilePaths/Unlink.antt =====
-- What `sys_linkat` and `sys_unlinkat` do to the table of hard links.
use freeos.Prelude.{
  ℕ, ◌≡◌, ◌≢◌, ◌⊎◌, refl, subst, sym, Bool, true, false, none, [], ◌∷◌, ◌==◌, Bool-cases,
  Option-cases, inl, inr, ◌++◌, if◌then◌else◌,
}
use freeos.Prelude.Errors.{LinuxResult, Result, AxError, ok, err}
use freeos.Prelude.Paths.{Str, get}
use freeos.Links.{Links, LinkError, real_path, is_dir, create_link, remove_link, atomic_link_remove}
use freeos.Links.{new as no_links}
use freeos.Links.Targets.{LeadsToDirs, new-LeadsToDirs, create_link-LeadsToDirs}
use freeos.FilePaths.{
  Outcome, panics, returns, Env, S, new, join, linux, of_path, joined, asserted, with_slash, trim,
  starts_slash, handle_file_path, user_path, link_result, linked, unless_dir, unlink_at,
  at_removedir, slash, at_fdcwd, removed, sys_linkat, sys_unlinkat,
}

module _ (e : Env) where
  open e use {file_system, is_dir_at, canonicalize, file_path, dir_path, remove_dir}

  -- A path that was looked up is no link, or it ends in a slash.
  abbrev Resolved : {E : Type 0} → Links → Outcome (Result E Str) → Type 0
  Resolved l panics = Unit {0}
  Resolved l (returns (err x)) = Unit {0}
  Resolved l (returns (ok p)) = (get p l.links ≡ none) ⊎ (is_dir p ≡ true)

  module _ (l : Links) (leads : LeadsToDirs l) where
    real_path-Resolved :
        (p : Str) → (get (real_path l p) l.links ≡ none) ⊎ (is_dir (real_path l p) ≡ true)
    unfolding real_path
    real_path-Resolved p = elim (Option-cases (get p l.links)) [
      | inl free ↦ rw (free, real_path) (inl free)
      | inr (dst, there) ↦ rw (there, real_path) (inr (leads p dst there))
    ]

    asserted-Resolved : (s : Str) → Resolved l (asserted e l s)
    asserted-Resolved s = elim (Bool-cases (starts_slash s)) [
      | inl absolute ↦ rw absolute (real_path-Resolved s)
      | inr other ↦ rw other tt
    ]

    new-Resolved : (path : Str) → Resolved l (new e l path)
    unfolding new
    new-Resolved path = elim (Option-cases (canonicalize path)) [
      | inl nowhere ↦ rw nowhere tt
      | inr (s, there) ↦ rw there (asserted-Resolved (with_slash e path (trim s)))
    ]

    linux-Resolved : (r : Outcome (Result AxError Str)) → Resolved l r → Resolved l (linux e r)
    linux-Resolved panics h = tt
    linux-Resolved (returns (err x)) h = tt
    linux-Resolved (returns (ok p)) h = h

    of_path-Resolved : (r : LinuxResult Str) → Resolved l (of_path e l r)
    of_path-Resolved (err x) = tt
    of_path-Resolved (ok p) = linux-Resolved (new e l p) (new-Resolved p)

    joined-Resolved : (path : Str) (r : Outcome (LinuxResult Str)) → Resolved l (joined e l path r)
    unfolding join
    joined-Resolved path panics = tt
    joined-Resolved path (returns (err x)) = tt
    joined-Resolved path (returns (ok base)) =
        linux-Resolved (join e l base path)
          (new-Resolved ((if is_dir base then base else base ++ (slash ∷ [])) ++ path))

    handle-Resolved : (dirfd : ℕ) (path : Str) → Resolved l (handle_file_path e l dirfd path)
    unfolding handle_file_path
    handle-Resolved dirfd [] = of_path-Resolved (file_path dirfd)
    handle-Resolved dirfd (c ∷ s) = elim (Bool-cases (starts_slash (c ∷ s))) [
      | inl absolute ↦ rw absolute (linux-Resolved (new e l (c ∷ s)) (new-Resolved (c ∷ s)))
      | inr other ↦ rw other (
          joined-Resolved (c ∷ s)
            (if dirfd == at_fdcwd e then linux e (new e l []) else of_path e l (dir_path dirfd)))
    ]

    user_path-Resolved :
        (dirfd : ℕ) (path : LinuxResult Str) → Resolved l (user_path e l dirfd path)
    user_path-Resolved dirfd (err x) = tt
    user_path-Resolved dirfd (ok path) = handle-Resolved dirfd path

  -- The links of the state that a call leaves.
  abbrev pub Leaves : (Links → Type 0) → Outcome (LinuxResult ℕ × S e) → Type 0
  Leaves q panics = Unit {0}
  Leaves q (returns (r, s)) = q s.inner

  link_result-LeadsToDirs :
      (src dst : Str) (s : S e)
      → LeadsToDirs s.inner
      → LeadsToDirs (link_result e (create_link file_system src dst s)).1.inner
  link_result-LeadsToDirs src dst s leads =
      subst (λ t. LeadsToDirs t.inner) (link_result_keeps (create_link file_system src dst s))
        (create_link-LeadsToDirs file_system src dst s leads)
    where
      link_result_keeps : (r : Result LinkError (Unit {0}) × S e) → r.1 ≡ (link_result e r).1
      link_result_keeps (ok u, s') = refl
      link_result_keeps (err x, s') = refl

  linked-LeadsToDirs :
      (old_path new_path : Outcome (LinuxResult Str)) (s : S e)
      → LeadsToDirs s.inner
      → Leaves LeadsToDirs (linked e old_path new_path s)
  linked-LeadsToDirs panics n s leads = tt
  linked-LeadsToDirs (returns (err x)) n s leads = leads
  linked-LeadsToDirs (returns (ok old)) panics s leads = tt
  linked-LeadsToDirs (returns (ok old)) (returns (err x)) s leads = leads
  linked-LeadsToDirs (returns (ok old)) (returns (ok n)) s leads =
      link_result-LeadsToDirs n old s leads

  sys_linkat-LeadsToDirs :
      (old_dirfd : ℕ) (old_path : LinuxResult Str) (new_dirfd : ℕ) (new_path : LinuxResult Str)
      (s : S e)
      → LeadsToDirs s.inner
      → Leaves LeadsToDirs (sys_linkat e old_dirfd old_path new_dirfd new_path s)
  unfolding sys_linkat
  sys_linkat-LeadsToDirs old_dirfd old_path new_dirfd (err x) s leads = leads
  sys_linkat-LeadsToDirs old_dirfd old_path new_dirfd (ok n) s leads =
      linked-LeadsToDirs (user_path e s.inner old_dirfd old_path)
        (handle_file_path e s.inner new_dirfd n) s leads

  -- What calls and changes of the disk by others lead to.
  pub data Reach : S e → Type 0 where
    start : (d : file_system.Disk) → Reach (record { inner = no_links; disk = d })
    disk_changes : (s : S e) (d : file_system.Disk) → Reach s → Reach (record s { disk = d })
    links :
        (old_dirfd : ℕ) (old_path : LinuxResult Str) (new_dirfd : ℕ) (new_path : LinuxResult Str)
        (r : LinuxResult ℕ) (s s' : S e)
        → Reach s
        → sys_linkat e old_dirfd old_path new_dirfd new_path s ≡ returns (r, s')
        → Reach s'
    unlinks :
        (dirfd : ℕ) (path : LinuxResult Str) (flags : ℕ) (r : LinuxResult ℕ) (s s' : S e)
        → Reach s
        → sys_unlinkat e dirfd path flags s ≡ returns (r, s')
        → Reach s'

  -- To axfs, what a path that ends in a slash names is a directory, or is not found.
  abbrev pub SlashIsDir : Type 0
  SlashIsDir = (d : file_system.Disk) (p : Str) → is_dir p ≡ true → is_dir_at d p ≢ ok false

  module _ (slash_is_dir : SlashIsDir) where
    unless_dir_keeps :
        (p : Str) (s : S e) (r : LinuxResult Bool)
        → is_dir_at s.disk p ≡ r
        → (get p s.inner.links ≡ none) ⊎ (is_dir p ≡ true)
        → (unless_dir e p r s).1.inner ≡ s.inner
    unfolding remove_link atomic_link_remove
    unless_dir_keeps p s (err x) at h = refl
    unless_dir_keeps p s (ok true) at h = refl
    unless_dir_keeps p s (ok false) at (inr dir) = absurd (slash_is_dir s.disk p dir at)
    unless_dir_keeps p s (ok false) at (inl free) =
        elim (Option-cases (file_system.remove_file s.disk p).0) [
          | inl kept ↦ rw (free, kept) refl
          | inr (u, done) ↦ rw (free, done) refl
        ]

    removed_keeps :
        (r : LinuxResult (Unit {0}) × file_system.Disk) (s : S e)
        → (removed e r s).1.inner ≡ s.inner
    removed_keeps (ok u, d) s = refl
    removed_keeps (err x, d) s = refl

    unlink_at_keeps :
        (flags : ℕ) (path : Outcome (LinuxResult Str)) (s : S e)
        → Resolved s.inner path
        → Leaves (λ l. l ≡ s.inner) (unlink_at e flags path s)
    unlink_at_keeps flags panics s h = tt
    unlink_at_keeps flags (returns (err x)) s h = refl
    unlink_at_keeps flags (returns (ok p)) s h = elim (Bool-cases (flags == at_removedir e)) [
      | inl dir ↦ rw dir (removed_keeps (remove_dir s.disk p) s)
      | inr other ↦ rw other (unless_dir_keeps p s (is_dir_at s.disk p) refl h)
    ]

    sys_unlinkat_lem :
        (dirfd : ℕ) (path : LinuxResult Str) (flags : ℕ) (s : S e)
        → LeadsToDirs s.inner
        → Leaves (λ l. l ≡ s.inner) (sys_unlinkat e dirfd path flags s)
    unfolding sys_unlinkat
    sys_unlinkat_lem dirfd path flags s leads =
        unlink_at_keeps flags (user_path e s.inner dirfd path) s
          (user_path-Resolved s.inner leads dirfd path)

    left :
        (q : Links → Type 0) (o : Outcome (LinuxResult ℕ × S e)) (r : LinuxResult ℕ) (s : S e)
        → o ≡ returns (r, s)
        → Leaves q o
        → q s.inner
    left q o r s at h = let h' : Leaves q (returns (r, s)) = subst (Leaves q) at h in h'

    Reach-LeadsToDirs : (s : S e) → Reach s → LeadsToDirs s.inner
    Reach-LeadsToDirs s (start d) = new-LeadsToDirs
    Reach-LeadsToDirs s (disk_changes s0 d h) = Reach-LeadsToDirs s0 h
    Reach-LeadsToDirs _ (links old_dirfd old_path new_dirfd new_path r s s' h at) =
        left LeadsToDirs (sys_linkat e old_dirfd old_path new_dirfd new_path s) r s' at
          (sys_linkat-LeadsToDirs old_dirfd old_path new_dirfd new_path s (Reach-LeadsToDirs s h))
    Reach-LeadsToDirs _ (unlinks dirfd path flags r s s' h at) =
        let same_links : s'.inner ≡ s.inner =
          left (λ l. l ≡ s.inner) (sys_unlinkat e dirfd path flags s) r s' at
            (sys_unlinkat_lem dirfd path flags s (Reach-LeadsToDirs s h)) in
        subst LeadsToDirs (sym same_links) (Reach-LeadsToDirs s h)

    -- `sys_unlinkat` never removes a hard link: when a path that ends in a slash is never a file to axfs,
    -- in each state that calls of `sys_linkat` and `sys_unlinkat` reach from no links, with any changes of
    -- the disk in between, every link leads to a path that ends in a slash, and `sys_unlinkat` of any path
    -- with any flags, if it does not panic, leaves the links and their counts as they are.
    pub sys_unlinkat_keeps :
        (s : S e) (dirfd : ℕ) (path : LinuxResult Str) (flags : ℕ)
        → Reach s
        → LeadsToDirs s.inner × Leaves (λ l. l ≡ s.inner) (sys_unlinkat e dirfd path flags s)
    sys_unlinkat_keeps s dirfd path flags reached =
        let leads = Reach-LeadsToDirs s reached in
        (leads, sys_unlinkat_lem dirfd path flags s leads)
