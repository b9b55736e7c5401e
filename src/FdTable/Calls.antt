-- ===== src/FdTable/Calls.antt =====
-- What the calls on the descriptor table do, on every path.
use freeos.Prelude.{
  ℕ, ◌<◌, ◌≤◌, ◌≡◌, ◌≢◌, ◌↔◌, refl, subst, ltb, ◌∙◌, false, Option, none, some, ◌==◌, ==_self,
  if◌then◌else◌, arith, Bool-cases, inl, inr,
}
use freeos.Prelude.Errors.{ok, err, LinuxResult, emfile}
use freeos.Prelude.Words.{i32_as_usize, usize_as_i32}
use freeos.Prelude.UserPtr.{UserPtr}
use freeos.FdTable.{
  FlattenObjects, IsFlatten, Added, Holds, ax_file_limit, get_file_like, add_file_like,
  close_file_like, descriptor, sys_close, dup_fd, sys_dup, sys_dup2, returns, panics, sys_pipe2,
  Piped, piped, pipe_panics, second_added, first_added, pipe_at,
}

-- A number below the limit survives as a descriptor.
descriptor_lem : (i : ℕ) → i < ax_file_limit → i32_as_usize (usize_as_i32 i) ≡ i
descriptor_lem i b = ground arith

module _ {A : Type 0} (o : FlattenObjects A) (laws : IsFlatten o) where
  open o use {Table, get, add, add_at, remove}

  -- A new descriptor for `a`: it was free, and every other one is as it was; or the table is full
  -- and did not change.
  abbrev pub Opens : A → Table → LinuxResult ℕ × Table → Type 0
  Opens a t (err e, t') = (e ≡ emfile) × (t' ≡ t)
  Opens a t (ok fd, t') = (get (i32_as_usize fd) t ≡ none) × Holds o (i32_as_usize fd) a t t'

  descriptor-Opens :
      (a : A) (t : Table) (out : Option ℕ × Table) → Added o a t out → Opens a t (descriptor o out)
  descriptor-Opens a t (none, t') same = (refl, same)
  descriptor-Opens a t (some i, t') (free, small, holds) = rw (descriptor_lem i small) (free, holds)

  pub add_file_like-Opens : (a : A) (t : Table) → Opens a t (add_file_like o a t)
  unfolding add_file_like
  add_file_like-Opens a t = descriptor-Opens a t (add a t) (laws.add_lem a t)

  -- `dup` of an open file gives a free descriptor for the same file and leaves every other one
  -- alone, or fails with `EMFILE` and changes nothing.
  sys_dup-Opens :
      (old_fd : ℕ) (a : A) (t : Table)
      → get_file_like o old_fd t ≡ ok a
      → Opens a t (sys_dup o old_fd t)
  unfolding sys_dup dup_fd
  sys_dup-Opens old_fd a t opened = rw opened (add_file_like-Opens a t)

  close_lem :
      (fd : ℕ) (a : A) (t : Table)
      → get (i32_as_usize fd) t ≡ some a
      → sys_close o fd t ≡ (ok 0, (remove (i32_as_usize fd) t).1)
  unfolding sys_close close_file_like
  close_lem fd a t opened =
      let gives : (remove (i32_as_usize fd) t).0 ≡ some a =
        laws.remove_gives (i32_as_usize fd) t ∙ opened in
      rw gives refl

  -- `close` of an open descriptor succeeds, frees it, and leaves every other one alone.
  sys_close_frees :
      (fd j : ℕ) (a : A) (t : Table)
      → get (i32_as_usize fd) t ≡ some a
      → let (res, t') = sys_close o fd t in
        (res ≡ ok 0) × (get j t' ≡ (if i32_as_usize fd == j then none else get j t))
  sys_close_frees fd j a t opened =
      rw (close_lem fd a t opened) (refl, laws.get-remove (i32_as_usize fd) j t)

  -- Closing the descriptor that `dup` gave leads back to the files from before, under every
  -- descriptor.
  sys_close-sys_dup :
      (old_fd fd j : ℕ) (a : A) (t t' : Table)
      → get_file_like o old_fd t ≡ ok a
      → sys_dup o old_fd t ≡ (ok fd, t')
      → get j (sys_close o fd t').1 ≡ get j t
  sys_close-sys_dup old_fd fd j a t t' opened dup =
      let (free, holds) : Opens a t (ok fd, t') =
        subst (Opens a t) dup (sys_dup-Opens old_fd a t opened) in
      rw
        (
          close_lem fd a t' (holds (i32_as_usize fd) ∙ rw (==_self (i32_as_usize fd)) refl),
          laws.get-remove (i32_as_usize fd) j t',
        )
        (ground (arith, holds j))

  -- `dup2` of an open descriptor to another one below the limit, open or not, returns that one and
  -- makes it the same file, and leaves every other one alone.
  sys_dup2_places :
      (old_fd new_fd : ℕ) (a : A) (t : Table)
      → get (i32_as_usize old_fd) t ≡ some a
      → old_fd ≢ new_fd
      → i32_as_usize new_fd < ax_file_limit
      → (t' : Table) × (sys_dup2 o old_fd new_fd t ≡ returns (ok new_fd) t')
        × Holds o (i32_as_usize new_fd) a t t'
  unfolding sys_dup2
  sys_dup2_places old_fd new_fd a t opened ne small =
      let i = i32_as_usize new_fd in
      let t0 = (remove i t).1 in
      let free : get i t0 ≡ none = laws.get-remove i i t ∙ rw (==_self i) refl in
      let (t', at, holds) = laws.add_at_free i a t0 free small in
      let other : (old_fd == new_fd) ≡ false = ground arith in
      (t', rw (opened, other, at) refl, λ j. ground (arith, holds j, laws.get-remove i j t))

  -- `dup2` of an open descriptor to another one panics exactly when the new one is not below the
  -- limit of 1024, so at every negative one.
  pub sys_dup2_panics :
      (old_fd new_fd : ℕ) (a : A) (t : Table)
      → get (i32_as_usize old_fd) t ≡ some a
      → old_fd ≢ new_fd
      → (sys_dup2 o old_fd new_fd t ≡ panics) ↔ (ax_file_limit ≤ i32_as_usize new_fd)
  unfolding sys_dup2
  sys_dup2_panics old_fd new_fd a t opened ne =
      elim (Bool-cases (ltb (i32_as_usize new_fd) ax_file_limit)) [
        | inl small ↦
            let (t', at, holds) = sys_dup2_places old_fd new_fd a t opened ne (ground arith) in
            ground (arith, at)
        | inr large ↦
            let i = i32_as_usize new_fd in
            let out : add_at i a (remove i t).1 ≡ (none, (remove i t).1) =
              laws.add_at_refused i a (remove i t).1 (inr (ground arith)) in
            let other : (old_fd == new_fd) ≡ false = ground arith in
            rw (opened, other, out) (ground arith)
      ]

  -- What `pipe2` leads to: two different new descriptors, one for each end, with every file that
  -- was open still there; or an error, and the same files as before. It does not panic.
  abbrev pub OpensPipe : A → A → Table → Piped o → Type 0
  OpensPipe r w t pipe_panics = ⊥
  OpensPipe r w t (piped (err e) t') = (j : ℕ) → get j t' ≡ get j t
  OpensPipe r w t (piped (ok (read_fd, write_fd)) t') =
      (get (i32_as_usize read_fd) t' ≡ some r)
      × (get (i32_as_usize write_fd) t' ≡ some w)
      × (get (i32_as_usize read_fd) t ≡ none)
      × (get (i32_as_usize write_fd) t ≡ none)
      × ((j : ℕ) → get j t ≢ none → get j t' ≡ get j t)

  close_file_like_lem :
      (fd : ℕ) (a : A) (t : Table)
      → get (i32_as_usize fd) t ≡ some a
      → close_file_like o fd t ≡ (ok tt, (remove (i32_as_usize fd) t).1)
  unfolding close_file_like
  close_file_like_lem fd a t opened =
      let gives : (remove (i32_as_usize fd) t).0 ≡ some a =
        laws.remove_gives (i32_as_usize fd) t ∙ opened in
      rw gives refl

  second_added-OpensPipe :
      (r w : A) (t t1 : Table) (read_fd : ℕ) (out : LinuxResult ℕ × Table)
      → Opens r t (ok read_fd, t1)
      → Opens w t1 out
      → OpensPipe r w t (second_added o read_fd out)
  second_added-OpensPipe r w t t1 read_fd (ok write_fd, t2) (free1, holds1) (free2, holds2) =
      let i = i32_as_usize read_fd in
      let k = i32_as_usize write_fd in
      (
        ground (arith, holds2 i, holds1 i, holds1 k),
        ground (arith, holds2 k),
        free1,
        ground (arith, holds1 k),
        λ j used. ground (arith, holds2 j, holds1 j, holds1 k),
      )
  second_added-OpensPipe r w t t1 read_fd (err e, t2) (free1, holds1) (full, same) =
      let i = i32_as_usize read_fd in
      let there : get i t2 ≡ some r = ground (arith, holds1 i, same) in
      rw (close_file_like_lem read_fd r t2 there)
        (λ j. ground (arith, laws.get-remove i j t2, holds1 j, same))

  first_added-OpensPipe :
      (r w : A) (t : Table) (out : LinuxResult ℕ × Table)
      → Opens r t out
      → OpensPipe r w t (first_added o w out)
  first_added-OpensPipe r w t (err e, t1) (full, same) = λ j. rw same refl
  first_added-OpensPipe r w t (ok read_fd, t1) p =
      second_added-OpensPipe r w t t1 read_fd (add_file_like o w t1) p (add_file_like-Opens w t1)

  -- `pipe2` never panics, and opens both ends of the pipe under free descriptors or, on an error,
  -- none: every file that was open stays open under its descriptor.
  pub sys_pipe2-OpensPipe :
      (fds : UserPtr (Unit {0})) (r w : A) (t : Table) → OpensPipe r w t (sys_pipe2 o fds r w t)
  unfolding sys_pipe2
  sys_pipe2-OpensPipe fds r w t = at fds.get_as_ref
    where
      at : (res : LinuxResult (Unit {0})) → OpensPipe r w t (pipe_at o res r w t)
      at (err e) = λ j. refl
      at (ok u) = first_added-OpensPipe r w t (add_file_like o r t) (add_file_like-Opens r t)
