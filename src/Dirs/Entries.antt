-- ===== src/Dirs/Entries.antt =====
-- What `sys_getdents64` gives: no entry is lost or given twice, and the entries fit the buffer.
use freeos.Prelude.{
  ℕ, zero, suc, ◌+◌, ◌-◌, ◌%◌, ◌≤◌, ◌<◌, ◌≡◌, refl, ap, sym, ◌∙◌, true, false, List, [], ◌∷◌, ◌++◌,
  append_assoc, append-nil, Option, none, some, arith, ◌==◌, ltb, Bool-cases, inl, inr, is_some,
  map, ◌⊎◌, ◌&&◌,
}
use mathlib.Core.List.{map-append}
use freeos.Prelude.Errors.{LinuxResult, ok, err}
use freeos.Dirs.{
  DirEntry, Dirent, DirBuffer, Directories, Directory, file_type, remaining_space, entry_len,
  write_entry, write_ent, new, again, done, after_read, read_loop, finished, from_last,
  sys_getdents64,
}

-- The lengths of the entries, and the entries of a directory as they stand in the buffer.
abbrev pub total : List DirEntry → ℕ
total [] = 0
total (ent ∷ ents) = entry_len ent.name_as_bytes + total ents

abbrev pub dirent : DirEntry → Dirent
dirent ent = record {
  d_reclen = entry_len ent.name_as_bytes % 65536;
  d_type = file_type ent.entry_type;
  d_name = ent.name_as_bytes;
}

abbrev pub listed : Option DirEntry → List DirEntry
listed none = []
listed (some ent) = ent ∷ []

total-append : (xs ys : List DirEntry) → total (xs ++ ys) ≡ total xs + total ys
total-append [] ys = omega arith
total-append (x ∷ xs) ys = omega (arith, total-append xs ys)

module _ (ds : Directories) (rest : ds.Inner → List DirEntry) where
  open ds use {Inner, read_dir}

  -- `read_dir` gives the entries of the directory in order.
  abbrev pub Reads : Inner → LinuxResult (Option DirEntry) × Inner → Type 0
  Reads d (ok none, d') = (rest d ≡ []) × (rest d' ≡ [])
  Reads d (ok (some ent), d') = rest d ≡ ent ∷ rest d'
  Reads d (err e, d') = Unit {0}

  abbrev pub pending : Directory ds → List DirEntry
  pending d = listed d.last_dirent ++ rest d.inner

  -- From the buffer `b` on, the entries `ents` were written, and fit.
  pub record Wrote (b b' : DirBuffer) (ents : List DirEntry) : Type 0 where
    pub same_size : b'.size ≡ b.size
    pub counted : b'.offset ≡ b.offset + total ents
    pub entered : b'.written ≡ b.written ++ map dirent ents
    pub fits : b'.offset ≤ b'.size

  entry_len_pos : (name : List ℕ) → 0 < entry_len name
  unfolding entry_len
  entry_len_pos name = omega arith

  write_ent_cases :
      (ent : DirEntry) (b : DirBuffer)
      → b.offset ≤ b.size
      → (write_ent ent b ≡ (false, b))
        ⊎ ((b' : DirBuffer) × (write_ent ent b ≡ (true, b')) × Wrote b b' (ent ∷ []))
  unfolding write_entry remaining_space
  write_ent_cases ent b within =
      let n = entry_len ent.name_as_bytes in
      elim (Bool-cases (ltb (remaining_space b) n)) [
        | inl full ↦ inl (rw full refl)
        | inr room ↦ inr (
          record b { offset = b.offset + n; written = b.written ++ (dirent ent ∷ []) },
          rw room refl,
          record {
            same_size = refl;
            counted = omega arith;
            entered = refl;
            fits = ground (arith, room);
          },
        )
      ]

  -- Where a loop from the buffer `b` and the directory `d` has come to.
  abbrev Ends :
      DirBuffer → Inner → Option (LinuxResult (Option DirEntry) × DirBuffer × Inner) → Type 0
  Ends b d none = ⊥
  Ends b d (some (err e, b', d')) = Unit {0}
  Ends b d (some (ok last, b', d')) =
      (ents : List DirEntry) × Wrote b b' ents × (rest d ≡ ents ++ (listed last ++ rest d'))

  then-Wrote :
      (b b1 b2 : DirBuffer) (ent : DirEntry) (ents : List DirEntry)
      → Wrote b b1 (ent ∷ [])
      → Wrote b1 b2 ents
      → Wrote b b2 (ent ∷ ents)
  then-Wrote b b1 b2 ent ents v w = record {
    same_size = w.same_size ∙ v.same_size;
    counted = omega (arith, v.counted, w.counted);
    entered =
        w.entered
        ∙ ap (λ l. l ++ map dirent ents) v.entered
        ∙ append_assoc b.written (dirent ent ∷ []) (map dirent ents);
    fits = w.fits;
  }

  then-Ends :
      (b b1 : DirBuffer) (d d1 : Inner) (ent : DirEntry)
      (o : Option (LinuxResult (Option DirEntry) × DirBuffer × Inner))
      → Wrote b b1 (ent ∷ [])
      → rest d ≡ ent ∷ rest d1
      → Ends b1 d1 o
      → Ends b d o
  then-Ends b b1 d d1 ent none v p w = w
  then-Ends b b1 d d1 ent (some (err e, b2, d2)) v p w = tt
  then-Ends b b1 d d1 ent (some (ok last, b2, d2)) v p w =
      (ent ∷ w.0, then-Wrote b b1 b2 ent w.0 v w.1, p ∙ ap (λ l. ent ∷ l) w.2)

  nothing : (b : DirBuffer) → b.offset ≤ b.size → Wrote b b []
  nothing b within = record {
    same_size = refl;
    counted = omega arith;
    entered = sym (append-nil b.written);
    fits = within;
  }

  module _ (reads : (d : Inner) → Reads d (read_dir d)) where
    after_round :
        (fuel : ℕ) (b : DirBuffer) (d : Inner) (r : LinuxResult (Option DirEntry) × Inner)
        → Reads d r
        → b.offset ≤ b.size
        → b.size - b.offset < suc fuel
        → ((b1 : DirBuffer) (d1 : Inner)
            → b1.offset ≤ b1.size
            → b1.size - b1.offset < fuel
            → Ends b1 d1 (read_loop ds fuel b1 d1))
        → Ends b d (elim (after_read ds r b) [
          | again b' d' ↦ read_loop ds fuel b' d'
          | done x b' d' ↦ some (x, b', d')
        ])
    after_round fuel b d (err e, d1) law within bound next = tt
    after_round fuel b d (ok none, d1) law within bound next =
        ([], nothing b within, law.0 ∙ sym law.1)
    after_round fuel b d (ok (some ent), d1) law within bound next =
        elim (write_ent_cases ent b within) [
          | inl full ↦ rw full ([], nothing b within, law)
          | inr (b1, wrote_it, w) ↦ rw wrote_it (
              then-Ends b b1 d d1 ent (read_loop ds fuel b1 d1) w law (
                next b1 d1 w.fits
                  (omega (arith, w.counted, w.same_size, w.fits, entry_len_pos ent.name_as_bytes))))
        ]

    read_loop-Ends :
        (fuel : ℕ) (b : DirBuffer) (d : Inner)
        → b.offset ≤ b.size
        → b.size - b.offset < fuel
        → Ends b d (read_loop ds fuel b d)
    unfolding read_loop
    read_loop-Ends zero b d within bound = absurd (omega arith)
    read_loop-Ends (suc fuel) b d within bound =
        after_round fuel b d (read_dir d) (reads d) within bound
          (λ b1 d1 within1 bound1. read_loop-Ends fuel b1 d1 within1 bound1)

    -- What a call has given: the entries `ents`, the first ones that were to come.
    abbrev pub Lists : ℕ → Directory ds → Option (LinuxResult ℕ × DirBuffer × Directory ds) → Type 0
    Lists len d none = ⊥
    Lists len d (some (err e, b', d')) = Unit {0}
    Lists len d (some (ok n, b', d')) =
        (ents : List DirEntry) × (pending d ≡ ents ++ pending d')
        × (b'.written ≡ map dirent ents)
        × (n ≡ total ents)
        × (n ≤ len)

    finished-Lists :
        (len : ℕ) (d : Directory ds) (before : List DirEntry) (b : DirBuffer) (inner : Inner)
        (o : Option (LinuxResult (Option DirEntry) × DirBuffer × Inner))
        → pending d ≡ before ++ rest inner
        → Wrote (new len) b before
        → Ends b inner o
        → Lists len d (finished ds o)
    finished-Lists len d before b inner none p v w = w
    finished-Lists len d before b inner (some (err e, b', d')) p v w = tt
    finished-Lists len d before b inner (some (ok last, b', d')) p v w =
        elim (Bool-cases (is_some last && b'.offset == 0)) [
          | inl too_small ↦ rw too_small tt
          | inr fine ↦ rw fine (
            before ++ w.0,
            p ∙ ap (λ l. before ++ l) w.2 ∙ sym (append_assoc before w.0 (listed last ++ rest d')),
            w.1.entered
                ∙ ap (λ l. l ++ map dirent w.0) v.entered
                ∙ sym (map-append dirent before w.0),
            omega (arith, v.counted, w.1.counted, total-append before w.0),
            omega (arith, w.1.fits, w.1.same_size, v.same_size),
          )
        ]

    -- `sys_getdents64` comes to an end, for a directory that gives its entries in order. The entries
    -- that a success has put into the buffer are the first ones that were to come, in order, the others
    -- are still to come, and the result is the sum of their lengths, which fits the buffer.
    pub sys_getdents64-Lists :
        (len : ℕ) (d : Directory ds) → Lists len d (sys_getdents64 ds (ok tt) (ok tt) len d)
    unfolding sys_getdents64
    sys_getdents64-Lists len d = from (d.last_dirent) refl
      where
        from :
            (o : Option DirEntry)
            → d.last_dirent ≡ o
            → Lists len d (from_last ds o (new len) d.inner)
        from none e =
            finished-Lists len d [] (new len) d.inner (read_loop ds (suc len) (new len) d.inner)
              (ap (λ o. listed o ++ rest d.inner) e) (nothing (new len) (omega arith))
              (read_loop-Ends (suc len) (new len) d.inner (omega arith) (omega arith))
        from (some ent) e = elim (write_ent_cases ent (new len) (omega arith)) [
          | inl full ↦ rw full tt
          | inr (b, wrote_it, w) ↦ rw wrote_it (
              finished-Lists len d (ent ∷ []) b d.inner (read_loop ds (suc len) b d.inner)
                (ap (λ o. listed o ++ rest d.inner) e) w
                (read_loop-Ends (suc len) b d.inner w.fits (omega (arith, w.same_size))))
        ]
