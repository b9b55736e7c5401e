-- ===== src/Dirs.antt =====
-- api/src/imp/fs/ctl.rs: `DirBuffer` and `sys_getdents64`. An entry in the user's buffer is a record
-- with its length; the directory (crate axfs) gives its entries one by one.
pub mod Entries
mod Tests
use freeos.Prelude.{
  ℕ, zero, suc, ◌+◌, ◌-◌, ◌*◌, ◌/◌, ◌%◌, Bool, true, false, ◌&&◌, List, [], ◌∷◌, ◌++◌, Option, none,
  some, ◌==◌, ltb, if◌then◌else◌, length, is_some,
}
use freeos.Prelude.Errors.{LinuxResult, ok, err, einval}

-- `FileType`
pub data FileType : Type 0 where
  unknown fifo chr dir blk reg lnk socket : FileType

-- What an axfs `FileType` answers.
pub record Kind : Type 0 where
  pub is_dir : Bool
  pub is_file : Bool
  pub is_symlink : Bool
  pub is_block_device : Bool
  pub is_char_device : Bool
  pub is_fifo : Bool
  pub is_socket : Bool

abbrev pub file_type : Kind → FileType
file_type k =
    if k.is_dir
    then dir
    else if k.is_file
    then reg
    else if k.is_symlink
    then lnk
    else if k.is_block_device
    then blk
    else if k.is_char_device
    then chr
    else if k.is_fifo
    then fifo
    else if k.is_socket
    then socket
    else unknown

pub record DirEntry : Type 0 where
  pub entry_type : Kind
  pub name_as_bytes : List ℕ

-- `linux_dirent64`; `d_ino` is always 1 and `d_off` 0.
pub record Dirent : Type 0 where
  pub d_reclen : ℕ
  pub d_type : FileType
  pub d_name : List ℕ

-- `buf.len()`, `offset`, and the entries up to it.
pub record DirBuffer : Type 0 where
  pub size : ℕ
  pub offset : ℕ
  pub written : List Dirent

abbrev pub new : ℕ → DirBuffer
new size = record { size = size; offset = 0; written = [] }

pub remaining_space : DirBuffer → ℕ
remaining_space b = b.size - b.offset

abbrev name_offset : ℕ
name_offset = 19

-- `(NAME_OFFSET + name.len() + 1).next_multiple_of(8)`
pub entry_len : List ℕ → ℕ
entry_len name = (name_offset + length name + 1 + 7) / 8 * 8

pub write_entry : FileType → List ℕ → DirBuffer → Bool × DirBuffer
write_entry d_type name b = if ltb (remaining_space b) (entry_len name) then (false, b) else (
  true,
  record b {
    offset = b.offset + entry_len name;
    written =
        b.written
        ++ (record { d_reclen = entry_len name % 65536; d_type = d_type; d_name = name } ∷ []);
  },
)

abbrev pub write_ent : DirEntry → DirBuffer → Bool × DirBuffer
write_ent ent b = write_entry (file_type ent.entry_type) ent.name_as_bytes b

-- A directory: `read_dir` for one entry, which gives none at the end.
pub record Directories : Type 1 where
  pub Inner : Type 0
  pub read_dir : Inner → LinuxResult (Option DirEntry) × Inner

module _ (ds : Directories) where
  open ds use {Inner, read_dir}

  -- The entry that did not fit the last time, and the directory.
  pub record Directory : Type 0 where
    pub last_dirent : Option DirEntry
    pub inner : Inner

  -- One round of the loop: the result, or another round.
  pub data Round : Type 0 where
    again : DirBuffer → Inner → Round
    done : LinuxResult (Option DirEntry) → DirBuffer → Inner → Round

  abbrev wrote : DirEntry → Bool × DirBuffer → DirBuffer → Inner → Round
  wrote ent (true, b') b d = again b' d
  wrote ent (false, b') b d = done (ok (some ent)) b d

  abbrev pub after_read : LinuxResult (Option DirEntry) × Inner → DirBuffer → Round
  after_read (err e, d) b = done (err e) b d
  after_read (ok none, d) b = done (ok none) b d
  after_read (ok (some ent), d) b = wrote ent (write_ent ent b) b d

  -- Each round but the last writes an entry, so as many rounds as the buffer has bytes are enough.
  pub read_loop : ℕ → DirBuffer → Inner → Option (LinuxResult (Option DirEntry) × DirBuffer × Inner)
  read_loop zero b d = none
  read_loop (suc fuel) b d = elim (after_read (read_dir d) b) [
    | again b' d' ↦ read_loop fuel b' d'
    | done r b' d' ↦ some (r, b', d')
  ]

  -- The result, the buffer, and the directory with what is kept for the next call.
  abbrev pub finished :
      Option (LinuxResult (Option DirEntry) × DirBuffer × Inner)
      → Option (LinuxResult ℕ × DirBuffer × Directory)
  finished none = none
  finished (some (err e, b, d)) = some (err e, b, record { last_dirent = none; inner = d })
  finished (some (ok last, b, d)) = some (
    if is_some last && b.offset == 0 then err einval else ok b.offset,
    b,
    record { last_dirent = last; inner = d },
  )

  abbrev kept_written :
      DirEntry
      → Bool × DirBuffer
      → DirBuffer
      → Inner
      → Option (LinuxResult ℕ × DirBuffer × Directory)
  kept_written ent (false, b') b d =
      some (err einval, b, record { last_dirent = some ent; inner = d })
  kept_written ent (true, b') b d = finished (read_loop (suc b.size) b' d)

  abbrev pub from_last :
      Option DirEntry → DirBuffer → Inner → Option (LinuxResult ℕ × DirBuffer × Directory)
  from_last none b d = finished (read_loop (suc b.size) b d)
  from_last (some ent) b d = kept_written ent (write_ent ent b) b d

  -- With the check of the buffer, and then what `Directory::from_fd` gives, apart from the directory.
  pub sys_getdents64 :
      LinuxResult (Unit {0})
      → LinuxResult (Unit {0})
      → ℕ
      → Directory
      → Option (LinuxResult ℕ × DirBuffer × Directory)
  sys_getdents64 (err e) from_fd len d = some (err e, new len, d)
  sys_getdents64 (ok u) (err e) len d = some (err e, new len, d)
  sys_getdents64 (ok u) (ok v) len d = from_last d.last_dirent (new len) d.inner
