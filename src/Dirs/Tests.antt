-- ===== src/Dirs/Tests.antt =====
-- A directory as the list of its entries.
use freeos.Prelude.{refl, true, false, List, [], ◌∷◌, none, some, Option}
use freeos.Prelude.Errors.{LinuxResult, ok}
use freeos.Dirs.{Kind, DirEntry, Directories, Directory, sys_getdents64}
use freeos.Dirs.Entries.{Lists, Reads, sys_getdents64-Lists}

abbrev next_of : List DirEntry → LinuxResult (Option DirEntry) × List DirEntry
next_of [] = (ok none, [])
next_of (ent ∷ ents) = (ok (some ent), ents)

abbrev entry_lists : Directories
entry_lists = record { Inner = List DirEntry; read_dir = next_of }

reads : (d : List DirEntry) → Reads entry_lists (λ l. l) d (next_of d)
reads [] = (refl, refl)
reads (ent ∷ ents) = refl

abbrev file_kind : Kind
file_kind = record {
  is_dir = false;
  is_file = true;
  is_symlink = false;
  is_block_device = false;
  is_char_device = false;
  is_fifo = false;
  is_socket = false;
}

-- The files `a` and `bb`; a buffer of 40 bytes has room for one.
abbrev two_files : Directory entry_lists
two_files = record {
  last_dirent = some (record { entry_type = file_kind; name_as_bytes = 97 ∷ [] });
  inner = record { entry_type = file_kind; name_as_bytes = 98 ∷ 98 ∷ [] } ∷ [];
}

sys_getdents64-Lists_example :
    Lists entry_lists
      (λ l. l)
      reads
      40
      two_files
      (sys_getdents64 entry_lists (ok tt) (ok tt) 40 two_files)
sys_getdents64-Lists_example = sys_getdents64-Lists entry_lists (λ l. l) reads 40 two_files
