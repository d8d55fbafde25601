-- ===== src/File.antt =====
-- kernel/file.c: the table of open files. A `struct file *` is its index in the table; the locks make
-- each function one step.
use csci5103_lab.Common.{
  ℕ, ◌+◌, ◌-◌, Bool, false, Option, none, some, List, [], ◌∷◌, get_or, set, ltb, ◌==◌,
  if◌then◌else◌,
}

pub data FileType : Type 0 where
  fd_none fd_pipe fd_inode fd_device : FileType

-- `pipe` and `ip` are the addresses or indices of the objects, and 0 where they are not set.
pub record File : Type 0 where
  pub ftype : FileType
  pub ref : ℕ
  pub readable : Bool
  pub writable : Bool
  pub pipe : ℕ
  pub ip : ℕ
  pub off : ℕ
  pub major : ℕ

abbrev pub no_file : File
no_file = record {
  ftype = fd_none;
  ref = 0;
  readable = false;
  writable = false;
  pipe = 0;
  ip = 0;
  off = 0;
  major = 0;
}

abbrev pub file_at : List File → ℕ → File
file_at fs i = get_or fs i no_file

-- The loop from entry `i` on: the first free entry, and the table with it taken.
unfoldable pub filealloc_from : ℕ → List File → Option ℕ × List File
filealloc_from i [] = (none, [])
filealloc_from i (f ∷ fs) =
    let rest = filealloc_from (i + 1) fs in
    if f.ref == 0 then (some i, record f { ref = 1 } ∷ fs) else (rest.0, f ∷ rest.1)

unfoldable pub filealloc : List File → Option ℕ × List File
filealloc fs = filealloc_from 0 fs

-- `none`: panic "filedup".
unfoldable pub filedup : ℕ → List File → Option (List File)
filedup i fs =
    if ltb (file_at fs i).ref 1
    then none
    else some (set fs i (record (file_at fs i) { ref = (file_at fs i).ref + 1 }))

-- What `fileclose` does once the table is released.
pub data Closing : Type 0 where
  nothing : Closing
  pipeclose : ℕ → Bool → Closing
  iput_in_transaction : ℕ → Closing

-- The last lines of `fileclose`, for its copy `ff` of the file.
unfoldable pub close_last : File → Closing
close_last ff = elim ff.ftype [
  | fd_none ↦ nothing
  | fd_pipe ↦ pipeclose ff.pipe ff.writable
  | fd_inode ↦ iput_in_transaction ff.ip
  | fd_device ↦ iput_in_transaction ff.ip
]

-- `none`: panic "fileclose".
unfoldable pub fileclose : ℕ → List File → Option (Closing × List File)
fileclose i fs =
    let f = file_at fs i in
    if ltb f.ref 1
    then none
    else if ltb 0 (f.ref - 1)
    then some (nothing, set fs i (record f { ref = f.ref - 1 }))
    else some (close_last f, set fs i (record f { ref = 0; ftype = fd_none }))
