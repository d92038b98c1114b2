-- ===== src/Drive/Storage/Directories.antt =====
-- The directories of server/src/storage_manager.cpp: list, ensure_directory and remove, and the
-- functions of std::filesystem on paths that they and server/src/cloud_server.cpp call.
use cloudisk_server.Base.{
  ℕ, List, [], ◌∷◌, ◌++◌, map, Bool, true, false, ◌||◌, Option, none, some, ◌==◌, if◌then◌else◌,
  length, same_bytes,
}
use cloudisk_server.Base.Bytes.{codes}
use cloudisk_server.Drive.Storage.{
  FilePath, Store, content, exists, remove, put, is_absolute, starts_with, resolve,
}

-- A directory_entry with what is asked of it; `modified` is in seconds.
pub record Entry : Type 0 where
  pub path : FilePath
  pub is_directory : Bool
  pub is_regular_file : Bool
  pub file_size : ℕ
  pub modified : ℕ

-- DirEntry
pub record DirEntry : Type 0 where
  pub name : List ℕ
  pub is_directory : Bool
  pub size : ℕ
  pub modified : ℕ

-- What std::filesystem says of directories while a message is handled: is_directory, what a
-- directory_iterator gives, whether a path exists once create_directories has been called on it
-- (none where that throws), and relative with lexically_normal.
pub record Directories : Type 0 where
  pub is_directory : FilePath → Bool
  pub entries : FilePath → List Entry
  pub creates : FilePath → Option Bool
  pub relative : FilePath → FilePath → FilePath

-- The path up to its last name.
unfoldable pub drop_name : FilePath → FilePath
drop_name [] = []
drop_name (c ∷ cs) =
    let rest = drop_name cs in
    let kept = if length rest == 0 then [] else c ∷ rest in if c == b'/' then c ∷ rest else kept

unfoldable pub drop_separators : FilePath → FilePath
drop_separators [] = []
drop_separators (c ∷ cs) =
    let rest = drop_separators cs in
    let kept = if length rest == 0 then [] else c ∷ rest in if c == b'/' then kept else c ∷ rest

unfoldable pub filename : FilePath → FilePath
filename [] = []
filename (c ∷ cs) =
    let rest = filename cs in if length (drop_name (c ∷ cs)) == 0 then c ∷ cs else rest

unfoldable pub parent_path : FilePath → FilePath
unfolding drop_name drop_separators
parent_path p =
    let dir = drop_separators (drop_name p) in
    if length dir == 0 then (if is_absolute p then codes "/" else []) else dir

-- std::filesystem::exists, of a file or a directory.
unfoldable pub is_there : Directories → FilePath → Store → Bool
is_there dirs path fs = exists path fs || dirs.is_directory path

unfoldable pub dir_entry : Entry → DirEntry
dir_entry e = record {
  name = filename e.path;
  is_directory = e.is_directory;
  size = if e.is_regular_file then e.file_size else 0;
  modified = e.modified;
}

-- std::filesystem::remove_all
unfoldable pub remove_all : FilePath → Store → Store
remove_all path [] = []
remove_all path (f ∷ fs) =
    let rest = remove_all path fs in
    if same_bytes f.0 path || starts_with (path ++ b'/' ∷ []) f.0 then rest else f ∷ rest

-- std::filesystem::copy_file with overwrite_existing; none where it throws: no regular file to
-- copy, a directory in its place, or one file under both names.
unfoldable pub copy_file : Directories → FilePath → FilePath → Store → Option Store
copy_file dirs from to fs = elim (content from fs) [
  | none ↦ none
  | some bytes ↦ if same_bytes from to || dirs.is_directory to then none else some (put to bytes fs)
]

module _ (weakly_canonical : FilePath → FilePath) (root : FilePath) (dirs : Directories) where
  -- list; none is an exception.
  unfoldable pub list : FilePath → FilePath → Store → Option (List DirEntry)
  list username relative_path fs = elim (resolve weakly_canonical root username relative_path) [
    | none ↦ none
    | some target ↦
        some (if is_there dirs target fs then map dir_entry (dirs.entries target) else [])
  ]

  -- ensure_directory; none is an exception.
  unfoldable pub ensure_directory : FilePath → FilePath → Option Bool
  ensure_directory username relative_path =
      elim (resolve weakly_canonical root username relative_path) [
        | none ↦ none
        | some path ↦ dirs.creates path
      ]

  -- StorageManager::remove; none is an exception.
  unfoldable pub remove_path : FilePath → FilePath → Store → Option (Bool × Store)
  remove_path username relative_path fs =
      elim (resolve weakly_canonical root username relative_path) [
        | none ↦ none
        | some target ↦ some (
            if is_there dirs target fs
            then if dirs.is_directory target
              then (true, remove_all target fs)
              else (true, remove target fs)
            else (false, fs))
      ]
