-- ===== src/Drive/Cloud/Paths.antt =====
-- normalize_relative of server/src/cloud_server.cpp.
use cloudisk_server.Base.{List, [], ◌∷◌, ◌++◌, true, false, ◌==◌, if◌then◌else◌, length, same_bytes}
use cloudisk_server.Base.Bytes.{codes}
use cloudisk_server.Drive.Storage.{FilePath, slash, is_absolute}
use cloudisk_server.Drive.Storage.Directories.{parent_path}

-- The names of a path that does not begin with '/', behind the letters of the first; behind a last
-- '/' there is an empty name.
unfoldable pub names : FilePath → FilePath → List FilePath
names name [] = name ∷ []
names name (c ∷ cs) = elim (c == b'/') [
  | true ↦ elim (length name == 0) [ true ↦ names [] cs | false ↦ name ∷ names [] cs ]
  | false ↦ names (name ++ c ∷ []) cs
]

unfoldable pub skip_separators : FilePath → FilePath
skip_separators [] = []
skip_separators (c ∷ cs) = let rest = skip_separators cs in if c == b'/' then rest else c ∷ cs

-- The names that a range-based for over a path visits.
unfoldable pub parts : FilePath → List FilePath
parts p =
    let rest = skip_separators p in
    let below = if length rest == 0 then [] else names [] rest in
    if is_absolute p then codes "/" ∷ below else if length p == 0 then [] else names [] p

-- The loop of normalize_relative.
unfoldable pub normalize_parts : FilePath → List FilePath → FilePath
normalize_parts normalized [] = normalized
normalize_parts normalized (part ∷ rest) =
    normalize_parts
      (if same_bytes part (codes ".")
        then normalized
        else if same_bytes part (codes "..")
        then (if length normalized == 0 then normalized else parent_path normalized)
        else slash normalized part)
      rest

unfoldable pub normalize_relative : FilePath → FilePath
normalize_relative path =
    let normalized = normalize_parts [] (parts path) in
    if length normalized == 0 then codes "." else normalized
