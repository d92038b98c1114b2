-- ===== src/Drive/Storage.antt =====
-- The storage of the enterprise cloud drive, server/src/storage_manager.cpp: checked paths, uploads
-- that can be resumed, and reads.
pub mod Files
pub mod Meta
pub mod Transfer
pub mod Paths
pub mod Directories
use cloudisk_server.Base.{
  ℕ, zero, suc, ◌+◌, ◌-◌, ◌*◌, ◌%◌, ◌^◌, List, [], ◌∷◌, ◌++◌, Bool, true, false, Option, none, some,
  ltb, leb, ◌==◌, if◌then◌else◌, not, length, drop, take, replicate, same_bytes, min,
}
use cloudisk_server.Base.Bytes.{codes, digits, is_digit, read_digits, skip_spaces}
use cloudisk_server.Drive.Protocol.{find_byte}

abbrev pub FilePath : Type 0
FilePath = List ℕ

-- The regular files below the storage root; directories are there as soon as they are asked for.
abbrev pub Store : Type 0
Store = List (FilePath × List ℕ)

unfoldable pub content : FilePath → Store → Option (List ℕ)
content path [] = none
content path (f ∷ fs) = let rest = content path fs in if same_bytes f.0 path then some f.1 else rest

-- std::filesystem::exists
unfoldable pub exists : FilePath → Store → Bool
exists path fs = elim (content path fs) [ none ↦ false | some c ↦ true ]

-- std::filesystem::remove
unfoldable pub remove : FilePath → Store → Store
remove path [] = []
remove path (f ∷ fs) = let rest = remove path fs in if same_bytes f.0 path then rest else f ∷ rest

unfoldable pub put : FilePath → List ℕ → Store → Store
put path bytes fs = (path, bytes) ∷ remove path fs

-- StorageManager::file_size
unfoldable pub file_size : FilePath → Store → ℕ
file_size path fs = elim (content path fs) [ none ↦ 0 | some c ↦ length c ]

-- std::filesystem::rename; without the file it throws.
unfoldable pub rename : FilePath → FilePath → Store → Option Store
rename old new fs = elim (content old fs) [
  | none ↦ none
  | some c ↦ some (put new c (remove old fs))
]

-- UploadCheckpoint
pub record Checkpoint : Type 0 where
  pub active : Bool
  pub temp_path : FilePath
  pub meta_path : FilePath
  pub final_path : FilePath
  pub total : ℕ
  pub received : ℕ

-- An uint64_t in decimal.
unfoldable pub decimal : ℕ → List ℕ
decimal n = digits (suc n) n

unfoldable pub meta_text : Checkpoint → List ℕ
meta_text c =
    (codes "path=" ++ c.final_path)
    ++ b'\n'
      ∷ ((codes "total=" ++ decimal c.total)
          ++ b'\n' ∷ ((codes "received=" ++ decimal c.received) ++ b'\n' ∷ []))

unfoldable pub write_meta : Checkpoint → Store → Store
write_meta c fs = put c.meta_path (meta_text c) fs

-- The digits of stoull; it throws where there are none, or where they are too large.
unfoldable pub unsigned_digits : List ℕ → Option ℕ
unsigned_digits [] = none
unsigned_digits (c ∷ cs) =
    let n = read_digits 0 (c ∷ cs) in
    if is_digit c then (if ltb n (2 ^ 64) then some n else none) else none

unfoldable pub signed_digits : List ℕ → Option ℕ
signed_digits [] = none
signed_digits (c ∷ cs) =
    if c == b'-'
    then elim (unsigned_digits cs) [ none ↦ none | some n ↦ some ((2 ^ 64 - n) % 2 ^ 64) ]
    else if c == b'+'
    then unsigned_digits cs
    else unsigned_digits (c ∷ cs)

-- std::stoull
unfoldable pub stoull : List ℕ → Option ℕ
stoull s = signed_digits (skip_spaces s)

-- One line of the loop of read_meta; none is an exception of stoull.
unfoldable pub meta_line : List ℕ → Checkpoint → Option Checkpoint
meta_line line c = elim (find_byte b'=' line) [
  | none ↦ some c
  | some sep ↦
      let key = take sep line in
      let value = drop (sep + 1) line in
      if same_bytes key (codes "total")
      then elim (stoull value) [ none ↦ none | some n ↦ some (record c { total = n }) ]
      else if same_bytes key (codes "received")
      then elim (stoull value) [ none ↦ none | some n ↦ some (record c { received = n }) ]
      else if same_bytes key (codes "path")
      then some (record c { final_path = value })
      else some c
]

-- The loop of read_meta: getline takes the bytes up to a line break or to the end. Each round takes
-- a byte at least, so as many rounds as bytes are enough.
unfoldable pub meta_lines : ℕ → List ℕ → Checkpoint → Option Checkpoint
meta_lines zero text c = some c
meta_lines (suc rounds) [] c = some c
meta_lines (suc rounds) (b ∷ bs) c = elim (find_byte b'\n' (b ∷ bs)) [
  | none ↦ meta_line (b ∷ bs) c
  | some e ↦ elim (meta_line (take e (b ∷ bs)) c) [
    | none ↦ none
    | some c' ↦ meta_lines rounds (drop (e + 1) (b ∷ bs)) c'
  ]
]

unfoldable pub read_meta : FilePath → FilePath → Store → Option Checkpoint
read_meta meta_path final_path fs =
    let c : Checkpoint = record {
      active = exists meta_path fs;
      temp_path = [];
      meta_path = meta_path;
      final_path = final_path;
      total = 0;
      received = 0;
    } in
    elim (content meta_path fs) [ none ↦ some c | some text ↦ meta_lines (length text) text c ]

-- path::has_filename
unfoldable pub has_filename : FilePath → Bool
has_filename [] = false
has_filename (c ∷ []) = not (c == b'/')
has_filename (c ∷ d ∷ cs) = has_filename (d ∷ cs)

unfoldable pub is_absolute : FilePath → Bool
is_absolute [] = false
is_absolute (c ∷ cs) = c == b'/'

-- operator/ of std::filesystem::path.
unfoldable pub slash : FilePath → FilePath → FilePath
unfolding has_filename is_absolute
slash a b = if is_absolute b then b else if has_filename a then a ++ b'/' ∷ b else a ++ b

unfoldable pub starts_with : List ℕ → List ℕ → Bool
starts_with [] s = true
starts_with (x ∷ xs) [] = false
starts_with (x ∷ xs) (y ∷ ys) = let rest = starts_with xs ys in if x == y then rest else false

unfoldable pub checkpoint_dir : FilePath → FilePath → FilePath
checkpoint_dir root username = slash (slash root username) (codes ".resume")

unfoldable pub meta_file : FilePath → FilePath → FilePath → FilePath
meta_file root username md5 = slash (checkpoint_dir root username) (md5 ++ codes ".meta")

unfoldable pub temp_file : FilePath → FilePath → FilePath → FilePath
temp_file root username md5 = slash (checkpoint_dir root username) (md5 ++ codes ".part")

-- Where an upload goes on: the checkpoint of an earlier one, a part without a checkpoint, or 0.
unfoldable pub resume_at : Checkpoint → Store → Option (Checkpoint × Store)
resume_at c fs =
    let part : Checkpoint = record c { received = min (file_size c.temp_path fs) c.total } in
    let fresh : Checkpoint = record c { received = 0 } in
    if exists c.meta_path fs
    then elim (read_meta c.meta_path c.final_path fs) [
      | none ↦ none
      | some old ↦ some (record c { received = min old.received c.total }, fs)
    ]
    else if exists c.temp_path fs
    then some (part, write_meta part fs)
    else some (fresh, write_meta fresh fs)

module _ (weakly_canonical : FilePath → FilePath) where
  -- none is the exception "FilePath traversal detected".
  unfoldable pub sanitize_path : FilePath → FilePath → Option FilePath
  sanitize_path base relative =
      let target = weakly_canonical (slash base relative) in
      if starts_with (weakly_canonical base) target then some target else none

  unfoldable pub resolve : FilePath → FilePath → FilePath → Option FilePath
  resolve root username relative = sanitize_path (slash root username) relative

  unfoldable pub prepare_upload :
      FilePath → FilePath → FilePath → FilePath → ℕ → Store → Option (Checkpoint × Store)
  prepare_upload root username md5 logical_path total_bytes fs =
      elim (resolve root username logical_path) [
        | none ↦ none
        | some final ↦
            resume_at
              (record {
                active = true;
                temp_path = temp_file root username md5;
                meta_path = meta_file root username md5;
                final_path = final;
                total = total_bytes;
                received = 0;
              })
              fs
      ]

-- pwrite at an offset, behind the end too; no bytes leave the file as it is.
unfoldable pub overwrite : ℕ → List ℕ → List ℕ → List ℕ
overwrite offset [] old = old
overwrite offset (b ∷ bs) old =
    (take offset old ++ replicate (offset - length old) 0)
    ++ ((b ∷ bs) ++ drop (offset + length (b ∷ bs)) old)

-- What a file holds before a write; open creates it where there is none.
abbrev pub bytes_of : Option (List ℕ) → List ℕ
bytes_of none = []
bytes_of (some b) = b

-- write_chunk: `written` is what pwrite takes of the bytes, none where open fails.
unfoldable pub write_chunk : Checkpoint → ℕ → List ℕ → Option ℕ → Store → Bool × Store
write_chunk c offset bytes none fs = (false, fs)
write_chunk c offset bytes (some written) fs = (
  written == length bytes,
  put c.temp_path (overwrite offset (take written bytes) (bytes_of (content c.temp_path fs))) fs,
)

unfoldable pub update_progress : Checkpoint → ℕ → Store → Store
update_progress c received_bytes fs = write_meta (record c { received = received_bytes }) fs

-- none is the exception of rename.
unfoldable pub finalize_upload : Checkpoint → Store → Option (FilePath × Store)
finalize_upload c fs = elim (rename c.temp_path c.final_path fs) [
  | none ↦ none
  | some moved ↦
      some (c.final_path, if exists c.meta_path moved then remove c.meta_path moved else moved)
]

unfoldable pub discard_checkpoint : Checkpoint → Store → Store
discard_checkpoint c fs =
    let rest = if exists c.temp_path fs then remove c.temp_path fs else fs in
    if exists c.meta_path rest then remove c.meta_path rest else rest

abbrev pub mmap_threshold : ℕ
mmap_threshold = 100 * 1024 * 1024

-- read_chunk, where open and mmap succeed and `page` is the page size: a large file is mapped from a
-- page's start on.
unfoldable pub read_chunk : ℕ → FilePath → ℕ → ℕ → Store → List ℕ
read_chunk page path offset count fs =
    let size = file_size path fs in
    let bytes : List ℕ = elim (content path fs) [ none ↦ [] | some b ↦ b ] in
    let to_read = min count (size - offset) in
    let page_offset = offset % page in
    let mapped = take (page_offset + to_read) (drop (offset - page_offset) bytes) in
    if leb size offset
    then []
    else if leb mmap_threshold size
    then take to_read (drop page_offset mapped)
    else take to_read (drop offset bytes)
