-- ===== src/Drive/Index/Rows.antt =====
-- The rows of the table user_files, as the statements of server/src/file_index.cpp change them.
use cloudisk_server.Base.{
  ℕ, ◌≡◌, refl, List, [], ◌∷◌, Bool, true, ◌&&◌, Option, none, some, ◌⊎◌, inl, inr, Bool-cases,
  if◌then◌else◌, same_bytes, same_bytes→eq, same_bytes_refl, arith,
}
use cloudisk_server.Drive.Index.{FileMetadata}

-- owner=? AND logical_path=?
unfoldable pub has_key : List ℕ → List ℕ → FileMetadata → Bool
has_key o p m = same_bytes m.owner o && same_bytes m.logical_path p

abbrev pub with_key : List ℕ → List ℕ → List FileMetadata → Option FileMetadata
with_key o p [] = none
with_key o p (r ∷ rs) = if has_key o p r then some r else with_key o p rs

-- INSERT, with ON CONFLICT(owner, logical_path) DO UPDATE.
abbrev pub upsert_row : FileMetadata → List FileMetadata → List FileMetadata
upsert_row e [] = e ∷ []
upsert_row e (r ∷ rs) =
    if has_key e.owner e.logical_path r
    then record r { md5 = e.md5; storage_path = e.storage_path; size = e.size } ∷ rs
    else r ∷ upsert_row e rs

-- DELETE
abbrev pub delete_rows : List ℕ → List ℕ → List FileMetadata → List FileMetadata
delete_rows o p [] = []
delete_rows o p (r ∷ rs) = if has_key o p r then delete_rows o p rs else r ∷ delete_rows o p rs

abbrev pub Has : FileMetadata → List FileMetadata → Type 0
Has m [] = ⊥
Has m (r ∷ rs) = (m ≡ r) ⊎ Has m rs

-- UNIQUE(owner, logical_path)
abbrev pub AreUnique : List FileMetadata → Type 0
AreUnique [] = Unit
AreUnique (r ∷ rs) = (with_key r.owner r.logical_path rs ≡ none) × AreUnique rs

pub has_key→eq :
    (o p : List ℕ) (m : FileMetadata) → has_key o p m ≡ true → (m.owner ≡ o) × (m.logical_path ≡ p)
unfolding has_key
has_key→eq o p m h = ground (arith, same_bytes→eq m.owner o, same_bytes→eq m.logical_path p)

pub has_key_self : (m : FileMetadata) → has_key m.owner m.logical_path m ≡ true
unfolding has_key
has_key_self m = ground (arith, same_bytes_refl m.owner, same_bytes_refl m.logical_path)

same_bytes_sym : (a b : List ℕ) → same_bytes a b ≡ same_bytes b a
unfolding same_bytes
same_bytes_sym [] [] = refl
same_bytes_sym [] (y ∷ ys) = refl
same_bytes_sym (x ∷ xs) [] = refl
same_bytes_sym (x ∷ xs) (y ∷ ys) = ground (arith, same_bytes_sym xs ys)

-- A row of the same key, updated, is the entry.
updated_row :
    (e r : FileMetadata)
    → has_key e.owner e.logical_path r ≡ true
    → record r { md5 = e.md5; storage_path = e.storage_path; size = e.size } ≡ e
updated_row e r h = ground (arith, has_key→eq e.owner e.logical_path r)

has_key_same :
    (o p : List ℕ) (e r : FileMetadata)
    → has_key e.owner e.logical_path r ≡ true
    → has_key o p r ≡ has_key o p e
unfolding has_key
has_key_same o p e r h = ground (arith, has_key→eq e.owner e.logical_path r)

-- Two rows with one key have each other's.
has_key_both :
    (o p : List ℕ) (e r : FileMetadata)
    → has_key o p r ≡ true
    → has_key e.owner e.logical_path r ≡ has_key o p e
unfolding has_key
has_key_both o p e r h =
    let k = has_key→eq o p r h in
    ground (arith, k, same_bytes_sym e.owner o, same_bytes_sym e.logical_path p)

has_key_swap :
    (e r : FileMetadata) → has_key r.owner r.logical_path e ≡ has_key e.owner e.logical_path r
unfolding has_key
has_key_swap e r =
    ground (arith, same_bytes_sym e.owner r.owner, same_bytes_sym e.logical_path r.logical_path)

pub with_key-upsert_row :
    (o p : List ℕ) (e : FileMetadata) (rs : List FileMetadata)
    → with_key o p (upsert_row e rs) ≡ (if has_key o p e then some e else with_key o p rs)
with_key-upsert_row o p e [] = refl
with_key-upsert_row o p e (r ∷ rs) = elim (Bool-cases (has_key e.owner e.logical_path r)) [
  | inl same ↦ rw (same, updated_row e r same, has_key_same o p e r same) (ground arith)
  | inr other ↦
      rw (upsert_row, other) (ground (arith, has_key_both o p e r, with_key-upsert_row o p e rs))
]

pub with_key-delete_rows :
    (o p o' p' : List ℕ) (rs : List FileMetadata)
    → with_key o p (delete_rows o' p' rs)
      ≡ (if same_bytes o' o && same_bytes p' p then none else with_key o p rs)
unfolding has_key
with_key-delete_rows o p o' p' [] = ground arith
with_key-delete_rows o p o' p' (r ∷ rs) = ground (
  arith,
  has_key→eq o p r,
  has_key→eq o' p' r,
  same_bytes→eq o' o,
  same_bytes→eq p' p,
  with_key-delete_rows o p o' p' rs,
  same_bytes_refl o,
  same_bytes_refl p,
)

pub AreUnique-upsert_row :
    (e : FileMetadata) (rs : List FileMetadata) → AreUnique rs → AreUnique (upsert_row e rs)
AreUnique-upsert_row e [] u = (refl, tt)
AreUnique-upsert_row e (r ∷ rs) u = elim (Bool-cases (has_key e.owner e.logical_path r)) [
  | inl same ↦ rw (upsert_row, same) u
  | inr other ↦
      rw (upsert_row, other)
        (
          ground (arith, with_key-upsert_row r.owner r.logical_path e rs, has_key_swap e r),
          AreUnique-upsert_row e rs u.1,
        )
]

pub AreUnique-delete_rows :
    (o p : List ℕ) (rs : List FileMetadata) → AreUnique rs → AreUnique (delete_rows o p rs)
AreUnique-delete_rows o p [] u = tt
AreUnique-delete_rows o p (r ∷ rs) u = elim (Bool-cases (has_key o p r)) [
  | inl gone ↦ rw (delete_rows, gone) (AreUnique-delete_rows o p rs u.1)
  | inr kept ↦
      rw (delete_rows, kept)
        (
          ground (arith, with_key-delete_rows r.owner r.logical_path o p rs),
          AreUnique-delete_rows o p rs u.1,
        )
]

-- A row is the one that its key finds.
pub with_key-Has :
    (m : FileMetadata) (rs : List FileMetadata)
    → AreUnique rs
    → Has m rs
    → with_key m.owner m.logical_path rs ≡ some m
with_key-Has m [] u h = absurd h
with_key-Has m (r ∷ rs) u (inl e) = rw e (ground (arith, has_key_self r))
with_key-Has m (r ∷ rs) u (inr h) =
    ground (arith, has_key→eq m.owner m.logical_path r, with_key-Has m rs u.1 h)

pub Has-with_key :
    (o p : List ℕ) {m : FileMetadata} (rs : List FileMetadata) → with_key o p rs ≡ some m → Has m rs
Has-with_key o p [] h = absurd (ground arith)
Has-with_key o p {m} (r ∷ rs) h = elim (Bool-cases (has_key o p r)) [
  | inl here ↦ inl (ground arith)
  | inr further ↦ inr (Has-with_key o p rs (ground arith))
]

pub has_key-with_key :
    (o p : List ℕ) {m : FileMetadata} (rs : List FileMetadata)
    → with_key o p rs ≡ some m
    → has_key o p m ≡ true
has_key-with_key o p [] h = absurd (ground arith)
has_key-with_key o p {m} (r ∷ rs) h = elim (Bool-cases (has_key o p r)) [
  | inl here ↦ ground arith
  | inr further ↦ has_key-with_key o p rs (ground arith)
]
