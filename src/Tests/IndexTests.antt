-- ===== src/Tests/IndexTests.antt =====
-- The drive's tables over lists of rows, and a few calls.
use cloudisk_server.Base.{
  ℕ, ◌≡◌, refl, List, [], ◌∷◌, Bool, true, false, Option, none, some, ◌==◌, if◌then◌else◌, inl, inr,
  same_bytes, arith, Bool-cases,
}
use cloudisk_server.Base.Bytes.{codes}
use cloudisk_server.Drive.Sql.{Sqlite, Stepped, row, done, failed, Value, text, integer, c_text}
use cloudisk_server.Drive.Index.{
  FileMetadata, select_by_path, delete_path, initialize_schema, find_by_path, find_by_md5,
}
use cloudisk_server.Drive.Index.Rows.{has_key, upsert_row, delete_rows}
use cloudisk_server.Drive.Index.Catalogue.{
  KeepsFiles, Picks, IndexCall, upserts, removes, finds_md5, calls_after, catalogue, Answers,
}
use cloudisk_server.Drive.Index.Refines.{calls_after-catalogue}

-- The first row for which a test holds.
abbrev first_with : (FileMetadata → Bool) → List FileMetadata → Stepped FileMetadata
first_with test [] = done
first_with test (r ∷ rs) = if test r then row r else first_with test rs

-- A statement by the values that are bound; DELETE by its first letter.
abbrev first_letter : List ℕ → ℕ
first_letter [] = 0
first_letter (c ∷ cs) = c

abbrev file_step :
    List ℕ → List Value → List FileMetadata → Stepped FileMetadata × List FileMetadata
file_step st (text h ∷ []) rs = (first_with (λ m. same_bytes m.md5 h) rs, rs)
file_step st (text o ∷ text p ∷ []) rs =
    if first_letter st == b'D'
    then (done, delete_rows o p rs)
    else (first_with (has_key o p) rs, rs)
file_step st (text o ∷ text p ∷ text h ∷ text s ∷ integer z ∷ []) rs = (
  done,
  upsert_row (record { owner = o; logical_path = p; md5 = h; storage_path = s; size = z }) rs,
)
file_step st _ rs = (failed, rs)

abbrev file_db : Sqlite
file_db = record {
  Db = Option (List FileMetadata);
  Row = FileMetadata;
  exec = λ ddl db. some (some (elim db [ none ↦ [] | some rs ↦ rs ]));
  prepares = λ st db. elim db [ none ↦ false | some rs ↦ true ];
  step = λ st vs db. elim db [
    | none ↦ (failed, none)
    | some rs ↦ ((file_step st vs rs).0, some (file_step st vs rs).1)
  ];
  column_text = λ m i.
      if i == 0
      then m.owner
      else if i == 1
      then m.logical_path
      else if i == 2
      then m.md5
      else m.storage_path;
  column_int64 = λ m i. m.size;
}

Picks-cons :
    (test : FileMetadata → Bool) (r : FileMetadata) (rs : List FileMetadata)
    (x : Stepped FileMetadata)
    → test r ≡ false
    → Picks file_db test rs x
    → Picks file_db test (r ∷ rs) x
Picks-cons test r rs (row y) other (m, a, b, c, d, e, h, t) = (m, a, b, c, d, e, inr h, t)
Picks-cons test r rs done other k = λ m h. elim h [ inl e ↦ rw e other | inr h' ↦ k m h' ]
Picks-cons test r rs failed other k = k

first_with-Picks :
    (test : FileMetadata → Bool) (rs : List FileMetadata)
    → Picks file_db test rs (first_with test rs)
first_with-Picks test [] = λ m h. absurd h
first_with-Picks test (r ∷ rs) = elim (Bool-cases (test r)) [
  | inl here ↦ rw (first_with, here) (r, refl, refl, refl, refl, refl, inl refl, here)
  | inr further ↦
      rw (first_with, further) (Picks-cons test r rs _ further (first_with-Picks test rs))
]

inner :
    (d x : Option (List FileMetadata))
    → ◌≡◌ {A = Option (Option (List FileMetadata))} (some x) (some d)
    → d ≡ x
inner d x e = ground arith

keeps_files : KeepsFiles file_db
unfolding select_by_path delete_path
keeps_files = record {
  files = λ db. db;
  created = λ db d e. inner d (some (elim db [ none ↦ [] | some rs ↦ rs ])) e;
  prepared = λ db rs e. rw e (refl, refl, refl, refl);
  path_selected = λ o p db rs e. rw e (first_with-Picks (has_key o p) rs, refl);
  md5_selected = λ h db rs e. rw e (first_with-Picks (λ m. same_bytes m.md5 h) rs, refl);
  inserted = λ o p h s z db rs e. rw e refl;
  deleted = λ o p db rs e. rw e refl;
}

abbrev ann_file : FileMetadata
ann_file = record {
  owner = codes "ann";
  logical_path = codes "f";
  md5 = codes "h";
  storage_path = codes "r/ann/f";
  size = 3;
}

abbrev three_calls : List IndexCall
three_calls = upserts ann_file ∷ removes (codes "bob") (codes "f") ∷ finds_md5 (codes "h") ∷ []

calls_after-catalogue_example :
    ((o p : List ℕ)
      → (find_by_path file_db o p (calls_after file_db three_calls (some []))).0
        ≡ catalogue three_calls (λ _ _. none) (c_text o) (c_text p))
    × ((h : List ℕ)
        → Answers
            (catalogue three_calls (λ _ _. none))
            (c_text h)
            (find_by_md5 file_db h (calls_after file_db three_calls (some []))).0)
unfolding keeps_files
calls_after-catalogue_example =
    calls_after-catalogue file_db keeps_files none (some []) three_calls refl opened
  where
    opened : initialize_schema file_db none ≡ some (some [])
    opened = unfold initialize_schema in refl
