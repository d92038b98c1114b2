-- ===== src/Tests/UploadsTests.antt =====
-- A small upload of the enterprise cloud drive in two parts, one of them sent twice.
use cloudisk_server.Base.{
  if◌then◌else◌, ℕ, List, [], ◌∷◌, ◌++◌, ◌≡◌, ◌≢◌, refl, ap, true, some, arith, take, drop,
  same_bytes, min,
}
use cloudisk_server.Base.Bytes.{codes}
use cloudisk_server.Drive.Storage.{
  sanitize_path, slash, starts_with, content, Checkpoint, update_progress, resume_at, read_chunk,
}
use cloudisk_server.Drive.Storage.Meta.{resume_at-update_progress}
use cloudisk_server.Drive.Storage.Transfer.{read_chunk-content}
use cloudisk_server.Drive.Uploads.{UploadState, ChunkMessage, upload_chunks}
use cloudisk_server.Drive.Uploads.Accepted.{IsAccepted, all_accepted, upload_chunks-IsAccepted}

abbrev begun : Checkpoint
begun = record {
  active = true;
  temp_path = codes "t";
  meta_path = codes "m";
  final_path = codes "f";
  total = 3;
  received = 0;
}

-- The file has become shorter since.
abbrev begun_again : Checkpoint
begun_again = record begun { total = 1 }

resume_at-update_progress_example :
    resume_at begun_again (update_progress begun 2 [])
    ≡ some (record begun_again { received = min 2 1 }, update_progress begun 2 [])
resume_at-update_progress_example =
    resume_at-update_progress begun begun_again 2 [] refl (refl, tt) (omega arith) (omega arith)

read_chunk-content_example :
    read_chunk 4096 (codes "f") 1 5 ((codes "f", codes "abc") ∷ []) ≡ take 5 (drop 1 (codes "abc"))
read_chunk-content_example =
    read_chunk-content 4096 (codes "f") 1 5 ((codes "f", codes "abc") ∷ []) (codes "abc") found
  where
    found : content (codes "f") ((codes "f", codes "abc") ∷ []) ≡ some (codes "abc")
    found = unfold content same_bytes in refl

abbrev one_upload_begun : UploadState
one_upload_begun = record {
  username = codes "ann";
  upload_active = true;
  upload_checkpoint = begun;
  upload_expected = 3;
  upload_md5 = codes "abc";
  upload_logical = codes "f";
  store = [];
  indexed = [];
}

differ : codes "m" ≢ codes "t"
unfolding same_bytes
differ e = absurd (ground (arith, ap (same_bytes (codes "m")) e))

begun-IsAccepted : IsAccepted [] one_upload_begun
begun-IsAccepted = record { counted = refl; starts = refl; apart = differ }

-- The first part, the same once more, a write that stops short, and the second part.
abbrev two_parts : List ChunkMessage
two_parts =
    record { offset = codes "0"; body = codes "ab"; written = some 2 }
    ∷ record { offset = codes "0"; body = codes "ab"; written = some 2 }
    ∷ record { offset = codes "2"; body = codes "c"; written = some 0 }
    ∷ record { offset = codes "2"; body = codes "c"; written = some 1 }
    ∷ []

upload_chunks-IsAccepted_example :
    IsAccepted
      ([] ++ all_accepted (upload_chunks two_parts one_upload_begun).0 two_parts)
      (upload_chunks two_parts one_upload_begun).1
upload_chunks-IsAccepted_example =
    upload_chunks-IsAccepted two_parts [] one_upload_begun begun-IsAccepted

-- Canonical paths: those that are relative stand below the working directory.
abbrev below_root : List ℕ → List ℕ
below_root path = b'/' ∷ path

-- An MD5 that is the file itself.
abbrev itself : List ℕ → List ℕ
itself bytes = bytes

-- All bytes have come, but not the announced ones.
abbrev wrong_file : UploadState
wrong_file = record one_upload_begun {
  upload_checkpoint = record begun { received = 3 };
  store = (codes "t", codes "abd") ∷ [];
}

-- The canonical form of one path that leaves ann's root for that of annabel.
abbrev up_and_over : List ℕ → List ℕ
up_and_over path = if same_bytes path (codes "r/ann/../annabel") then codes "r/annabel" else path

-- For ann a path below annabel's root is accepted.
left_root :
    sanitize_path up_and_over (codes "r/ann") (codes "../annabel") ≡ some (codes "r/annabel")
unfolding sanitize_path slash starts_with same_bytes
left_root = refl
