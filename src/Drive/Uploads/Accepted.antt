-- ===== src/Drive/Uploads/Accepted.antt =====
-- What an upload stores is what its accepted chunks bring.
use cloudisk_server.Base.{
  ℕ, ◌+◌, ◌≡◌, ◌≢◌, refl, sym, ap, ◌∙◌, subst, List, [], ◌∷◌, ◌++◌, append-nil, append_assoc, Bool,
  true, false, Option, none, some, Bool-cases, inl, inr, if◌then◌else◌, ◌==◌, arith, length,
  length-append, take, drop, take_all, take-append_here,
}
use cloudisk_server.Drive.Storage.{
  content, put, bytes_of, overwrite, write_chunk, write_meta, update_progress, stoull,
}
use cloudisk_server.Drive.Storage.Files.{content-put, content-put_other, overwrite_front}
use cloudisk_server.Drive.Uploads.{
  UploadState, ChunkMessage, Status, received_up_to, store_chunk, chunk_at, upload_chunk,
  upload_chunks,
}

-- The bytes of the temporary file; a file that is not there yet has none.
abbrev pub stored : UploadState → List ℕ
stored s = bytes_of (content s.upload_checkpoint.temp_path s.store)

-- The temporary file starts with the bytes that have been accepted, and `received` is their number.
pub record IsAccepted (accepted : List ℕ) (s : UploadState) : Type 0 where
  pub counted : s.upload_checkpoint.received ≡ length accepted
  pub starts : take (length accepted) (stored s) ≡ accepted
  pub apart : s.upload_checkpoint.meta_path ≢ s.upload_checkpoint.temp_path

-- The bytes that an answer accepts.
abbrev pub accepted_by : Status → ChunkMessage → List ℕ
accepted_by (received_up_to n) m = m.body
accepted_by _ m = []

abbrev pub all_accepted : List Status → List ChunkMessage → List ℕ
all_accepted [] ms = []
all_accepted (a ∷ answers) [] = []
all_accepted (a ∷ answers) (m ∷ ms) = accepted_by a m ++ all_accepted answers ms

-- A write at the place where the upload stands.
stored-write :
    (accepted : List ℕ) (s : UploadState) (bytes : List ℕ)
    → IsAccepted accepted s
    → overwrite s.upload_checkpoint.received bytes (stored s)
      ≡ accepted ++ (bytes ++ drop (length accepted + length bytes) (stored s))
stored-write accepted s bytes h =
    ap (λ (n : ℕ). overwrite n bytes (stored s)) h.counted
    ∙ overwrite_front accepted bytes (stored s) h.starts

-- What the temporary file holds, when its content is known.
stored_is : (o : Option (List ℕ)) (bytes : List ℕ) → o ≡ some bytes → bytes_of o ≡ bytes
stored_is o bytes e = ap bytes_of e

module _ (accepted : List ℕ) (s : UploadState) (h : IsAccepted accepted s) where
  -- A write that stops short.
  IsAccepted-part :
      (bytes : List ℕ)
      → IsAccepted accepted (record s {
        store =
            put s.upload_checkpoint.temp_path
              (overwrite s.upload_checkpoint.received bytes (stored s))
              s.store;
      })
  IsAccepted-part bytes = record {
    counted = h.counted;
    starts =
        ap (take (length accepted)) (
          stored_is _ _ (content-put s.upload_checkpoint.temp_path _ s.store)
          ∙ stored-write accepted s bytes h)
        ∙ take-append_here (length accepted) accepted _ refl;
    apart = h.apart;
  }

  -- A whole chunk, and then the checkpoint.
  IsAccepted-whole :
      (body text : List ℕ)
      → IsAccepted (accepted ++ body) (record s {
        upload_checkpoint = record s.upload_checkpoint {
          received = s.upload_checkpoint.received + length body;
        };
        store = put s.upload_checkpoint.meta_path text (
            put s.upload_checkpoint.temp_path
              (overwrite s.upload_checkpoint.received body (stored s))
              s.store);
      })
  IsAccepted-whole body text = record {
    counted = omega (arith, h.counted, length-append accepted body);
    starts =
        ap (take (length (accepted ++ body))) (
          stored_is _ _ (
            content-put_other s.upload_checkpoint.meta_path s.upload_checkpoint.temp_path text _
              h.apart
            ∙ content-put s.upload_checkpoint.temp_path _ s.store)
          ∙ stored-write accepted s body h
          ∙ sym (append_assoc accepted body _))
        ∙ take-append_here (length (accepted ++ body)) (accepted ++ body) _ refl;
    apart = h.apart;
  }

store_chunk-IsAccepted :
    (m : ChunkMessage) (accepted : List ℕ) (s : UploadState)
    → IsAccepted accepted s
    → IsAccepted
        (accepted ++ accepted_by (store_chunk s.upload_checkpoint.received m s).0 m)
        (store_chunk s.upload_checkpoint.received m s).1
unfolding store_chunk write_chunk update_progress write_meta
store_chunk-IsAccepted m accepted s h = by_write m.written
  where
    by_write :
        (w : Option ℕ)
        → IsAccepted
            (accepted
              ++ accepted_by
                  (store_chunk s.upload_checkpoint.received (record m { written = w }) s).0
                  m)
            (store_chunk s.upload_checkpoint.received (record m { written = w }) s).1
    by_write none = subst (λ (b : List ℕ). IsAccepted b s) (sym (append-nil accepted)) h
    by_write (some k) = elim (Bool-cases (k == length m.body)) [
      | inl whole ↦
          rw (whole, take_all k m.body (ground (arith, whole)))
            (IsAccepted-whole accepted s h m.body _)
      | inr part ↦ rw (part, append-nil accepted) (IsAccepted-part accepted s h (take k m.body))
    ]

-- A message that is refused changes nothing.
unchanged :
    (accepted : List ℕ) (s : UploadState) → IsAccepted accepted s → IsAccepted (accepted ++ []) s
unchanged accepted s h = subst (λ (b : List ℕ). IsAccepted b s) (sym (append-nil accepted)) h

chunk_at-IsAccepted :
    (at : Option ℕ) (m : ChunkMessage) (accepted : List ℕ) (s : UploadState)
    → IsAccepted accepted s
    → IsAccepted (accepted ++ accepted_by (chunk_at at m s).0 m) (chunk_at at m s).1
unfolding chunk_at
chunk_at-IsAccepted none m accepted s h = unchanged accepted s h
chunk_at-IsAccepted (some off) m accepted s h =
    elim (Bool-cases (off == s.upload_checkpoint.received)) [
      | inl right ↦
          let e : off ≡ s.upload_checkpoint.received = ground (arith, right) in
          rw (right, e) (store_chunk-IsAccepted m accepted s h)
      | inr wrong ↦ rw wrong (unchanged accepted s h)
    ]

upload_chunk-IsAccepted :
    (m : ChunkMessage) (accepted : List ℕ) (s : UploadState)
    → IsAccepted accepted s
    → IsAccepted (accepted ++ accepted_by (upload_chunk m s).0 m) (upload_chunk m s).1
unfolding upload_chunk
upload_chunk-IsAccepted m accepted s h =
    either s.upload_active _ _
      (either (length m.offset == 0) _ _ (unchanged accepted s h)
        (chunk_at-IsAccepted (stoull m.offset) m accepted s h))
      (unchanged accepted s h)
  where
    either :
        (b : Bool) (x y : Status × UploadState)
        → IsAccepted (accepted ++ accepted_by x.0 m) x.1
        → IsAccepted (accepted ++ accepted_by y.0 m) y.1
        → IsAccepted (accepted ++ accepted_by (if b then x else y).0 m) (if b then x else y).1
    either true x y p q = p
    either false x y p q = q

-- The temporary file starts with the bodies of the chunks that were accepted, in their order, and
-- `received` counts their bytes, whatever messages come and however their writes end.
pub upload_chunks-IsAccepted :
    (ms : List ChunkMessage) (accepted : List ℕ) (s : UploadState)
    → IsAccepted accepted s
    → IsAccepted (accepted ++ all_accepted (upload_chunks ms s).0 ms) (upload_chunks ms s).1
unfolding upload_chunks
upload_chunks-IsAccepted [] accepted s h = unchanged accepted s h
upload_chunks-IsAccepted (m ∷ ms) accepted s h =
    let s1 = (upload_chunk m s).1 in
    let first = accepted_by (upload_chunk m s).0 m in
    subst (λ (b : List ℕ). IsAccepted b (upload_chunks ms s1).1)
      (append_assoc accepted first (all_accepted (upload_chunks ms s1).0 ms))
      (upload_chunks-IsAccepted ms (accepted ++ first) s1 (upload_chunk-IsAccepted m accepted s h))
