-- ===== src/Drive/Client.antt =====
-- The client of the enterprise cloud drive, client/src/client_app.cpp: a call of the server, and the
-- transfers. MD5 is OpenSSL's, and a parameter.
pub mod Uploading
pub mod Downloading
pub mod Lost
pub mod Reading
pub mod Shell
use cloudisk_server.Base.{
  ℕ, zero, suc, ◌+◌, ◌-◌, ◌*◌, List, [], ◌∷◌, ◌++◌, Bool, true, false, not, ◌&&◌, Option, none,
  some, ltb, leb, ◌==◌, if◌then◌else◌, length, take, drop, replicate, same_bytes, min,
}
use cloudisk_server.Base.Bytes.{codes}
use cloudisk_server.Drive.Protocol.{Message, make_message, header_value, emplace}
use cloudisk_server.Drive.Storage.{
  FilePath, Store, content, exists, file_size, put, decimal, stoull, overwrite, bytes_of,
}

-- What send_message and then read_message come to: an answer, or none where the connection fails.
-- A server whose bytes make try_decode throw is no Peer; Client/Reading has that exception.
pub record Peer : Type 1 where
  pub State : Type 0
  pub answer : Message → State → Option Message × State

-- The fields of ClientApp; `connected` stands for socket_fd_ >= 0.
pub record ClientApp : Type 0 where
  pub connected : Bool
  pub token : List ℕ
  pub remote_cwd : FilePath

-- kChunkBytes
abbrev pub chunk_bytes : ℕ
chunk_bytes = 1024 * 1024

-- kMmapThreshold
abbrev pub mmap_threshold : ℕ
mmap_threshold = 100 * 1024 * 1024

-- How a transfer's loop ends: by its test or its break, by a return, or not in the rounds given.
pub data Ended : Type 0 where
  through gave_up unfinished : Ended

-- What a transfer comes to: its result, or an exception of stoull. `unended` is a loop that has not
-- ended.
pub data Transfer : Type 0 where
  returned : Bool → Transfer
  threw unended : Transfer

-- The status of an answer is the given one; there is none without an answer.
unfoldable pub answered : List ℕ → Option Message → Bool
answered text none = false
answered text (some r) = same_bytes (header_value r (codes "status") []) text

unfoldable pub chunk_message : ℕ → List ℕ → Message
chunk_message offset body =
    make_message ((codes "cmd", codes "FILE_UPLOAD_CHUNK") ∷ (codes "offset", decimal offset) ∷ [])
      body

unfoldable pub fetch_message : FilePath → ℕ → ℕ → Message
fetch_message remote_path offset count =
    make_message
      ((codes "cmd", codes "FILE_DOWNLOAD_FETCH")
        ∷ (codes "path", remote_path)
        ∷ (codes "offset", decimal offset)
        ∷ (codes "length", decimal count)
        ∷ [])
      []

-- The next bytes of an ifstream, in a buffer of zeros.
unfoldable pub stream_read : ℕ → List ℕ → List ℕ
stream_read n rest = take n rest ++ replicate (n - length rest) 0

-- The body of a message with `n` bytes of the file.
unfoldable pub chunk_body : Option (List ℕ) → ℕ → List ℕ → ℕ → List ℕ
chunk_body none offset rest n = stream_read n rest
chunk_body (some bytes) offset rest n = take n (drop offset bytes)

module _ (p : Peer) (c : ClientApp) where
  -- call; the token goes with every message once there is one.
  unfoldable pub call : Message → p.State → Option Message × p.State
  call m s =
      let signed : Message = record m { headers = emplace (codes "token") c.token m.headers } in
      if c.connected then p.answer (if length c.token == 0 then m else signed) s else (none, s)

  -- A part has been answered: on with the rest, or the end.
  unfoldable pub part_sent :
      (p.State → Ended × p.State) → Option Message × p.State → Ended × p.State
  part_sent next r =
      let rest = next r.1 in if answered (codes "ok") r.0 then rest else (gave_up, r.1)

  -- The loop of handle_upload over a file of which `mapped` are the bytes that are mapped, if they
  -- are, and `rest` what its stream has left.
  unfoldable pub upload_loop : ℕ → ℕ → Option (List ℕ) → ℕ → List ℕ → p.State → Ended × p.State
  upload_loop zero size mapped offset rest s = (unfinished, s)
  upload_loop (suc rounds) size mapped offset rest s =
      let n = min chunk_bytes (size - offset) in
      let body = chunk_body mapped offset rest n in
      let sent =
        part_sent (upload_loop rounds size mapped (offset + n) (drop n rest))
          (call (chunk_message offset body) s) in
      if ltb offset size then sent else (through, s)

  -- The end of handle_upload: behind the last part the commit is sent.
  unfoldable pub upload_ended : Ended × p.State → Transfer × p.State
  upload_ended (through, s) =
      let done = call (make_message ((codes "cmd", codes "FILE_UPLOAD_COMMIT") ∷ []) []) s in
      (returned (answered (codes "ok") done.0), done.1)
  upload_ended (gave_up, s) = (returned false, s)
  upload_ended (unfinished, s) = (unended, s)

  -- handle_upload once the server is ready: the parts from an offset on, and the commit.
  unfoldable pub upload_from : Bool → List ℕ → ℕ → p.State → Transfer × p.State
  upload_from maps bytes offset s =
      let size = length bytes in
      let use_mmap = leb mmap_threshold size in
      let mapped = if use_mmap && maps then some bytes else none in
      upload_ended (upload_loop (suc size) size mapped offset (if use_mmap then [] else bytes) s)

  -- What handle_upload makes of the answer to FILE_UPLOAD_INIT.
  unfoldable pub upload_answered : Bool → List ℕ → Option Message → p.State → Transfer × p.State
  upload_answered maps bytes none s = (returned false, s)
  upload_answered maps bytes (some r) s =
      let at = header_value r (codes "offset") [] in
      let offset = if length at == 0 then some 0 else stoull at in
      if answered (codes "instant") (some r)
      then (returned true, s)
      else if answered (codes "ready") (some r)
      then elim offset [ none ↦ (threw, s) | some o ↦ upload_from maps bytes o s ]
      else (returned false, s)

  unfoldable pub handle_upload :
      (List ℕ → List ℕ) → Bool → Option (List ℕ) → FilePath → p.State → Transfer × p.State
  handle_upload md5sum maps none remote_path s = (returned false, s)
  handle_upload md5sum maps (some bytes) remote_path s =
      let init =
        make_message
          ((codes "cmd", codes "FILE_UPLOAD_INIT")
            ∷ (codes "path", remote_path)
            ∷ (codes "size", decimal (length bytes))
            ∷ (codes "md5", md5sum bytes)
            ∷ [])
          [] in
      let r = call init s in
      if length c.token == 0 then (returned false, s) else upload_answered maps bytes r.0 r.1

  -- write_chunk; `written` is what pwrite takes of the bytes, none where open fails.
  unfoldable pub write_chunk : FilePath → ℕ → List ℕ → Option ℕ → Store → Bool × Store
  write_chunk path offset bytes none fs = (false, fs)
  write_chunk path offset bytes (some written) fs = (
    written == length bytes,
    put path (overwrite offset (take written bytes) (bytes_of (content path fs))) fs,
  )

  -- The answer to a request for a part; `writes` is what pwrite takes of given bytes.
  unfoldable pub part_fetched :
      (ℕ → Store → p.State → Ended × Store × p.State)
      → (List ℕ → Option ℕ)
      → FilePath
      → ℕ
      → Store
      → Option Message
      → p.State
      → Ended × Store × p.State
  part_fetched next writes local_path offset fs none s = (gave_up, fs, s)
  part_fetched next writes local_path offset fs (some m) s =
      let w = write_chunk local_path offset m.body (writes m.body) fs in
      let rest = next (offset + length m.body) w.1 s in
      let stored = if w.0 then rest else (gave_up, w.1, s) in
      if answered (codes "done") (some m) then (through, fs, s) else stored

  -- The loop of handle_download.
  unfoldable pub download_loop :
      ℕ
      → (List ℕ → Option ℕ)
      → FilePath
      → FilePath
      → ℕ
      → ℕ
      → Store
      → p.State
      → Ended × Store × p.State
  download_loop zero writes remote_path local_path total offset fs s = (unfinished, fs, s)
  download_loop (suc rounds) writes remote_path local_path total offset fs s =
      let r = call (fetch_message remote_path offset (min chunk_bytes (total - offset))) s in
      let fetched =
        part_fetched (download_loop rounds writes remote_path local_path total) writes local_path
          offset fs r.0 r.1 in
      if ltb offset total then fetched else (through, fs, s)

  -- ftruncate
  unfoldable pub resize : ℕ → List ℕ → List ℕ
  resize n bytes = take n bytes ++ replicate (n - length bytes) 0

  -- Where a download goes on: behind the bytes of the local file.
  unfoldable pub local_offset : FilePath → ℕ → Store → ℕ
  local_offset local_path total fs =
      if ltb total (file_size local_path fs) then 0 else file_size local_path fs

  -- handle_download, once the size is known; `opens` says whether open succeeds.
  unfoldable pub download_sized :
      ℕ
      → (List ℕ → Option ℕ)
      → Bool
      → FilePath
      → FilePath
      → ℕ
      → Store
      → p.State
      → Transfer × Store × p.State
  download_sized rounds writes opens remote_path local_path total fs s =
      let sized = put local_path (resize total (bytes_of (content local_path fs))) fs in
      let r =
        download_loop rounds writes remote_path local_path total (local_offset local_path total fs)
          sized s in
      let result : Transfer = elim r.0 [
        | through ↦ returned true
        | gave_up ↦ returned false
        | unfinished ↦ unended
      ] in
      if opens then (result, r.1, r.2) else (returned false, fs, s)

  unfoldable pub handle_download :
      ℕ
      → (List ℕ → Option ℕ)
      → Bool
      → FilePath
      → FilePath
      → Store
      → p.State
      → Transfer × Store × p.State
  handle_download rounds writes opens remote_path local_path fs s =
      let init =
        make_message ((codes "cmd", codes "FILE_DOWNLOAD_INIT") ∷ (codes "path", remote_path) ∷ [])
          [] in
      let r = call init s in
      let total : Option ℕ = elim r.0 [
        | none ↦ none
        | some m ↦ stoull (header_value m (codes "size") (codes "0"))
      ] in
      let sized : Transfer × Store × p.State = elim total [
        | none ↦ (threw, fs, r.1)
        | some n ↦ download_sized rounds writes opens remote_path local_path n fs r.1
      ] in
      if length c.token == 0
      then (returned false, fs, s)
      else if answered (codes "ok") r.0
      then sized
      else (returned false, fs, r.1)
