-- ===== src/Drive/Client/Lost.antt =====
-- Downloads of client/src/client_app.cpp that go wrong.
use cloudisk_server.Base.{
  ℕ, zero, suc, ◌+◌, ◌-◌, ◌<◌, ◌≡◌, refl, ◌∙◌, ap, List, [], ◌++◌, true, false, Option, none, some,
  ltb, length, replicate, arith, lt→ltb, append-nil, length-replicate,
}
use cloudisk_server.Base.Bytes.{codes}
use cloudisk_server.Drive.Protocol.{Message}
use cloudisk_server.Drive.Storage.{FilePath, Store, content, put, bytes_of}
use cloudisk_server.Drive.Storage.Files.{content-put}
use cloudisk_server.Drive.Client.{
  Peer, ClientApp, unfinished, returned, answered, write_chunk, part_fetched, download_loop, resize,
  local_offset, download_sized,
}
use cloudisk_server.Drive.Client.Downloading.{asks, resize-append, local_offset-start}

module _ (p : Peer) (c : ClientApp) (remote_path local_path : FilePath) where
  -- A server that answers each request for a part with an empty body and a status other than "done",
  -- as it does where the token has expired: the loop does not end in any number of rounds.
  pub download_loop-endless :
      (rounds : ℕ) (writes : List ℕ → Option ℕ) (total offset : ℕ) (fs : Store) (s : p.State)
      → offset < total
      → writes [] ≡ some 0
      → ((o : ℕ) (s' : p.State)
          → (m : Message) × ((asks p c remote_path local_path total o s').0 ≡ some m)
            × (m.body ≡ [])
            × (answered (codes "done") (some m) ≡ false))
      → (download_loop p c rounds writes remote_path local_path total offset fs s).0 ≡ unfinished
  unfolding download_loop part_fetched write_chunk
  download_loop-endless zero writes total offset fs s l w h = refl
  download_loop-endless (suc rounds) writes total offset fs s l w h =
      let (m, e, b, d) = h offset s in
      rw (download_loop, lt→ltb offset total l, e, part_fetched, d, b, w)
        (download_loop-endless rounds writes total (offset + 0) _ _ (omega arith) w h)

  -- A local file of the size that is announced is taken for the whole file.
  download_sized_full :
      (rounds : ℕ) (writes : List ℕ → Option ℕ) (total : ℕ) (bytes : List ℕ) (fs : Store)
      (s : p.State)
      → content local_path fs ≡ some bytes
      → length bytes ≡ total
      → let r = download_sized p c (suc rounds) writes true remote_path local_path total fs s in
        (r.0 ≡ returned true) × (content local_path r.1 ≡ some bytes)
  unfolding download_sized download_loop
  download_sized_full rounds writes total bytes fs s e l =
      let kept : bytes_of (content local_path fs) ≡ bytes = ap bytes_of e in
      let at : local_offset p c local_path total fs ≡ length bytes =
        local_offset-start p c remote_path local_path total fs bytes kept (omega arith) in
      let same : resize p c total bytes ≡ bytes =
        resize-append p c remote_path local_path total bytes (omega arith)
        ∙ ap (λ (n : ℕ). bytes ++ replicate n 0) {x = total - length bytes} {y = 0} (omega arith)
        ∙ append-nil bytes in
      let over : ltb (length bytes) total ≡ false = ground arith in
      rw (download_sized, kept, at, same, download_loop, over)
        (refl, content-put local_path bytes fs)

  -- A download to a new file whose connection is lost at its first part.
  download_sized_lost :
      (rounds : ℕ) (writes : List ℕ → Option ℕ) (total : ℕ) (fs : Store) (s : p.State)
      → content local_path fs ≡ none
      → 0 < total
      → (asks p c remote_path local_path total 0 s).0 ≡ none
      → download_sized p c (suc rounds) writes true remote_path local_path total fs s ≡ (
        returned false,
        put local_path (replicate total 0) fs,
        (asks p c remote_path local_path total 0 s).1,
      )
  unfolding download_sized download_loop part_fetched
  download_sized_lost rounds writes total fs s new some_bytes lost =
      let kept : bytes_of (content local_path fs) ≡ [] = ap bytes_of new in
      let at : local_offset p c local_path total fs ≡ 0 =
        local_offset-start p c remote_path local_path total fs [] kept (omega arith) in
      let sized : resize p c total (bytes_of (content local_path fs)) ≡ replicate total 0 =
        ap (resize p c total) kept
        ∙ resize-append p c remote_path local_path total [] (omega arith)
        ∙ ap (λ (n : ℕ). replicate n 0) {x = total - 0} {y = total} (omega arith) in
      rw (download_sized, at, download_loop, lt→ltb 0 total some_bytes, lost, part_fetched, sized)
        refl

  -- A download to a new file whose connection is lost at its first part leaves a file of zeros that
  -- has the full size; the next download of it reports success, whatever the server would send, and
  -- leaves the zeros.
  pub download_lost :
      (rounds : ℕ) (writes : List ℕ → Option ℕ) (total : ℕ) (fs : Store) (s s' : p.State)
      → content local_path fs ≡ none
      → 0 < total
      → (asks p c remote_path local_path total 0 s).0 ≡ none
      → let first = download_sized p c (suc rounds) writes true remote_path local_path total fs s in
        let second =
          download_sized p c (suc rounds) writes true remote_path local_path total first.1 s' in
        (first.0 ≡ returned false)
        × (second.0 ≡ returned true)
        × (content local_path second.1 ≡ some (replicate total 0))
  download_lost rounds writes total fs s s' new some_bytes lost =
      let (succeeds, kept) =
        download_sized_full rounds writes total (replicate total 0)
          (put local_path (replicate total 0) fs) s' (content-put local_path (replicate total 0) fs)
          (length-replicate total 0) in
      rw (download_sized_lost rounds writes total fs s new some_bytes lost) (refl, succeeds, kept)
