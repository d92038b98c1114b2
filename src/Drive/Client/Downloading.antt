-- ===== src/Drive/Client/Downloading.antt =====
-- A download of client/src/client_app.cpp from a server that serves it.
use cloudisk_server.Base.{
  ℕ, zero, suc, ◌+◌, ◌-◌, ◌≤◌, ◌<◌, ◌≡◌, refl, sym, ◌∙◌, ap, List, ◌++◌, true, false, Option, some,
  ltb, length, take, drop, replicate, min, arith, Bool-cases, inl, inr, ltb→lt, subst, ==_iff,
  Option-cases, append_assoc, length-append, length-take, length-drop, length-replicate, take_all,
  take-append_here, take-add,
}
use cloudisk_server.Base.Bytes.{codes}
use cloudisk_server.Drive.Protocol.{Message}
use cloudisk_server.Drive.Storage.{FilePath, Store, content, file_size, put, overwrite, bytes_of}
use cloudisk_server.Drive.Storage.Files.{content-put, overwrite_front}
use cloudisk_server.Drive.Client.{
  Peer, ClientApp, chunk_bytes, through, returned, answered, fetch_message, call, write_chunk,
  part_fetched, download_loop, resize, local_offset, download_sized,
}

module _ (p : Peer) (c : ClientApp) (remote_path local_path : FilePath) where
  abbrev pub asks : ℕ → ℕ → p.State → Option Message × p.State
  asks total offset s =
      call p c (fetch_message remote_path offset (min chunk_bytes (total - offset))) s

  -- The local file has the size of the remote one, and begins like it.
  abbrev Agrees : List ℕ → ℕ → List ℕ → Type 0
  Agrees remote offset old = (length old ≡ length remote) × (take offset old ≡ take offset remote)

  overwrite-Agrees :
      (remote old body : List ℕ) (offset : ℕ)
      → Agrees remote offset old
      → offset + length body ≤ length remote
      → body ≡ take (length body) (drop offset remote)
      → Agrees remote (offset + length body) (overwrite offset body old)
  overwrite-Agrees remote old body offset (l, t) fit b = rw whole (
    omega (
      arith,
      at,
      length-append front (body ++ behind),
      length-append body behind,
      length-drop (offset + length body) old,
    ),
    ap (λ (x : List ℕ). take (offset + length body) x) (sym (append_assoc front body behind))
        ∙ take-append_here (offset + length body) (front ++ body) behind
            (omega (arith, at, length-append front body))
        ∙ ap (λ (x : List ℕ). front ++ x) b
        ∙ sym (take-add offset (length body) remote),
  )
    where
      front : List ℕ
      front = take offset remote

      behind : List ℕ
      behind = drop (offset + length body) old

      at : length front ≡ offset
      at = omega (arith, length-take offset remote)

      whole : overwrite offset body old ≡ front ++ (body ++ behind)
      whole =
          subst (λ (n : ℕ). overwrite n body old ≡ front ++ (body ++ drop (n + length body) old)) at
            (overwrite_front front body old (ap (λ (n : ℕ). take n old) at ∙ t))

  -- A server that answers each request with a next part of the file.
  abbrev pub Serves : List ℕ → Type 0
  Serves remote =
      (o : ℕ) (s : p.State)
      → o < length remote
      → (m : Message) × ((asks (length remote) o s).0 ≡ some m)
        × (answered (codes "done") (some m) ≡ false)
        × (0 < length m.body)
        × (o + length m.body ≤ length remote)
        × (m.body ≡ take (length m.body) (drop o remote))

  write_chunk-whole :
      (offset : ℕ) (body old : List ℕ) (fs : Store)
      → content local_path fs ≡ some old
      → write_chunk p c local_path offset body (some (length body)) fs
        ≡ (true, put local_path (overwrite offset body old) fs)
  unfolding write_chunk
  write_chunk-whole offset body old fs e =
      rw (e, take_all (length body) body (omega arith), (==_iff (length body) (length body)).1 refl)
        refl

  module _ (remote : List ℕ) (serves : Serves remote) (writes : List ℕ → Option ℕ)
      (whole : (b : List ℕ) → writes b ≡ some (length b)) where
    download_loop-delivers :
        (rounds offset : ℕ) (old : List ℕ) (fs : Store) (s : p.State)
        → length remote - offset < rounds
        → offset ≤ length remote
        → content local_path fs ≡ some old
        → Agrees remote offset old
        → let r =
            download_loop p c rounds writes remote_path local_path (length remote) offset fs s in
          (r.0 ≡ through) × (content local_path r.1 ≡ some remote)
    unfolding download_loop part_fetched
    download_loop-delivers zero offset old fs s f h e a = absurd (omega arith)
    download_loop-delivers (suc rounds) offset old fs s f h e a =
        elim (Bool-cases (ltb offset (length remote))) [
          | inr over ↦
              let end : offset ≡ length remote = ground arith in
              rw (download_loop, over)
                (
                  refl,
                  e
                      ∙ ap some (
                          sym (take_all offset old (omega arith))
                          ∙ a.1
                          ∙ take_all offset remote (omega arith)),
                )
          | inl more ↦
              let (m, e', d, pos, fit, b) = serves offset s (ltb→lt _ _ more) in
              rw
                (
                  download_loop,
                  more,
                  e',
                  part_fetched,
                  d,
                  whole m.body,
                  write_chunk-whole offset m.body old fs e,
                )
                (download_loop-delivers rounds (offset + length m.body)
                  (overwrite offset m.body old) _ _ (omega arith) fit (content-put local_path _ fs)
                  (overwrite-Agrees remote old m.body offset a fit b))
        ]

  pub file_size-bytes_of :
      (fs : Store) → file_size local_path fs ≡ length (bytes_of (content local_path fs))
  unfolding file_size
  file_size-bytes_of fs = elim (Option-cases (content local_path fs)) [
    | inl e ↦ rw (file_size, e) refl
    | inr (bytes, e) ↦ rw (file_size, e) refl
  ]

  pub resize-append :
      (total : ℕ) (start : List ℕ)
      → length start ≤ total
      → resize p c total start ≡ start ++ replicate (total - length start) 0
  unfolding resize
  resize-append total start h =
      ap (λ (x : List ℕ). x ++ replicate (total - length start) 0) (take_all total start h)

  pub local_offset-start :
      (total : ℕ) (fs : Store) (start : List ℕ)
      → bytes_of (content local_path fs) ≡ start
      → length start ≤ total
      → local_offset p c local_path total fs ≡ length start
  unfolding local_offset
  local_offset-start total fs start e h =
      let size : file_size local_path fs ≡ length start = file_size-bytes_of fs ∙ ap length e in
      ground (arith, size)

  -- handle_download once the size is known, from a server that answers each request with a next part
  -- of the file, where the local file is a beginning of it, or is not there, and each write succeeds:
  -- as many rounds as the file has bytes, and one more, are enough for it to return true, and the
  -- local file is then the server's.
  pub download_sized-delivers :
      (remote start : List ℕ) (writes : List ℕ → Option ℕ) (fs : Store) (s : p.State)
      → Serves remote
      → ((b : List ℕ) → writes b ≡ some (length b))
      → bytes_of (content local_path fs) ≡ start
      → take (length start) remote ≡ start
      → let r =
          download_sized p c
            (suc (length remote))
            writes
            true
            remote_path
            local_path
            (length remote)
            fs
            s in
        (r.0 ≡ returned true) × (content local_path r.1 ≡ some remote)
  unfolding download_sized
  download_sized-delivers remote start writes fs s serves whole e begins =
      rw
        (
          download_sized,
          e,
          local_offset-start total fs start e within,
          resize-append total start within,
          done.0,
        )
        (refl, done.1)
    where
      total : ℕ
      total = length remote

      within : length start ≤ total
      within = omega (arith, length-take (length start) remote, ap length begins)

      zeros : List ℕ
      zeros = replicate (total - length start) 0

      agrees : Agrees remote (length start) (start ++ zeros)
      agrees = (
        omega (
          arith,
          length-append start zeros,
          length-replicate {A = ℕ} (total - length start) 0,
          within,
        ),
        take-append_here (length start) start zeros refl ∙ sym begins,
      )

      done :
          ((download_loop p c
              (suc total)
              writes
              remote_path
              local_path
              total
              (length start)
              (put local_path (start ++ zeros) fs)
              s).0
            ≡ through)
          × (content local_path
                (download_loop p c
                  (suc total)
                  writes
                  remote_path
                  local_path
                  total
                  (length start)
                  (put local_path (start ++ zeros) fs)
                  s).1
              ≡ some remote)
      done =
          download_loop-delivers remote serves writes whole (suc total) (length start)
            (start ++ zeros) _ s (omega arith) within (content-put local_path (start ++ zeros) fs)
            agrees
