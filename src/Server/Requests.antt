-- ===== src/Server/Requests.antt =====
-- The cases of main's switch that serve a client that is logged in.
use cloudisk_server.Base.{
  ℕ, ◌-◌, List, [], ◌∷◌, ◌++◌, ltb, ◌==◌, if◌then◌else◌, ℤ, pos, minus_one, pos_part, eqb_ℤ, dec,
  Outcome, ok, length, drop, set,
}
use cloudisk_server.Base.Bytes.{
  codes, string_at, memcpy, write_at, fits, strcpy, int_bytes, int_of_bytes, format_int,
}
use cloudisk_server.Base.Runs
use cloudisk_server.Balance.{math_task, add_busy, avg_client_num, up_task_num}
use cloudisk_server.Wire.Codes.{
  register_no, operate_no, ls_ok, download_pok, upload_pok, upload_ok, down_more_pok,
}
use cloudisk_server.Database.{Text, Platform}
use cloudisk_server.Database.Users.{olog}
use cloudisk_server.Database.Files.{FileInfo, ls_func, find_file_info, math_uoload, get_mqbuf}
use cloudisk_server.Database.Directories.{operate_func}
use cloudisk_server.Server.Steps.{Exec, lift, gets, ◌>>=◌, ◌>>◌}
use cloudisk_server.Server.{
  World, unwatches, to_download, to_upload, size, nth_client, client_at, on_db, emit, set_train,
  answer, reply, message_text,
}
use cloudisk_server.Server.Sessions.{dashes, answer_text}

-- The bytes of File_info: the name at 0, the size at 32, the md5 at 36; 88 in all. Both strings
-- are read here, also where the code comes to the second only later or not at all.
unfoldable pub read_info : List ℕ → Outcome FileInfo
unfolding string_at int_of_bytes
read_info b = Runs.◌>>=◌ (string_at 0 b) λ name.
    Runs.◌>>=◌ (string_at 36 b)
      λ md5. ok (record { filename = name; filesize = int_of_bytes (drop 32 b); md5sum = md5 })

-- What find_file_info stores through its pointer.
unfoldable pub store_info : FileInfo → List ℕ → Outcome (List ℕ)
unfolding write_at int_bytes
store_info info b =
    Runs.◌>>=◌ (write_at 32 (int_bytes info.filesize) b)
      λ b1. write_at 36 (info.md5sum ++ 0 ∷ []) b1

abbrev pub info_size : ℕ
info_size = 88

-- sizeof(MQ_buf): three sockaddr_in of 16 bytes and a File_info.
abbrev pub mqbuf_size : ℕ
mqbuf_size = 136

abbrev pub join_bytes : List (List ℕ) → List ℕ
join_bytes [] = []
join_bytes (x ∷ xs) = x ++ join_bytes xs

module _ {p : Platform} where
  -- file_info with new bytes.
  unfoldable pub store_file : {A : Type 0} → A → List ℕ → Exec (World p) A
  store_file a b w = ok (a, record w { file_info = b })

  -- strcpy(file_info.filename, train.buf), then find_file_info: the name, and whether it is there.
  unfoldable pub requested_file : ℕ → Exec (World p) (Text × ℤ)
  requested_file fd = do
    name ← message_text
    name' ← lift (fits 30 name)
    bytes ← gets (λ w. w.file_info)
    bytes' ← lift (strcpy bytes name')
    c ← client_at fd
    found ← on_db (
        find_file_info p (record { filename = name'; filesize = pos 0; md5sum = [] }) c.name c.code)
    stored ← lift (if eqb_ℤ found.0 minus_one then ok bytes' else store_info found.1 bytes')
    store_file (found.1.md5sum, found.0) stored

  -- memcpy(train.buf, &file_info, sizeof(File_info)) with the new length and code.
  unfoldable pub answer_info : ℤ → Exec (World p) (Unit {0})
  unfolding memcpy
  answer_info ctl w =
      Runs.◌>>=◌ (memcpy w.train.buf w.file_info info_size)
        λ b. ok (tt, record w { train = record { len = pos info_size; ctl_code = ctl; buf = b } })

  -- The end of a hand-over: state = 0, code = 0, rotate = -1 and client_sum--.
  unfoldable pub forget_client : ℕ → Exec (World p) (Unit {0})
  unfolding nth_client
  forget_client fd w = Runs.◌>>=◌ (nth_client w.clients fd) λ c. ok (
    tt,
    record w {
      clients = set w.clients fd (record c { state = 0; code = pos 0; rotate = minus_one });
      client_sum = dec w.client_sum;
    },
  )

  unfoldable pub add_download : ℕ → Exec (World p) (Unit {0})
  add_download i w = ok (tt, record w { down_thread = add_busy i w.down_thread })

  unfoldable pub add_upload : ℕ → Exec (World p) (Unit {0})
  add_upload i w = ok (tt, record w { upload_thread = add_busy i w.upload_thread })

  -- memcpy(&qq_msg, train.buf, train.Len)
  unfoldable pub load_query : Exec (World p) (List ℕ)
  unfolding size memcpy
  load_query w =
      Runs.◌>>=◌ (size w.train.len)
        λ n. Runs.◌>>=◌ (memcpy w.qq_msg w.train.buf n) λ b. ok (b, record w { qq_msg = b })

  -- memcpy(&file_info, train.buf, train.Len)
  unfoldable pub load_info : Exec (World p) (List ℕ)
  unfolding size memcpy
  load_info w =
      Runs.◌>>=◌ (size w.train.len)
        λ n. Runs.◌>>=◌ (memcpy w.file_info w.train.buf n) λ b. ok (b, record w { file_info = b })

  -- operate_func on the variables of main, and through its pointers on the client's code.
  unfoldable pub operate : ℕ → Exec (World p) ℤ
  unfolding nth_client
  operate fd w = Runs.◌>>=◌ (nth_client w.clients fd) λ c.
      Runs.◌>>=◌
        (operate_func p (record { train = w.train; qq = w.qq_msg; code = c.code }) c.name w.db)
        λ r. ok (
          r.0.0,
          record w {
            train = r.0.1.train;
            qq_msg = r.0.1.qq;
            clients = set w.clients fd (record c { code = r.0.1.code });
            db = r.1;
          },
        )

  -- memcpy(train.buf, &mqbuf, sizeof(MQ_buf)): the addresses, then the file.
  unfoldable pub answer_spots : List (List ℕ) → Exec (World p) (Unit {0})
  unfolding memcpy
  answer_spots spots w =
      Runs.◌>>=◌ (memcpy w.train.buf (join_bytes spots ++ w.file_info) mqbuf_size) λ b. ok (
        tt,
        record w { train = record { len = pos mqbuf_size; ctl_code = down_more_pok; buf = b } },
      )

module _ (p : Platform) (fd : ℕ) where
  -- case LS_Q
  unfoldable pub ls_case : Exec (World p) (Unit {0})
  ls_case = do
    c ← client_at fd
    if c.state == 2
        then (do
          on_db (olog p c.name (codes "Ls") dashes (codes "Success"))
          n ← gets (λ w. length w.train.buf)
          text ← on_db (ls_func p n c.name c.code)
          buf ← gets (λ w. w.train.buf)
          buf' ← lift (strcpy buf text)
          set_train (record { len = pos 0; ctl_code = ls_ok; buf = buf' })
          answer_text ls_ok)
        else answer register_no
    reply fd

  -- case OPERATE_Q
  unfoldable pub operate_case : Exec (World p) (Unit {0})
  operate_case = do
    c ← client_at fd
    if c.state == 2
        then (do
          qq ← load_query
          verb ← lift (string_at 100 qq)
          temp ← lift (fits 50 verb)
          object ← lift (string_at 0 qq)
          on_db (olog p c.name verb object (codes "Request"))
          ret ← operate fd
          if eqb_ℤ ret minus_one
              then (do on_db (olog p c.name temp dashes (codes "False")); answer operate_no)
              else on_db (olog p c.name temp dashes (codes "Success")))
        else answer register_no
    reply fd

  -- case DOWNLOAD_PRE; a client that is not logged in is sent nothing.
  unfoldable pub download_pre_case : Exec (World p) (Unit {0})
  download_pre_case = do
    text ← message_text
    temp ← lift (fits 50 text)
    c ← client_at fd
    if ltb c.state 2 then answer register_no else do
      found ← requested_file fd
      if eqb_ℤ found.1 minus_one
          then (do
            answer operate_no
            on_db (olog p c.name (codes "Download") temp (codes "Request false")))
          else (do
            answer_info download_pok
            on_db (olog p c.name (codes "Download") temp (codes "Request success")))
      reply fd

  -- case DOWN_MORE_PRE: a download from several servers.
  unfoldable pub down_more_case : Exec (World p) (Unit {0})
  down_more_case = do
    text ← message_text
    temp ← lift (fits 50 text)
    c ← client_at fd
    if ltb c.state 2 then answer register_no else do
      found ← requested_file fd
      if eqb_ℤ found.1 minus_one
          then (do
            answer operate_no
            on_db (olog p c.name (codes "MDownload") temp (codes "Request false")))
          else (do
            spots ← on_db (get_mqbuf p found.0)
            if eqb_ℤ spots.0 (pos 0)
                then (do
                  on_db (olog p c.name (codes "MDownload") temp (codes "Request success"))
                  answer_spots spots.1)
                else (do
                  answer operate_no
                  on_db (olog p c.name (codes "MDownload") temp (codes "Request false"))))
      reply fd

  -- case UPLOAD_PRE. `train.Len` and the bytes of the request are sent back in the reply.
  unfoldable pub upload_pre_case : Exec (World p) (Unit {0})
  upload_pre_case = do
    text ← message_text
    temp ← lift (fits 50 text)
    c ← client_at fd
    if ltb c.state 2 then answer register_no else do
      bytes ← load_info
      info ← lift (read_info bytes)
      ret ← on_db (math_uoload p info c.name c.code)
      if eqb_ℤ ret minus_one
          then (do
            answer operate_no
            on_db (olog p c.name (codes "Upload") temp (codes "Request false")))
          else if eqb_ℤ ret (pos 1)
          then (do
            t ← gets (λ w. w.train)
            set_train (record t { ctl_code = upload_ok })
            on_db (olog p c.name (codes "Upload") temp (codes "Upload sucess")))
          else (do
            t ← gets (λ w. w.train)
            set_train (record t { ctl_code = upload_pok })
            on_db (olog p c.name (codes "Upload") temp (codes "Request sucess")))
      reply fd

  -- case DOWNLOAD_Q: the client goes over to a download thread. For one that is not logged in
  -- control falls through to UPLOAD_PRE.
  unfoldable pub download_q_case : Exec (World p) (Unit {0})
  unfolding math_task
  download_q_case = do
    c ← client_at fd
    if ltb c.state 2 then (do answer register_no; upload_pre_case) else do
      ws ← gets (λ w. w.down_thread)
      ret ← lift (math_task ws (pos avg_client_num))
      if eqb_ℤ ret minus_one then (do answer operate_no; reply fd) else do
        on_db (
            olog p c.name (codes "Download move") (codes " download thread:" ++ format_int ret)
              (codes "Success"))
        emit (to_download (pos_part ret) fd)
        add_download (pos_part ret)
        emit (unwatches fd)
        forget_client fd

  -- case UPLOAD_Q: the client goes over to an upload thread.
  unfoldable pub upload_q_case : Exec (World p) (Unit {0})
  unfolding math_task
  upload_q_case = do
    c ← client_at fd
    if ltb c.state 2 then answer register_no else do
      ws ← gets (λ w. w.upload_thread)
      ret ← lift (math_task ws (pos (up_task_num - 1)))
      if eqb_ℤ ret minus_one then (do answer operate_no; reply fd) else do
        on_db (
            olog p c.name (codes "Upload move") (codes " upload thread:" ++ format_int ret)
              (codes "Success"))
        emit (to_upload (pos_part ret) fd)
        add_upload (pos_part ret)
        emit (unwatches fd)
        forget_client fd
