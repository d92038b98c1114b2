-- ===== src/Upload/Chunks.antt =====
-- A file that arrives in parts is written in order, and its entry is made at the end.
use cloudisk_server.Base.{
  ℕ, zero, suc, ◌≤◌, ◌<◌, ◌≡◌, refl, sym, ◌∙◌, List, [], ◌∷◌, ◌++◌, true, false, Option, ltb, ◌==◌,
  if◌then◌else◌, pos, Outcome, ok, length, set, drop, take, arith, append_assoc, append-nil,
  take-append_le, take_all, Bool-cases, inl, inr, subst, length-append, length-drop,
}
use cloudisk_server.Base.Runs
use cloudisk_server.Base.Bytes.{codes, format_int, fits, int_bytes}
use cloudisk_server.Base.Bytes.Numbers.{IsInt}
use cloudisk_server.Base.Bytes.Arrays.{write_at_front}
use cloudisk_server.Wire.{Recv, buf_size}
use cloudisk_server.Wire.Receive.{AllArrive, stream}
use cloudisk_server.Wire.Frame.{frame, recv_cyl-front, length-int_bytes, int_back}
use cloudisk_server.Wire.Codes.{upload_ok}
use cloudisk_server.Database.{Text, Platform, execute, send_query}
use cloudisk_server.Database.Files.{add_file}
use cloudisk_server.Upload.{
  UpTask, UpEffect, writes, Uploads, nth_task, take_message, add_int, no_task, end_effects, move,
  reports,
}

module _ (p : Platform) where
  -- What a part of the file leaves behind.
  abbrev with_chunk : ℕ → UpTask → List ℕ → Uploads p → Uploads p
  with_chunk j t chunk u = record u {
    tasks = set u.tasks j (record t { place = add_int t.place (length chunk) });
    train = record {
      len = pos (length chunk);
      ctl_code = upload_ok;
      buf = chunk ++ drop (length chunk) u.train.buf;
    };
    effects = writes t.fd chunk ∷ u.effects;
  }

  take_message-chunk :
      (j : ℕ) (t : UpTask) (opened : Option ℕ) (es : List Recv) (chunk more : List ℕ)
      (u : Uploads p)
      → nth_task u.tasks j ≡ ok t
      → t.state ≡ 1
      → AllArrive es
      → stream es ≡ frame (pos (length chunk)) upload_ok (chunk ++ more)
      → 0 < length chunk
      → length chunk ≤ length u.train.buf
      → IsInt (pos (length chunk))
      → (rest : List Recv) × (take_message p j opened es u
          ≡ ok (false, rest, with_chunk j t chunk u))
        × (stream rest ≡ more)
        × AllArrive rest
  unfolding take_message
  take_message-chunk j t opened es chunk more u there one h e some_bytes room is_len =
      let n = length chunk in
      let (s1, e1, left1, h1) =
        recv_cyl-front 4 es (int_bytes (pos n)) _ h e (length-int_bytes (pos n)) in
      let (s2, e2, left2, h2) =
        recv_cyl-front 4 s1 (int_bytes upload_ok) _ h1 left1 (length-int_bytes upload_ok) in
      let (s3, e3, left3, h3) = recv_cyl-front n s2 chunk more h2 left2 refl in
      (
        s3,
        rw
            (
              e1,
              e2,
              int_back (pos n) is_len,
              int_back upload_ok (omega arith),
              there,
              nonzero,
              one,
              e3,
              write_at_front n chunk u.train.buf refl room,
              front,
            )
            refl,
        left3,
        h3,
      )
    where
      nonzero : (length chunk == 0) ≡ false
      nonzero = ground arith

      front : take (length chunk) (chunk ++ drop (length chunk) u.train.buf) ≡ chunk
      front =
          take-append_le (length chunk) chunk _ (omega arith)
          ∙ take_all (length chunk) chunk (omega arith)

-- What has been written to a descriptor, in order.
abbrev pub written : ℕ → List UpEffect → List ℕ
written fd [] = []
written fd (e ∷ es) = elim e [
  | writes f bs ↦ written fd es ++ (if f == fd then bs else [])
  | _ ↦ written fd es
]

abbrev pub concat : List (List ℕ) → List ℕ
concat [] = []
concat (c ∷ cs) = c ++ concat cs

-- The parts of a file on the wire, each a message with the code UPLOAD_OK.
abbrev pub parts : List (List ℕ) → List ℕ → List ℕ
parts [] tail = tail
parts (c ∷ cs) tail = frame (pos (length c)) upload_ok (c ++ parts cs tail)

-- Parts that are not empty and fit a buffer of `n` bytes.
abbrev pub AllFit : ℕ → List (List ℕ) → Type 0
AllFit n [] = Unit
AllFit n (c ∷ cs) = (0 < length c) × (length c ≤ n) × AllFit n cs

nth_task-set :
    (ts : List UpTask) (j : ℕ) (t t' : UpTask)
    → nth_task ts j ≡ ok t
    → nth_task (set ts j t') j ≡ ok t'
unfolding nth_task
nth_task-set [] j t t' e = ground arith
nth_task-set (x ∷ xs) zero t t' e = refl
nth_task-set (x ∷ xs) (suc j) t t' e = nth_task-set xs j t t' e

written-end_effects :
    (fd : ℕ) (t : UpTask) (es : List UpEffect)
    → written fd (end_effects (pos 0) t ++ es) ≡ written fd es
unfolding end_effects
written-end_effects fd t es = elim (Bool-cases (t.state == 2)) [
  | inl mapped ↦ elim (Bool-cases (ltb 0 t.fd)) [
    | inl file ↦ rw (mapped, file) refl
    | inr bare ↦ rw (mapped, bare) refl
  ]
  | inr plain ↦ elim (Bool-cases (ltb 0 t.fd)) [
    | inl file ↦ rw (plain, file) refl
    | inr bare ↦ rw (plain, bare) refl
  ]
]

module _ (p : Platform) where
  -- `n` messages from the client of slot `j`, one after the other.
  abbrev pub take_messages :
      ℕ → ℕ → Option ℕ → List Recv → Uploads p → Outcome (List Recv × Uploads p)
  take_messages zero j opened es u = ok (es, u)
  take_messages (suc n) j opened es u =
      Runs.◌>>=◌ (take_message p j opened es u) λ r. take_messages n j opened r.1 r.2

  -- The upload is over: the slot is free, the entry has been made, and the file has its bytes.
  pub record Finished (j fd : ℕ) (d' : p.Db) (bytes : List ℕ) (u : Uploads p) : Type 0 where
    pub slot_free : nth_task u.tasks j ≡ ok no_task
    pub entered : u.db ≡ d'
    pub file : written fd u.effects ≡ bytes

  take_message-end :
      (j : ℕ) (t : UpTask) (opened : Option ℕ) (es : List Recv) (more : List ℕ) (u : Uploads p)
      (d' : p.Db)
      → nth_task u.tasks j ≡ ok t
      → AllArrive es
      → stream es ≡ frame (pos 0) upload_ok more
      → add_file p t.code t.name t.file u.db ≡ ok (tt, d')
      → (rest : List Recv) × (v : Uploads p) × (take_message p j opened es u ≡ ok (false, rest, v))
        × (stream rest ≡ more)
        × Finished j t.fd d' (written t.fd u.effects) v
  unfolding take_message
  take_message-end j t opened es more u d' there h e made =
      let (s1, e1, left1, h1) =
        recv_cyl-front 4 es (int_bytes (pos 0)) _ h e (length-int_bytes (pos 0)) in
      let (s2, e2, left2, h2) =
        recv_cyl-front 4 s1 (int_bytes upload_ok) _ h1 left1 (length-int_bytes upload_ok) in
      let v : Uploads p = record u {
        tasks = set u.tasks j no_task;
        front = move u.front;
        train = record u.train { len = pos 0; ctl_code = upload_ok };
        db = d';
        effects = reports (pos 0) ∷ (end_effects (pos 0) t ++ u.effects);
      } in
      (
        s2,
        v,
        rw (e1, e2, int_back (pos 0) (omega arith), int_back upload_ok (omega arith), there, made)
            refl,
        left2,
        record {
          slot_free = nth_task-set u.tasks j t no_task there;
          entered = refl;
          file = written-end_effects t.fd t u.effects;
        },
      )

  -- The messages for the parts, and the closing one.
  take_messages-entered :
      (chunks : List (List ℕ)) (j : ℕ) (t : UpTask) (opened : Option ℕ) (es : List Recv)
      (more : List ℕ) (u : Uploads p) (d' : p.Db)
      → nth_task u.tasks j ≡ ok t
      → t.state ≡ 1
      → AllArrive es
      → stream es ≡ parts chunks (frame (pos 0) upload_ok more)
      → length u.train.buf ≤ buf_size
      → AllFit (length u.train.buf) chunks
      → add_file p t.code t.name t.file u.db ≡ ok (tt, d')
      → (rest : List Recv) × (v : Uploads p) × (take_messages (suc (length chunks)) j opened es u
          ≡ ok (rest, v))
        × (stream rest ≡ more)
        × Finished j t.fd d' (written t.fd u.effects ++ concat chunks) v
  take_messages-entered [] j t opened es more u d' there one h e small fit made =
      let (rest, v, run, left, f) = take_message-end j t opened es more u d' there h e made in
      (
        rest,
        v,
        rw run refl,
        left,
        record {
          slot_free = f.slot_free;
          entered = f.entered;
          file = f.file ∙ sym (append-nil (written t.fd u.effects));
        },
      )
  take_messages-entered (c ∷ cs) j t opened es more u d' there one h e small fit made =
      let (mid, run, left, h') =
        take_message-chunk p j t opened es c (parts cs (frame (pos 0) upload_ok more)) u there one h
          e fit.0 fit.1 (omega (arith, fit.1)) in
      let t' : UpTask = record t { place = add_int t.place (length c) } in
      let same : length (c ++ drop (length c) u.train.buf) ≡ length u.train.buf = omega (
        arith,
        length-append c (drop (length c) u.train.buf),
        length-drop (length c) u.train.buf,
        fit.1,
      ) in
      let (rest, v, runs, left', f) =
        take_messages-entered cs j t' opened mid more (with_chunk p j t c u) d'
          (nth_task-set u.tasks j t t' there) one h' left (omega (arith, same))
          (subst (λ (n : ℕ). AllFit n cs) (sym same) fit.2) made in
      (
        rest,
        v,
        rw run runs,
        left',
        record {
          slot_free = f.slot_free;
          entered = f.entered;
          file = f.file ∙ rw self (append_assoc (written t.fd u.effects) c (concat cs));
        },
      )
    where
      self : (t.fd == t.fd) ≡ true
      self = ground arith

  -- The INSERT for the file of a slot, as it is sent.
  abbrev pub entry_query : UpTask → Text
  entry_query t =
      codes "insert into Directory(procode,filename,belongID,filetype,md5sum,filesize) values("
      ++ (format_int t.code
          ++ (codes ",'"
              ++ (t.file.filename
                  ++ (codes "','"
                      ++ (t.name
                          ++ (codes "','f','"
                              ++ (t.file.md5sum
                                  ++ (codes "',"
                                      ++ (format_int t.file.filesize ++ codes ")")))))))))

  add_file-entry_query :
      (t : UpTask) (d : p.Db)
      → p.connects d ≡ true
      → ltb (length (entry_query t)) 300 ≡ true
      → add_file p t.code t.name t.file d ≡ ok (tt, (p.query (entry_query t) d).1)
  unfolding add_file execute send_query fits
  add_file-entry_query t d up small = rw (add_file, up, small) refl

  -- An upload in parts. Slot `j` is in state 1, the parts are not empty and fit train.buf, which has
  -- at most BUFSIZE bytes, their stream has no error, a connection to the database is made, and the
  -- INSERT for the file fits its 300 bytes. Then the messages for the parts and the one of length 0
  -- are all taken, the bytes behind them stay in the stream, the file has got the parts in order,
  -- behind what had been written to it before, the INSERT has been sent and the database is as it
  -- leaves it, whether it succeeds or not, and the slot is free.
  pub take_messages-Finished :
      (chunks : List (List ℕ)) (j : ℕ) (t : UpTask) (opened : Option ℕ) (es : List Recv)
      (more : List ℕ) (u : Uploads p)
      → nth_task u.tasks j ≡ ok t
      → t.state ≡ 1
      → AllArrive es
      → stream es ≡ parts chunks (frame (pos 0) upload_ok more)
      → length u.train.buf ≤ buf_size
      → AllFit (length u.train.buf) chunks
      → p.connects u.db ≡ true
      → ltb (length (entry_query t)) 300 ≡ true
      → (rest : List Recv) × (v : Uploads p) × (take_messages (suc (length chunks)) j opened es u
          ≡ ok (rest, v))
        × (stream rest ≡ more)
        × Finished j t.fd
            (p.query (entry_query t) u.db).1
            (written t.fd u.effects ++ concat chunks)
            v
  take_messages-Finished chunks j t opened es more u there one h e small fit up short =
      take_messages-entered chunks j t opened es more u _ there one h e small fit
        (add_file-entry_query t u.db up short)
