-- ===== src/Database/Directories.antt =====
-- The commands mkdir, cd and rm in src/sql.c.
pub mod Walk
use cloudisk_server.Base.{
  ℕ, zero, suc, ◌+◌, ◌-◌, List, [], ◌∷◌, ◌++◌, Bool, ◌==◌, if◌then◌else◌, ℤ, pos, minus_one, eqb_ℤ,
  Outcome, ok, undefined, waits, length, take, drop, set, replicate, same_bytes, ◌||◌,
}
use cloudisk_server.Base.Runs
use cloudisk_server.Base.Action.{Action, ◌>>=◌, pure, lift}
use cloudisk_server.Base.Bytes.{codes, fits, format_int, atoi, memcpy, string_at}
use cloudisk_server.Wire.{Train}
use cloudisk_server.Wire.Codes.{operate_ok, operate_no}
use cloudisk_server.Database.{Text, Platform, query_failed, no_row, row, cell, execute, fetch}
use cloudisk_server.Database.Files.{
  find_later_code, find_later_file, delete_file, in_directory, named,
}

-- strcmp(array, literal) == 0; it reads no further than the first difference.
unfoldable pub is_string : List ℕ → Text → Bool
unfolding same_bytes
is_string bytes s = same_bytes (take (suc (length s)) bytes) (s ++ 0 ∷ [])

-- What operate_func reads and writes through its pointers: the message, QUR_msg as its 300 bytes
-- (buf1 at 0, buf at 100) and the client's directory.
pub record Operation : Type 0 where
  pub train : Train
  pub qq : List ℕ
  pub code : ℤ

-- A byte of an array; behind its end it is undefined.
unfoldable pub byte_at : List ℕ → ℕ → Outcome ℕ
byte_at [] i = undefined
byte_at (b ∷ bs) zero = ok b
byte_at (b ∷ bs) (suc i) = byte_at bs i

-- The inner loop over a path: how far the next '/' or NUL is.
unfoldable pub scan : List ℕ → Outcome ℕ
scan [] = undefined
scan (b ∷ bs) =
    let rest = scan bs in if (b == b'/') || (b == 0) then ok 0 else Runs.◌>>=◌ rest λ n. ok (suc n)

-- Where an absolute path led: the code or -1, and buf1 behind its '/', which is split in place.
pub record Walked : Type 0 where
  pub ret : ℤ
  pub text : List ℕ

module _ (p : Platform) where
  abbrev pub pre_code_query : ℤ → Text
  pre_code_query code =
      codes "select procode,filename from Directory where code=" ++ format_int code

  -- find_pre_code: the code of the parent, or -1, and the name, which goes to 30 bytes.
  unfoldable pub find_pre_code : ℤ → Action p.Db (ℤ × Text)
  unfolding fetch cell fits atoi
  find_pre_code code = do
    found ← fetch p (pre_code_query code)
    elim found [
      | query_failed ↦ pure (minus_one, [])
      | no_row ↦ pure (minus_one, [])
      | row r ↦ do
        name ← lift (cell 1 r)
        name' ← lift (fits 30 name)
        up ← lift (cell 0 r)
        pure (atoi up, name')
    ]

  -- The first loop of cd_func's end: the names from the root down to `code`. Where the fuel is gone
  -- the loop goes on for ever.
  unfoldable pub climb : ℕ → ℤ → List Text → Action p.Db (List Text)
  unfolding find_pre_code
  climb zero code names = λ d. waits
  climb (suc fuel) code names = λ d. Runs.◌>>=◌ (find_pre_code code d) λ r.
      let up = climb fuel r.0.0 (r.0.1 ∷ names) r.1 in
      if eqb_ℤ r.0.0 minus_one then ok (names, r.1) else up

  -- The second loop: "/" and a name for each, in 200 bytes.
  unfoldable pub join_path : Text → List Text → Outcome Text
  unfolding fits
  join_path acc [] = ok acc
  join_path acc (n ∷ ns) = Runs.◌>>=◌ (fits 200 (acc ++ (b'/' ∷ n))) λ acc'. join_path acc' ns

  unfoldable pub path_text : List Text → Outcome Text
  unfolding join_path
  path_text [] = ok (b'/' ∷ [])
  path_text (n ∷ ns) = join_path [] (n ∷ ns)

  -- A char array of `n` bytes, cleared, that then holds a string.
  unfoldable pub char_array : ℕ → Text → Outcome (List ℕ)
  unfolding fits
  char_array n s = Runs.◌>>=◌ (fits n s) λ s'. ok (s' ++ replicate (n - length s') 0)

  -- The end of cd_func, with the new directory known.
  unfoldable pub cd_reply : Operation → Action p.Db (ℤ × Operation)
  unfolding climb path_text char_array memcpy
  cd_reply o = do
    names ← climb p.climb_fuel o.code []
    path ← lift (path_text names)
    buf1 ← lift (char_array 100 path)
    buf ← lift (char_array 200 (format_int o.code))
    let qq = buf1 ++ buf
    out ← lift (memcpy o.train.buf qq 300)
    pure (
      pos 0,
      record {
        train = record { len = pos 300; ctl_code = operate_ok; buf = out };
        qq = qq;
        code = o.code;
      },
    )

  -- The second half of a round: the component at `pre` is looked up, unless it is empty; then
  -- `pre` stays where it is. `next` is the loop from a directory on, with its `pre`.
  unfoldable pub look_up :
      (ℤ → ℕ → Action p.Db Walked) → Text → ℤ → ℕ → ℕ → List ℕ → Action p.Db Walked
  unfolding find_later_code string_at byte_at
  look_up next name code pre pcur text = λ d. Runs.◌>>=◌ (byte_at text pre) λ start.
      let found = Runs.◌>>=◌ (string_at pre text) λ sub.
        Runs.◌>>=◌ (find_later_code p code sub name d) λ r.
          if eqb_ℤ r.0 minus_one
          then ok (record { ret = minus_one; text = text }, r.1)
          else next r.0 pcur r.1 in
      if start == 0 then next code pre d else found

  -- The loop over an absolute path, of which `pre` and `pcur` are indices. A round moves `pcur` on, or
  -- ends the loop, so as many rounds as bytes are enough.
  unfoldable pub walk : ℕ → Text → ℤ → ℕ → ℕ → List ℕ → Action p.Db Walked
  unfolding byte_at scan look_up
  walk zero name code pre pcur text = λ d. waits
  walk (suc rounds) name code pre pcur text = λ d. Runs.◌>>=◌ (byte_at text pcur) λ first.
      let round = Runs.◌>>=◌ (scan (drop pcur text)) λ n.
        Runs.◌>>=◌ (byte_at text (pcur + n)) λ stop.
          let at_end =
            look_up (λ c q. walk rounds name c q (pcur + n) text) name code pre (pcur + n) text d in
          let cut = set text (pcur + n) 0 in
          let at_slash =
            look_up (λ c q. walk rounds name c q (suc (pcur + n)) cut) name code pre
              (suc (pcur + n)) cut d in
          if stop == 0 then at_end else at_slash in
      if first == 0 then ok (record { ret = code; text = text }, d) else round

  abbrev pub up_query : ℤ → Text → Text
  up_query code name = codes "select procode from Directory where code=" ++ in_directory p code name

  -- cd "..": the parent of the directory; the root has none.
  unfoldable pub cd_up : Operation → Text → Action p.Db (ℤ × Operation)
  unfolding fetch cell atoi cd_reply
  cd_up o name = do
    found ← fetch p (up_query o.code name)
    elim found [
      | query_failed ↦ cd_reply o
      | no_row ↦ pure (minus_one, o)
      | row r ↦ do s ← lift (cell 0 r); cd_reply (record o { code = atoi s })
    ]

  -- cd to an absolute path: `buf1` is split in place.
  unfoldable pub cd_absolute : Operation → Text → Action p.Db (ℤ × Operation)
  unfolding walk cd_reply
  cd_absolute o name = do
    w ← walk (suc (length o.qq)) name (pos 0) 0 0 (drop 1 o.qq)
    let o' = record o { qq = take 1 o.qq ++ w.text }
    if eqb_ℤ w.ret minus_one then pure (minus_one, o') else cd_reply (record o' { code = w.ret })

  -- cd to a directory of the current one.
  unfoldable pub cd_into : Operation → Text → Text → Action p.Db (ℤ × Operation)
  unfolding find_later_code cd_reply
  cd_into o name sub = do
    ret ← find_later_code p o.code sub name
    if eqb_ℤ ret minus_one then pure (minus_one, o) else cd_reply (record o { code = ret })

  unfoldable pub starts_with_slash : Text → Bool
  starts_with_slash [] = Bool.false
  starts_with_slash (c ∷ cs) = c == b'/'

  unfoldable pub cd_func : Operation → Text → Action p.Db (ℤ × Operation)
  unfolding is_string string_at cd_up cd_absolute cd_into starts_with_slash
  cd_func o name =
      if is_string o.qq (codes "..")
      then if eqb_ℤ o.code (pos 0) then pure (minus_one, o) else cd_up o name
      else do
        sub ← lift (string_at 0 o.qq)
        if starts_with_slash sub then cd_absolute o name else cd_into o name sub

  -- A reply with no payload.
  unfoldable pub plain : ℤ → Operation → Operation
  plain ctl o = record o { train = record o.train { len = pos 0; ctl_code = ctl } }

  abbrev pub same_name_query : ℤ → Text → Text → Text
  same_name_query code dir name =
      codes "select * from Directory where procode="
      ++ (format_int code
          ++ (codes " and " ++ (named p dir ++ (codes "and belongID='" ++ (name ++ codes "'")))))

  abbrev pub directory_insert : ℤ → Text → Text → Text
  directory_insert code dir name =
      codes "insert into Directory (procode,filename,belongID,filetype)values("
      ++ (format_int code ++ (codes ",'" ++ (dir ++ (codes "','" ++ (name ++ codes "','d')")))))

  unfoldable pub make_directory : Operation → Text → Action p.Db (ℤ × Operation)
  unfolding string_at fetch execute plain
  make_directory o name = do
    dir ← lift (string_at 0 o.qq)
    found ← fetch p (same_name_query o.code dir name)
    elim found [
      | query_failed ↦ pure (minus_one, plain operate_no o)
      | row r ↦ pure (minus_one, o)
      | no_row ↦ do
        _ ← execute p 300 (directory_insert o.code dir name)
        pure (pos 0, plain operate_ok o)
    ]

  unfoldable pub remove_entry : Operation → Text → Action p.Db (ℤ × Operation)
  unfolding string_at find_later_file delete_file plain
  remove_entry o name = do
    entry ← lift (string_at 0 o.qq)
    code ← find_later_file p o.code entry name
    if eqb_ℤ code minus_one then pure (minus_one, o) else do
      ret ← delete_file p code name
      if eqb_ℤ ret minus_one then pure (minus_one, o) else pure (pos 0, plain operate_ok o)

  unfoldable pub operate_func : Operation → Text → Action p.Db (ℤ × Operation)
  unfolding is_string make_directory cd_func remove_entry plain
  operate_func o name =
      if is_string (drop 100 o.qq) (codes "mkdir")
      then make_directory o name
      else if is_string (drop 100 o.qq) (codes "cd")
      then cd_func o name
      else if is_string (drop 100 o.qq) (codes "rm")
      then remove_entry o name
      else pure (minus_one, plain operate_no o)
