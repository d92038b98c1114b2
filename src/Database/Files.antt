-- ===== src/Database/Files.antt =====
-- Queries about files and directories in src/sql.c.
pub mod Spots
use cloudisk_server.Base.{
  ℕ, zero, suc, ◌+◌, ◌-◌, ◌/◌, ◌%◌, List, [], ◌∷◌, ◌++◌, ltb, ◌==◌, if◌then◌else◌, ℤ, pos,
  minus_one, Outcome, ok, length, replicate, eqb_ℤ,
}
use cloudisk_server.Base.Runs
use cloudisk_server.Base.Action.{Action, ◌>>=◌, ◌>>◌, pure, lift, exit, undefined_here}
use cloudisk_server.Base.Bytes.{codes, fits, format_int, atoi, pattern32}
use cloudisk_server.Database.{
  Text, Row, Platform, Reply, failed, no_result, rows, Fetched, query_failed, no_row, row, cell,
  send_query, execute, fetch,
}

-- File_info, with its two strings.
pub record FileInfo : Type 0 where
  pub filename : Text
  pub filesize : ℤ
  pub md5sum : Text

-- The code in the first column of the first row; -1 where there is none. Three functions end so.
unfoldable pub code_of : Fetched → Outcome ℤ
unfolding cell atoi
code_of query_failed = ok minus_one
code_of no_row = ok minus_one
code_of (row r) = Runs.◌>>=◌ (cell 0 r) (λ s. ok (atoi s))

-- %-10s and %10s.
unfoldable pub pad_right : ℕ → Text → Text
pad_right n s = s ++ replicate (n - length s) b' '

unfoldable pub pad_left : ℕ → Text → Text
pad_left n s = replicate (n - length s) b' ' ++ s

module _ (p : Platform) where
  abbrev pub in_directory : ℤ → Text → Text
  in_directory code name = format_int code ++ (codes " and belongID= '" ++ (name ++ codes "'"))

  abbrev pub named : Text → Text
  named filename = codes "filename ='" ++ (filename ++ codes "'")

  abbrev pub later_code_query : ℤ → Text → Text → Text
  later_code_query cur filename name =
      codes "select code from Directory where procode="
      ++ (in_directory cur name ++ (codes "and filetype = 'd' and " ++ named filename))

  -- find_later_code: the code of a directory in the directory `cur`, or -1.
  unfoldable pub find_later_code : ℤ → Text → Text → Action p.Db ℤ
  unfolding fetch code_of
  find_later_code cur filename name = do
    found ← fetch p (later_code_query cur filename name)
    lift (code_of found)

  abbrev pub later_file_query : ℤ → Text → Text → Text
  later_file_query cur filename name =
      codes "select code from Directory where procode="
      ++ (in_directory cur name ++ (codes "and " ++ named filename))

  -- find_later_file: the same for a file or a directory.
  unfoldable pub find_later_file : ℤ → Text → Text → Action p.Db ℤ
  unfolding fetch code_of
  find_later_file cur filename name = do
    found ← fetch p (later_file_query cur filename name)
    lift (code_of found)

  abbrev pub children_query : ℤ → Text → Text
  children_query code name =
      codes "select * from Directory where procode=" ++ in_directory code name

  abbrev pub delete_statement : ℤ → Text
  delete_statement code = codes "delete from Directory where code=" ++ format_int code

  -- delete_file: -1 where the entry has children, else the entry is deleted.
  unfoldable pub delete_file : ℤ → Text → Action p.Db ℤ
  unfolding fetch execute
  delete_file code name = do
    found ← fetch p (children_query code name)
    elim found [
      | row r ↦ pure minus_one
      | query_failed ↦ do _ ← execute p 300 (delete_statement code); pure (pos 0)
      | no_row ↦ do _ ← execute p 300 (delete_statement code); pure (pos 0)
    ]

  abbrev pub file_query : Text → ℤ → Text → Text → Text
  file_query columns code name filename =
      codes "select "
      ++ (columns
          ++ (codes " from Directory where procode="
              ++ (in_directory code name ++ (codes "and filetype = 'f' and " ++ named filename))))

  -- find_file_info: the size and the md5 of a file; strcpy puts the md5 into 50 bytes.
  unfoldable pub find_file_info : FileInfo → Text → ℤ → Action p.Db (ℤ × FileInfo)
  unfolding fetch cell fits atoi
  find_file_info info name code = do
    found ← fetch p (file_query (codes "filesize, md5sum") code name info.filename)
    elim found [
      | query_failed ↦ pure (minus_one, info)
      | no_row ↦ pure (minus_one, info)
      | row r ↦ do
        size ← lift (cell 0 r)
        md5 ← lift (cell 1 r)
        md5' ← lift (fits 50 md5)
        pure (pos 0, record info { filesize = atoi size; md5sum = md5' })
    ]

  abbrev pub md5_query : Text → Text
  md5_query md5 = codes "select filesize from Directory where md5sum='" ++ (md5 ++ codes "'")

  abbrev pub file_values : ℤ → Text → FileInfo → Text
  file_values code name info =
      codes "("
      ++ (format_int code
          ++ (codes ",'"
              ++ (info.filename
                  ++ (codes "','"
                      ++ (name
                          ++ (codes "','f','"
                              ++ (info.md5sum
                                  ++ (codes "'," ++ (format_int info.filesize ++ codes ")")))))))))

  -- The second half of math_uoload, once the name is free: 1 where some file has the same md5, and
  -- then the entry is inserted at once, else 0.
  unfoldable pub share_upload : FileInfo → Text → ℤ → Action p.Db ℤ
  unfolding fetch execute
  share_upload info name code = do
    same ← fetch p (md5_query info.md5sum)
    elim same [
      | query_failed ↦ pure (pos 0)
      | no_row ↦ pure (pos 0)
      | row r ↦ do
        _ ← execute p 300 (
            codes "insert into Directory (procode,filename,belongID,filetype,md5sum,filesize)values"
            ++ file_values code name info)
        pure (pos 1)
    ]

  -- math_uoload: -1 where the directory has a file of the name.
  unfoldable pub math_uoload : FileInfo → Text → ℤ → Action p.Db ℤ
  unfolding fetch share_upload
  math_uoload info name code = do
    found ← fetch p (file_query (codes "filesize") code name info.filename)
    elim found [
      | query_failed ↦ pure minus_one
      | row r ↦ pure minus_one
      | no_row ↦ share_upload info name code
    ]

  -- add_file, called by an upload thread on a connection of its own.
  unfoldable pub add_file : ℤ → Text → FileInfo → Action p.Db (Unit {0})
  unfolding execute
  add_file code name info = λ d.
      if p.connects d
      then execute p 300
          (codes "insert into Directory(procode,filename,belongID,filetype,md5sum,filesize) values"
            ++ file_values code name info)
          d
      else exit d

  abbrev pub list_query : Text → ℤ → Text
  list_query name code =
      codes "select filetype ,filename ,filesize from Directory where belongID='"
      ++ (name ++ (codes "' and procode =" ++ format_int code))

  -- One line of a listing: "-%-10s%-20s %10s B\n".
  unfoldable pub list_line : Row → Outcome Text
  unfolding cell pad_left pad_right
  list_line r = Runs.◌>>=◌ (cell 0 r) λ kind. Runs.◌>>=◌ (cell 1 r) λ name.
      Runs.◌>>=◌ (cell 2 r) λ size. ok (
        codes "-"
        ++ (pad_right 10 kind
            ++ (pad_right 20 name ++ (codes " " ++ (pad_left 10 size ++ (codes " B" ++ 10 ∷ []))))))

  -- The loop of ls_func: each round appends a line to the text in a buffer of `n` bytes.
  unfoldable pub list_rows : ℕ → Text → List Row → Outcome Text
  unfolding list_line fits
  list_rows n acc [] = ok acc
  list_rows n acc (r ∷ rs) =
      Runs.◌>>=◌ (list_line r) λ line. Runs.◌>>=◌ (fits n (acc ++ line)) λ acc'. list_rows n acc' rs

  -- ls_func: the listing of a directory, empty after a failed query.
  unfoldable pub ls_func : ℕ → Text → ℤ → Action p.Db Text
  unfolding send_query list_rows
  ls_func n name code = do
    reply ← send_query p 300 (list_query name code)
    elim reply [ failed ↦ pure [] | no_result ↦ pure [] | rows rs ↦ lift (list_rows n [] rs) ]

  -- sockaddr_in: the family, the port in network order, the address, and eight bytes left as they were
  -- (zero, since main clears the buffer).
  unfoldable pub sockaddr : Row → Outcome (List ℕ)
  unfolding cell atoi
  sockaddr r = Runs.◌>>=◌ (cell 1 r) λ port. Runs.◌>>=◌ (cell 0 r) λ ip.
      let w = pattern32 (atoi port) % 65536 in
      ok (2 ∷ 0 ∷ (w / 256) ∷ (w % 256) ∷ (p.inet_addr ip ++ replicate 8 0))

  -- The loop of get_mqbuf, with `left` of the SPOT_NUM places still free.
  unfoldable pub fill_spots : ℕ → List Row → Outcome (List (List ℕ))
  unfolding sockaddr
  fill_spots zero rs = ok []
  fill_spots (suc left) [] = ok []
  fill_spots (suc left) (r ∷ rs) =
      Runs.◌>>=◌ (sockaddr r) λ a. Runs.◌>>=◌ (fill_spots left rs) λ as'. ok (a ∷ as')

  abbrev pub spots_query : Text → Text
  spots_query md5 = codes "select ip, port from Server_info where md5sum='" ++ (md5 ++ codes "'")

  abbrev pub spot_num : ℕ
  spot_num = 3

  -- get_mqbuf: the first three servers that hold a file; 0 where there are three, else -1.
  unfoldable pub get_mqbuf : Text → Action p.Db (ℤ × List (List ℕ))
  unfolding send_query fill_spots
  get_mqbuf md5 = do
    reply ← send_query p 300 (spots_query md5)
    elim reply [
      | failed ↦ pure (minus_one, [])
      | no_result ↦ exit
      | rows rs ↦ do
        spots ← lift (fill_spots spot_num rs)
        pure (if length spots == spot_num then pos 0 else minus_one, spots)
    ]
