-- ===== src/Drive/Index/Refines.antt =====
-- After any calls the rows of server/src/file_index.cpp stand for the catalogue that the calls mean.
use cloudisk_server.Base.{
  ℕ, ◌≡◌, refl, sym, ◌∙◌, List, [], ◌∷◌, Bool, true, ◌&&◌, none, some, Option-cases, inl, inr,
  if◌then◌else◌, same_bytes, same_bytes→eq, same_bytes_refl, arith,
}
use cloudisk_server.Drive.Sql.{Sqlite, Stepped, row, done, failed, Value, c_text}
use cloudisk_server.Drive.Index.{
  FileMetadata, initialize_schema, metadata, found, query, find_by_path, find_by_md5, run, upsert,
  remove,
}
use cloudisk_server.Drive.Index.Rows.{
  has_key, with_key, upsert_row, delete_rows, Has, AreUnique, has_key→eq, with_key-upsert_row,
  with_key-delete_rows, AreUnique-upsert_row, AreUnique-delete_rows, with_key-Has, Has-with_key,
  has_key-with_key,
}
use cloudisk_server.Drive.Index.Catalogue.{
  Picks, KeepsFiles, IndexCall, upserts, removes, finds_path, finds_md5, calls_after, Catalogue,
  kept, catalogue, Answers,
}

module _ (sql : Sqlite) (kf : KeepsFiles sql) where
  -- The rows stand for the catalogue.
  record Shows (db : sql.Db) (c : Catalogue) : Type 0 where
    rows : List FileMetadata
    stored : kf.files db ≡ some rows
    unique : AreUnique rows
    agree : (o p : List ℕ) → with_key o p rows ≡ c o p

  run_lem :
      (st : List ℕ) (vs : List Value) (db : sql.Db)
      → sql.prepares st db ≡ true
      → run sql st vs db ≡ (sql.step st vs db).1
  unfolding run
  run_lem st vs db h = rw (h, run) refl

  query_lem :
      (st : List ℕ) (vs : List Value) (db : sql.Db)
      → sql.prepares st db ≡ true
      → query sql st vs db ≡ (found sql (sql.step st vs db).0, (sql.step st vs db).1)
  unfolding query
  query_lem st vs db h = rw (h, query) refl

  upsert-Shows :
      (m : FileMetadata) (db : sql.Db) (c : Catalogue)
      → Shows db c
      → Shows (upsert sql m db) (λ o p. if has_key o p (kept m) then some (kept m) else c o p)
  unfolding upsert
  upsert-Shows m db c s =
      rw (upsert, run_lem _ _ db (kf.prepared db s.rows s.stored).2)
        (record {
          rows = upsert_row (kept m) s.rows;
          stored = kf.inserted _ _ _ _ _ db s.rows s.stored;
          unique = AreUnique-upsert_row (kept m) s.rows s.unique;
          agree = λ o p. rw (with_key-upsert_row o p (kept m) s.rows, s.agree o p) refl;
        })

  remove-Shows :
      (o p : List ℕ) (db : sql.Db) (c : Catalogue)
      → Shows db c
      → Shows
          (remove sql o p db)
          (λ o' p'. if same_bytes (c_text o) o' && same_bytes (c_text p) p' then none else c o' p')
  unfolding remove
  remove-Shows o p db c s =
      rw (remove, run_lem _ _ db (kf.prepared db s.rows s.stored).3)
        (record {
          rows = delete_rows (c_text o) (c_text p) s.rows;
          stored = kf.deleted _ _ db s.rows s.stored;
          unique = AreUnique-delete_rows (c_text o) (c_text p) s.rows s.unique;
          agree = λ o' p'.
              rw (with_key-delete_rows o' p' (c_text o) (c_text p) s.rows, s.agree o' p') refl;
        })

  find_by_path-Shows :
      (o p : List ℕ) (db : sql.Db) (c : Catalogue)
      → Shows db c
      → Shows (find_by_path sql o p db).1 c
  unfolding find_by_path
  find_by_path-Shows o p db c s =
      rw (find_by_path, query_lem _ _ db (kf.prepared db s.rows s.stored).0)
        (record {
          rows = s.rows;
          stored = (kf.path_selected _ _ db s.rows s.stored).1;
          unique = s.unique;
          agree = s.agree;
        })

  find_by_md5-Shows :
      (h : List ℕ) (db : sql.Db) (c : Catalogue) → Shows db c → Shows (find_by_md5 sql h db).1 c
  unfolding find_by_md5
  find_by_md5-Shows h db c s =
      rw (find_by_md5, query_lem _ _ db (kf.prepared db s.rows s.stored).1)
        (record {
          rows = s.rows;
          stored = (kf.md5_selected _ db s.rows s.stored).1;
          unique = s.unique;
          agree = s.agree;
        })

  calls_after-Shows :
      (cs : List IndexCall) (db : sql.Db) (c : Catalogue)
      → Shows db c
      → Shows (calls_after sql cs db) (catalogue cs c)
  unfolding calls_after
  calls_after-Shows [] db c s = s
  calls_after-Shows (upserts m ∷ cs) db c s = calls_after-Shows cs _ _ (upsert-Shows m db c s)
  calls_after-Shows (removes o p ∷ cs) db c s = calls_after-Shows cs _ _ (remove-Shows o p db c s)
  calls_after-Shows (finds_path o p ∷ cs) db c s =
      calls_after-Shows cs _ c (find_by_path-Shows o p db c s)
  calls_after-Shows (finds_md5 h ∷ cs) db c s =
      calls_after-Shows cs _ c (find_by_md5-Shows h db c s)

  -- A row that is picked is the entry in its columns.
  metadata-Picks :
      (test : FileMetadata → Bool) (rs : List FileMetadata) (r : sql.Row)
      → Picks sql test rs (row r)
      → Has (metadata sql r) rs × (test (metadata sql r) ≡ true)
  unfolding metadata
  metadata-Picks test rs r (m, a, b, c, d, e, h, t) = rw (a, b, c, d, e) (h, t)

  found_path :
      (o p : List ℕ) (rs : List FileMetadata) (r : Stepped sql.Row)
      → AreUnique rs
      → Picks sql (has_key o p) rs r
      → found sql r ≡ with_key o p rs
  unfolding found
  found_path o p rs (row r) u h =
      let k = metadata-Picks (has_key o p) rs r h in
      ground (arith, k, has_key→eq o p (metadata sql r), with_key-Has (metadata sql r) rs u k.0)
  found_path o p rs done u h = elim (Option-cases (with_key o p rs)) [
    | inl e ↦ sym e
    | inr (m, e) ↦
        absurd (ground (arith, h m (Has-with_key o p rs e), has_key-with_key o p {m = m} rs e))
  ]
  found_path o p rs failed u h = absurd h

  found_md5 :
      (k : List ℕ) (c : Catalogue) (rs : List FileMetadata) (r : Stepped sql.Row)
      → AreUnique rs
      → ((o p : List ℕ) → with_key o p rs ≡ c o p)
      → Picks sql (λ m. same_bytes m.md5 k) rs r
      → Answers c k (found sql r)
  unfolding found
  found_md5 k c rs (row r) u agree h =
      let t = metadata-Picks (λ m. same_bytes m.md5 k) rs r h in
      (sym (agree _ _) ∙ with_key-Has (metadata sql r) rs u t.0, same_bytes→eq _ k t.1)
  found_md5 k c rs done u agree h = λ o p m e same.
      let t : same_bytes m.md5 k ≡ true = rw same (same_bytes_refl k) in
      absurd (ground (arith, t, h m (Has-with_key o p rs (agree o p ∙ e))))
  found_md5 k c rs failed u agree h = absurd h

  -- From the creation of the table on, whatever calls come: a search for a path gives the entry of
  -- the catalogue that the calls mean, and a search for an MD5 an entry of it that has this MD5,
  -- where there is one.
  pub calls_after-catalogue :
      (db d : sql.Db) (cs : List IndexCall)
      → kf.files db ≡ none
      → initialize_schema sql db ≡ some d
      → ((o p : List ℕ)
          → (find_by_path sql o p (calls_after sql cs d)).0
            ≡ catalogue cs (λ _ _. none) (c_text o) (c_text p))
        × ((h : List ℕ)
            → Answers
                (catalogue cs (λ _ _. none))
                (c_text h)
                (find_by_md5 sql h (calls_after sql cs d)).0)
  unfolding initialize_schema find_by_path find_by_md5
  calls_after-catalogue db d cs empty opened =
      let start : Shows d (λ _ _. none) = record {
        rows = [];
        stored = kf.created db d opened ∙ rw empty refl;
        unique = tt;
        agree = λ o p. refl;
      } in
      let s = calls_after-Shows cs d (λ _ _. none) start in
      let ready = kf.prepared (calls_after sql cs d) s.rows s.stored in
      (
        λ o p.
            rw (find_by_path, query_lem _ _ _ ready.0)
              (found_path (c_text o) (c_text p) s.rows _ s.unique
                  (kf.path_selected _ _ _ s.rows s.stored).0
                ∙ s.agree _ _),
        λ h.
            rw (find_by_md5, query_lem _ _ _ ready.1)
              (found_md5 (c_text h) _ s.rows _ s.unique s.agree
                (kf.md5_selected _ _ s.rows s.stored).0),
      )
