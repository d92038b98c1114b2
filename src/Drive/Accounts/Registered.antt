-- ===== src/Drive/Accounts/Registered.antt =====
-- After any registrations and logins the rows of server/src/auth_service.cpp stand for the book that
-- they mean.
use cloudisk_server.Base.{
  ℕ, ◌≡◌, refl, sym, ◌∙◌, ap, List, [], ◌∷◌, true, false, ◌||◌, Option, none, some, inl, inr,
  Bool-cases, Option-cases, if◌then◌else◌, length, ◌==◌, same_bytes, same_bytes→eq, same_bytes_refl,
  arith,
}
use cloudisk_server.Drive.Sql.{Sqlite, Stepped, row, done, failed, c_text, c_text_idem}
use cloudisk_server.Base.Bytes.{codes}
use cloudisk_server.Drive.Storage.{starts_with}
use cloudisk_server.Drive.Accounts.{
  UserRecord, generate_salt, hash_password, initialize_users, user_found, find_user, add_user,
  register_user, validate_user,
}
use cloudisk_server.Drive.Accounts.Book.{
  with_name, HasUser, HasUniqueNames, Picks, KeepsUsers, AccountCall, registers, logs_in, Account,
  Book, entered, booked, book, verdict, accounts_after,
}

module _ (crypt : List ℕ → List ℕ → Option (List ℕ)) (sql : Sqlite) (ku : KeepsUsers sql)
    (strings : (p s h : List ℕ) → crypt p s ≡ some h → c_text h ≡ h) where
  abbrev stored : List ℕ → Option Account → Option UserRecord
  stored n none = none
  stored n (some a) = some (record { username = n; password_hash = a.hash; salt = a.salt })

  -- The rows stand for the book.
  record Shows (db : sql.Db) (b : Book) : Type 0 where
    rows : List UserRecord
    kept : ku.users db ≡ some rows
    unique : HasUniqueNames rows
    agree : (n : List ℕ) → with_name n rows ≡ stored n (b n)
    hashed : (n : List ℕ) (a : Account) → b n ≡ some a → crypt a.password a.salt ≡ some a.hash
    salted :
        (n : List ℕ) (a : Account)
        → b n ≡ some a
        → (starts_with (codes "$6$") a.salt ≡ true) × (c_text a.salt ≡ a.salt)

  with_name-HasUser :
      (u : UserRecord) (rs : List UserRecord)
      → HasUniqueNames rs
      → HasUser u rs
      → with_name u.username rs ≡ some u
  with_name-HasUser u [] q h = absurd h
  with_name-HasUser u (r ∷ rs) q (inl e) = rw e (ground (arith, same_bytes_refl r.username))
  with_name-HasUser u (r ∷ rs) q (inr h) =
      ground (arith, same_bytes→eq r.username u.username, with_name-HasUser u rs q.1 h)

  HasUser-with_name :
      (n : List ℕ) {u : UserRecord} (rs : List UserRecord)
      → with_name n rs ≡ some u
      → HasUser u rs × (same_bytes u.username n ≡ true)
  HasUser-with_name n [] h = absurd (ground arith)
  HasUser-with_name n {u} (r ∷ rs) h = elim (Bool-cases (same_bytes r.username n)) [
    | inl here ↦ (inl (ground arith), ground arith)
    | inr further ↦ let k = HasUser-with_name n rs (ground arith) in (inr k.0, k.1)
  ]

  user_found-Picks :
      (n : List ℕ) (rs : List UserRecord) (r : Stepped sql.Row)
      → HasUniqueNames rs
      → Picks sql n rs r
      → user_found crypt sql r ≡ with_name n rs
  unfolding user_found
  user_found-Picks n rs (row r) q (u, a, b, c, h, e) =
      rw (a, b, c, ← e) (sym (with_name-HasUser u rs q h))
  user_found-Picks n rs done q h = elim (Option-cases (with_name n rs)) [
    | inl e ↦ sym e
    | inr (u, e) ↦ let k = HasUser-with_name n rs e in absurd (ground (arith, h u k.0))
  ]
  user_found-Picks n rs failed q h = absurd h

  find_user-Shows :
      (u : List ℕ) (db : sql.Db) (b : Book)
      → Shows db b
      → ((find_user crypt sql u db).0 ≡ stored (c_text u) (b (c_text u)))
        × Shows (find_user crypt sql u db).1 b
  unfolding find_user
  find_user-Shows u db b s =
      let k = ku.selected (c_text u) db s.rows s.kept in
      rw ((ku.prepared db s.rows s.kept).1, find_user)
        (
          user_found-Picks (c_text u) s.rows _ s.unique k.0 ∙ s.agree (c_text u),
          record {
            rows = s.rows;
            kept = k.1;
            unique = s.unique;
            agree = s.agree;
            hashed = s.hashed;
            salted = s.salted;
          },
        )

  starts_generate_salt :
      (picks : List ℕ)
      → (starts_with (codes "$6$") (generate_salt picks) ≡ true)
        × (starts_with (codes "$6$") (c_text (generate_salt picks)) ≡ true)
  unfolding generate_salt starts_with c_text
  starts_generate_salt picks = (refl, refl)

  hash_password_lem :
      (p s : List ℕ)
      → starts_with (codes "$6$") s ≡ true
      → hash_password crypt p s ≡ crypt (c_text p) (c_text s)
  unfolding hash_password
  hash_password_lem p s h = rw h refl

  stored_none : (n : List ℕ) (o : Option Account) → stored n o ≡ none → o ≡ none
  stored_none n none h = refl
  stored_none n (some a) h = absurd (ground arith)

  -- The INSERT under a free name.
  add_user-Shows :
      (u p salt h : List ℕ) (db : sql.Db) (b : Book)
      → starts_with (codes "$6$") (c_text salt) ≡ true
      → crypt (c_text p) (c_text salt) ≡ some h
      → b (c_text u) ≡ none
      → Shows db b
      → Shows
          (add_user crypt sql u h salt db).1
          (entered crypt (c_text salt) (c_text u) (c_text p) (some h) b)
  unfolding add_user
  add_user-Shows u p salt h db b start made free s =
      let none_yet : with_name (c_text u) s.rows ≡ none = s.agree (c_text u) ∙ rw free refl in
      let k = ku.inserted (c_text u) (c_text h) (c_text salt) db s.rows s.kept none_yet in
      rw ((ku.prepared db s.rows s.kept).0, add_user)
        (record {
          rows =
              record { username = c_text u; password_hash = c_text h; salt = c_text salt } ∷ s.rows;
          kept = k.1;
          unique = (none_yet, s.unique);
          agree = λ n. elim (Bool-cases (same_bytes (c_text u) n)) [
            | inl e ↦ rw (e, strings _ _ h made, same_bytes→eq _ n e) refl
            | inr e ↦ rw (e, s.agree n) refl
          ];
          hashed = λ n a e. ground (arith, made, s.hashed n a);
          salted = λ n a e. ground (arith, start, c_text_idem salt, s.salted n a);
        })

  -- What register_user does for a name and a password that are not empty.
  register_new-Shows :
      (picks u p : List ℕ) (db : sql.Db) (b : Book)
      → ((length u == 0) || (length p == 0)) ≡ false
      → Shows db b
      → Shows
          (register_user crypt sql picks u p db).1
          (booked crypt (c_text (generate_salt picks)) (c_text u) (c_text p) (b (c_text u)) b)
  unfolding register_user
  register_new-Shows picks u p db b given s =
      let k = find_user-Shows u db b s in
      let g = starts_generate_salt picks in
      let salt = generate_salt picks in
      let hash = hash_password_lem p salt g.0 in
      elim (Option-cases (b (c_text u))) [
        | inr (a, e) ↦ rw (register_user, given, k.0, e) k.1
        | inl e ↦ elim (Option-cases (crypt (c_text p) (c_text salt))) [
          | inl fails ↦ rw (register_user, given, k.0, e, hash, fails) k.1
          | inr (h, made) ↦
              rw (register_user, given, k.0, e, hash, made)
                (add_user-Shows u p salt h _ b g.1 made e k.1)
        ]
      ]

  register_user_missing :
      (picks u p : List ℕ) (db : sql.Db)
      → ((length u == 0) || (length p == 0)) ≡ true
      → (register_user crypt sql picks u p db).1 ≡ db
  unfolding register_user
  register_user_missing picks u p db missing = rw (register_user, missing) refl

  register_user-Shows :
      (picks u p : List ℕ) (db : sql.Db) (b : Book)
      → Shows db b
      → Shows (register_user crypt sql picks u p db).1 (
          if (length u == 0) || (length p == 0)
          then b
          else booked crypt (c_text (generate_salt picks)) (c_text u) (c_text p) (b (c_text u)) b)
  register_user-Shows picks u p db b s = elim (Bool-cases ((length u == 0) || (length p == 0))) [
    | inl missing ↦ rw (missing, register_user_missing picks u p db missing) s
    | inr given ↦ rw given (register_new-Shows picks u p db b given s)
  ]

  logged_in :
      (u p : List ℕ) (db : sql.Db) (b : Book)
      → Shows db b
      → ((validate_user crypt sql u p db).0 ≡ verdict crypt (b (c_text u)) (c_text p))
        × Shows (validate_user crypt sql u p db).1 b
  unfolding validate_user
  logged_in u p db b s =
      let k = find_user-Shows u db b s in
      elim (Option-cases (b (c_text u))) [
        | inl e ↦ rw (k.0, e, validate_user) (refl, k.1)
        | inr (a, e) ↦
            let t = s.salted _ a e in
            let hash : hash_password crypt p a.salt ≡ crypt (c_text p) a.salt =
              hash_password_lem p a.salt t.0 ∙ ap (crypt (c_text p)) t.1 in
            elim (Option-cases (crypt (c_text p) a.salt)) [
              | inl fails ↦ rw (k.0, e, validate_user, verdict, hash, fails) (refl, k.1)
              | inr (h, made) ↦ rw (k.0, e, validate_user, verdict, hash, made) (refl, k.1)
            ]
      ]

  accounts_after-Shows :
      (cs : List AccountCall) (db : sql.Db) (b : Book)
      → Shows db b
      → Shows (accounts_after crypt sql cs db) (book crypt cs b)
  unfolding accounts_after
  accounts_after-Shows [] db b s = s
  accounts_after-Shows (registers picks u p ∷ cs) db b s =
      accounts_after-Shows cs _ _ (register_user-Shows picks u p db b s)
  accounts_after-Shows (logs_in u p ∷ cs) db b s =
      accounts_after-Shows cs _ _ (logged_in u p db b s).1

  -- From the creation of the table on, whatever registrations and logins come: validate_user
  -- answers as the book that they mean says, and the password under which a name was registered
  -- is accepted.
  pub validate_user-book :
      (db d : sql.Db) (cs : List AccountCall)
      → ku.users db ≡ none
      → initialize_users crypt sql db ≡ some d
      → (u p : List ℕ)
      → let b = book crypt cs (λ _. none) in
        ((validate_user crypt sql u p (accounts_after crypt sql cs d)).0
          ≡ verdict crypt (b (c_text u)) (c_text p))
        × ((a : Account)
            → b (c_text u) ≡ some a
            → a.password ≡ c_text p
            → (validate_user crypt sql u p (accounts_after crypt sql cs d)).0 ≡ some true)
  unfolding initialize_users
  validate_user-book db d cs empty opened u p =
      let start : Shows d (λ _. none) = record {
        rows = [];
        kept = ku.created db d opened ∙ rw empty refl;
        unique = tt;
        agree = λ n. refl;
        hashed = λ n a e. absurd (ground arith);
        salted = λ n a e. absurd (ground arith);
      } in
      let s = accounts_after-Shows cs d _ start in
      let k = logged_in u p (accounts_after crypt sql cs d) _ s in
      (k.0, λ a e same. k.0 ∙ rw (e, ← same, verdict, s.hashed _ a e, same_bytes_refl a.hash) refl)
