-- ===== src/Tests/AccountTests.antt =====
-- The drive's accounts over a list of rows, with a registration and a login.
use cloudisk_server.Base.{
  ℕ, ◌≡◌, refl, ap, List, [], ◌∷◌, true, false, Option, none, some, ◌==◌, if◌then◌else◌, inl, inr,
  same_bytes, same_bytes→eq, arith, Bool-cases,
}
use cloudisk_server.Base.Bytes.{codes}
use cloudisk_server.Drive.Sql.{Sqlite, Stepped, row, done, failed, Value, text, c_text, c_text_idem}
use cloudisk_server.Drive.Accounts.{UserRecord, initialize_users, validate_user}
use cloudisk_server.Drive.Accounts.Book.{
  KeepsUsers, Picks, AccountCall, registers, logs_in, Account, accounts_after, book, verdict,
}
use cloudisk_server.Drive.Accounts.Registered.{validate_user-book}

abbrev named : List ℕ → List UserRecord → Stepped UserRecord
named n [] = done
named n (r ∷ rs) = if same_bytes r.username n then row r else named n rs

abbrev user_step : List Value → List UserRecord → Stepped UserRecord × List UserRecord
user_step (text n ∷ []) rs = (named n rs, rs)
user_step (text n ∷ text h ∷ text s ∷ []) rs =
    (done, record { username = n; password_hash = h; salt = s } ∷ rs)
user_step _ rs = (failed, rs)

abbrev user_db : Sqlite
user_db = record {
  Db = Option (List UserRecord);
  Row = UserRecord;
  exec = λ ddl db. some (some (elim db [ none ↦ [] | some rs ↦ rs ]));
  prepares = λ st db. elim db [ none ↦ false | some rs ↦ true ];
  step = λ st vs db. elim db [
    | none ↦ (failed, none)
    | some rs ↦ ((user_step vs rs).0, some (user_step vs rs).1)
  ];
  column_text = λ m i. if i == 0 then m.username else if i == 1 then m.password_hash else m.salt;
  column_int64 = λ m i. 0;
}

Picks-cons :
    (n : List ℕ) (r : UserRecord) (rs : List UserRecord) (x : Stepped UserRecord)
    → same_bytes r.username n ≡ false
    → Picks user_db n rs x
    → Picks user_db n (r ∷ rs) x
Picks-cons n r rs (row y) other (m, a, b, c, h, t) = (m, a, b, c, inr h, t)
Picks-cons n r rs done other k = λ m h. elim h [ inl e ↦ rw e other | inr h' ↦ k m h' ]
Picks-cons n r rs failed other k = k

named-Picks : (n : List ℕ) (rs : List UserRecord) → Picks user_db n rs (named n rs)
named-Picks n [] = λ m h. absurd h
named-Picks n (r ∷ rs) = elim (Bool-cases (same_bytes r.username n)) [
  | inl here ↦ rw (named, here) (r, refl, refl, refl, inl refl, same_bytes→eq _ n here)
  | inr further ↦ rw (named, further) (Picks-cons n r rs _ further (named-Picks n rs))
]

inner :
    (d x : Option (List UserRecord))
    → ◌≡◌ {A = Option (Option (List UserRecord))} (some x) (some d)
    → d ≡ x
inner d x e = ground arith

keeps_users : KeepsUsers user_db
keeps_users = record {
  users = λ db. db;
  created = λ db d e. inner d (some (elim db [ none ↦ [] | some rs ↦ rs ])) e;
  prepared = λ db rs e. rw e (refl, refl);
  selected = λ n db rs e. rw e (named-Picks n rs, refl);
  inserted = λ n h s db rs e free. rw e (refl, refl);
}

-- A hash that is the password.
abbrev plain_crypt : List ℕ → List ℕ → Option (List ℕ)
plain_crypt p s = some (c_text p)

plain_strings : (p s h : List ℕ) → plain_crypt p s ≡ some h → c_text h ≡ h
plain_strings p s h e =
    let k : c_text p ≡ h = ap (λ (o : Option (List ℕ)). elim o [ none ↦ [] | some t ↦ t ]) e in
    rw (← k) (c_text_idem p)

abbrev two_calls : List AccountCall
two_calls = registers [] (codes "ann") (codes "pw") ∷ logs_in (codes "ann") (codes "no") ∷ []

validate_user-book_example :
    ((validate_user plain_crypt user_db
        (codes "ann")
        (codes "pw")
        (accounts_after plain_crypt user_db two_calls (some []))).0
      ≡ verdict plain_crypt
          (book plain_crypt two_calls (λ _. none) (c_text (codes "ann")))
          (c_text (codes "pw")))
    × ((a : Account)
        → book plain_crypt two_calls (λ _. none) (c_text (codes "ann")) ≡ some a
        → a.password ≡ c_text (codes "pw")
        → (validate_user plain_crypt user_db
            (codes "ann")
            (codes "pw")
            (accounts_after plain_crypt user_db two_calls (some []))).0
          ≡ some true)
unfolding keeps_users
validate_user-book_example =
    validate_user-book plain_crypt user_db keeps_users plain_strings none (some []) two_calls refl
      opened (codes "ann") (codes "pw")
  where
    opened : initialize_users plain_crypt user_db none ≡ some (some [])
    opened = unfold initialize_users in refl
