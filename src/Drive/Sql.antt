-- ===== src/Drive/Sql.antt =====
-- SQLite, which server/src/file_index.cpp and server/src/auth_service.cpp call: a parameter.
use cloudisk_server.Base.{
  ℕ, ◌≡◌, refl, ap, List, [], ◌∷◌, Bool, Bool-cases, inl, inr, Option, ◌==◌, if◌then◌else◌,
}

-- What sqlite3_bind_text and sqlite3_bind_int64 bind; an int64 is its bit pattern.
pub data Value : Type 0 where
  text : List ℕ → Value
  integer : ℕ → Value

-- What the first sqlite3_step of a statement comes to.
pub data Stepped (R : Type 0) : Type 0 where
  row : R → Stepped R
  done failed : Stepped R

-- `prepares` says whether sqlite3_prepare_v2 returns SQLITE_OK; sqlite3_exec gives none for an
-- error.
pub record Sqlite : Type 1 where
  pub Db : Type 0
  pub Row : Type 0
  pub exec : List ℕ → Db → Option Db
  pub prepares : List ℕ → Db → Bool
  pub step : List ℕ → List Value → Db → Stepped Row × Db
  pub column_text : Row → ℕ → List ℕ
  pub column_int64 : Row → ℕ → ℕ

-- What sqlite3_bind_text with the length -1 takes of a string: the bytes before a NUL.
unfoldable pub c_text : List ℕ → List ℕ
c_text [] = []
c_text (c ∷ cs) = let rest = c_text cs in if c == 0 then [] else c ∷ rest

pub c_text_idem : (s : List ℕ) → c_text (c_text s) ≡ c_text s
unfolding c_text
c_text_idem [] = refl
c_text_idem (c ∷ cs) = elim (Bool-cases (c == 0)) [
  | inl end ↦ rw (end, c_text) refl
  | inr more ↦ rw (c_text, more, c_text, more) (ap (◌∷◌ c) (c_text_idem cs))
]
