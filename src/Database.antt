-- ===== src/Database.antt =====
-- The parts of src/sql.c: the queries that it sends to MySQL, and what it makes of the answers.
-- MySQL itself, its tables included, is a parameter.
pub mod Users
pub mod Salt
pub mod Files
pub mod Directories
use cloudisk_server.Base.{
  ℕ, List, [], ◌∷◌, ◌++◌, Option, none, some, Bool, ℤ, Outcome, ok, exits, undefined, get_elem?,
  if◌then◌else◌,
}
use cloudisk_server.Base.Action.{Action, ◌>>=◌, ◌>>◌, pure, lift, exit}
use cloudisk_server.Base.Bytes.{fits}

abbrev pub Text : Type 0
Text = List ℕ

-- A row of a result; `none` is an SQL NULL, a null pointer in MYSQL_ROW.
abbrev pub Row : Type 0
Row = List (Option Text)

-- What mysql_query and then mysql_use_result and mysql_fetch_row give: an error, no result set, or
-- the rows. A statement with no result of its own answers `rows []`, which is not looked at.
pub data Reply : Type 0 where
  failed no_result : Reply
  rows : List Row → Reply

-- The server's surroundings: the database behind mysql_query, which a statement's text may change,
-- whether a new connection is made, inet_addr, and the rounds that a walk to the root may take.
pub record Platform : Type 1 where
  pub Db : Type 0
  pub query : Text → Db → Reply × Db
  pub connects : Db → Bool
  pub inet_addr : Text → List ℕ
  pub climb_fuel : ℕ

pub data Fetched : Type 0 where
  query_failed no_row : Fetched
  row : Row → Fetched

unfoldable pub first_row : List Row → Fetched
first_row [] = no_row
first_row (r ∷ rs) = row r

-- A NULL in a cell is a null pointer, which the code follows unasked.
unfoldable pub cell : ℕ → Row → Outcome Text
cell i r = elim (get_elem? r i) [
  | none ↦ undefined
  | some c ↦ elim c [ none ↦ undefined | some t ↦ ok t ]
]

unfoldable pub is_empty : Text → Bool
is_empty [] = Bool.true
is_empty (c ∷ cs) = Bool.false

module _ (p : Platform) where
  -- mysql_query(conn, query), with the text in a buffer of `n` bytes.
  unfoldable pub send_query : ℕ → Text → Action p.Db Reply
  unfolding fits
  send_query n text = do q ← lift (fits n text); (λ d. ok (p.query q d))

  -- A statement whose result is not looked at, but for a message.
  unfoldable pub execute : ℕ → Text → Action p.Db (Unit {0})
  unfolding send_query
  execute n text = do _ ← send_query n text; pure tt

  -- The block that most functions share: query, mysql_use_result, exit where that is NULL, and the
  -- first row.
  unfoldable pub fetch : Text → Action p.Db Fetched
  unfolding send_query first_row
  fetch text = do
    reply ← send_query 300 text
    elim reply [ failed ↦ pure query_failed | no_result ↦ exit | rows rs ↦ pure (first_row rs) ]
