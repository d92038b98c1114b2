-- ===== src/Database/Salt.antt =====
-- get_salt in src/sql.c. The results of rand are a parameter: call i gives `rand i`.
pub mod Letters
use cloudisk_server.Base.{
  ℕ, zero, suc, ◌+◌, ◌-◌, ◌*◌, ◌%◌, ◌≤◌, ◌<◌, ◌≡◌, refl, ap, List, [], ◌∷◌, ◌++◌, ◌==◌,
  if◌then◌else◌, Outcome, ok, length, drop, take, arith, Bool-cases, inl, inr, true, false,
}
use cloudisk_server.Base.Runs.{◌>>=◌}
use cloudisk_server.Base.Bytes.{codes, write_at, string_at, c_string}

-- STR_LEN
abbrev pub str_len : ℕ
str_len = 10

-- The switch on `flag`, whose value is 0, 1 or 2.
unfoldable pub salt_byte : ℕ → ℕ → ℕ
salt_byte flag r =
    if flag == 0 then r % 26 + b'a' else if flag == 1 then r % 26 + b'A' else r % 10 + b'0'

-- The loop, with `left` rounds to go.
unfoldable pub salt_bytes : (ℕ → ℕ) → ℕ → ℕ → List ℕ
unfolding salt_byte
salt_bytes rand i zero = []
salt_bytes rand i (suc left) =
    salt_byte (rand (2 * i) % 3) (rand (2 * i + 1)) ∷ salt_bytes rand (i + 1) left

unfoldable pub get_salt : (ℕ → ℕ) → List ℕ → Outcome (List ℕ)
unfolding write_at salt_bytes
get_salt rand str = write_at (str_len + 1) (0 ∷ []) str >>= λ s1.
    write_at 0 (salt_bytes rand 0 str_len) s1 >>= λ s2. write_at 0 (b'$' ∷ b'5' ∷ b'$' ∷ []) s2
