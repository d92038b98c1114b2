-- ===== src/Tests/DatabaseTests.antt =====
-- Runs of src/sql.c and of math_task against the script.
use cloudisk_server.Base.{
  ℕ, List, [], ◌∷◌, ◌++◌, ◌≡◌, ◌↔◌, refl, some, pos, minus_one, ok, drop, take, length, arith, map,
  leb, if◌then◌else◌, ltb_ℤ,
}
use cloudisk_server.Base.Bytes.{codes, string_at}
use cloudisk_server.Balance.{Worker, math_task}
use cloudisk_server.Balance.Least.{FirstLeast, math_task-least}
use cloudisk_server.Database.{Reply, rows}
use cloudisk_server.Database.Users.{math_user}
use cloudisk_server.Database.Users.Checks.{PasswordStored, math_user_iff}
use cloudisk_server.Database.Salt.{get_salt}
use cloudisk_server.Database.Salt.Letters.{left_over, AllAlnum, get_salt-string}
use cloudisk_server.Database.Directories.{byte_at, walk}
use cloudisk_server.Database.Directories.Walk.{walk-double_slash}
use cloudisk_server.Database.Files.{get_mqbuf}
use cloudisk_server.Database.Files.Spots.{Spot, spot_row, address, get_mqbuf-first_three}
use cloudisk_server.Tests.{script}

abbrev stored_tom : List Reply
stored_tom = rows ((some (codes "t1") ∷ []) ∷ []) ∷ rows [] ∷ []

math_user_iff_example :
    (math_user script (codes "tom") (codes "t1") (codes "new") stored_tom ≡ ok (pos 0, []))
    ↔ PasswordStored script (codes "tom") (codes "t1") (codes "new") stored_tom []
math_user_iff_example =
    math_user_iff script (codes "tom") (codes "t1") (codes "new") stored_tom [] (omega arith)
      (omega arith)

abbrev busy : Worker
busy = record { fd = 5; busy_num = pos 30 }

abbrev idle : Worker
idle = record { fd = 6; busy_num = pos 4 }

math_task-least_example :
    (i : ℕ) × (v : Worker) × FirstLeast (busy ∷ idle ∷ []) i v
    × (math_task (busy ∷ idle ∷ []) (pos 30)
        ≡ (if ltb_ℤ v.busy_num (pos 30) then ok (pos i) else ok minus_one))
math_task-least_example = math_task-least busy (idle ∷ []) (pos 30)

abbrev ten : List ℕ
ten = codes "abcdefghij"

get_salt-string_example :
    (b : List ℕ) × (body : List ℕ) × (get_salt (λ i. i) (ten ++ (b'k' ∷ 0 ∷ [])) ≡ ok b)
    × (string_at 0 b ≡ ok (codes "$5$" ++ (body ++ left_over b'k')))
    × (length body ≡ 7)
    × AllAlnum body
    × (drop 12 b ≡ [])
get_salt-string_example = get_salt-string (λ i. i) ten b'k' 0 [] refl

abbrev home : Spot
home = record { ip = codes "127.0.0.1"; port = codes "2000" }

abbrev home_rows : List Reply
home_rows = rows (map spot_row (home ∷ home ∷ home ∷ home ∷ [])) ∷ []

get_mqbuf-first_three_example :
    get_mqbuf script (codes "0123") home_rows
    ≡ ok (
      (
        if leb 3 (length (home ∷ home ∷ home ∷ home ∷ [])) then pos 0 else minus_one,
        map (address script) (take 3 (home ∷ home ∷ home ∷ home ∷ [])),
      ),
      [],
    )
get_mqbuf-first_three_example =
    get_mqbuf-first_three script (codes "0123") home_rows [] (home ∷ home ∷ home ∷ home ∷ [])
      (omega arith) refl

-- The array behind "/home/" of "/home//etc".
abbrev behind_home : List ℕ
behind_home = codes "/etc" ++ (0 ∷ 7 ∷ [])

slash_first : byte_at behind_home 0 ≡ ok b'/'
unfolding byte_at
slash_first = refl

nul_behind : byte_at behind_home 4 ≡ ok 0
unfolding byte_at
nul_behind = refl

walk-double_slash_example :
    (left : List ℕ) × (walk script 6 (codes "tom") (pos 4) 0 0 behind_home stored_tom
      ≡ ok (record { ret = pos 4; text = left }, stored_tom))
walk-double_slash_example =
    walk-double_slash script (codes "tom") 6 (pos 4) 0 4 behind_home stored_tom slash_first
      nul_behind (omega arith) (omega arith)
