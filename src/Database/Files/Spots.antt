-- ===== src/Database/Files/Spots.antt =====
-- What get_mqbuf makes of the table of servers.
use cloudisk_server.Base.{
  ℕ, zero, suc, ◌<◌, ◌≡◌, refl, List, [], ◌∷◌, ◌++◌, some, if◌then◌else◌, leb, ◌==◌, lt→ltb, pos,
  minus_one, ok, length, map, take, arith, ◌/◌, ◌%◌, replicate,
}
use cloudisk_server.Base.Bytes.{atoi, pattern32}
use cloudisk_server.Database.{Text, Row, Platform, rows}
use cloudisk_server.Database.Files.{get_mqbuf, fill_spots, spots_query}

-- A server that holds a file: its address and its port, both as text.
pub record Spot : Type 0 where
  pub ip : Text
  pub port : Text

abbrev pub spot_row : Spot → Row
spot_row s = some s.ip ∷ some s.port ∷ []

module _ (p : Platform) where
  -- The address of a server in network order: AF_INET, the two bytes of the port with the higher
  -- first, and what inet_addr gives.
  abbrev pub address : Spot → List ℕ
  address s =
      let w = pattern32 (atoi s.port) % 65536 in
      2 ∷ 0 ∷ w / 256 ∷ w % 256 ∷ (p.inet_addr s.ip ++ replicate 8 0)

  fill_spots-map :
      (n : ℕ) (ss : List Spot) → fill_spots p n (map spot_row ss) ≡ ok (map address (take n ss))
  unfolding fill_spots
  fill_spots-map zero ss = refl
  fill_spots-map (suc n) [] = refl
  fill_spots-map (suc n) (s ∷ ss) = rw (fill_spots-map n ss) refl

  filled :
      (ss : List Spot)
      → (if length (map address (take 3 ss)) == 3 then pos 0 else minus_one)
        ≡ (if leb 3 (length ss) then pos 0 else minus_one)
  filled [] = refl
  filled (a ∷ []) = refl
  filled (a ∷ b ∷ []) = refl
  filled (a ∷ b ∷ c ∷ ss) = ground arith

  -- If the query fits its buffer and the database answers with a row for each of some servers then
  -- get_mqbuf returns 0 where there are three servers at least, else -1, and gives the addresses of
  -- the first three, in the order of the rows.
  pub get_mqbuf-first_three :
      (md5 : Text) (d d' : p.Db) (ss : List Spot)
      → length (spots_query p md5) < 300
      → p.query (spots_query p md5) d ≡ (rows (map spot_row ss), d')
      → get_mqbuf p md5 d
        ≡ ok ((if leb 3 (length ss) then pos 0 else minus_one, map address (take 3 ss)), d')
  unfolding get_mqbuf
  get_mqbuf-first_three md5 d d' ss short e =
      rw (lt→ltb _ _ short, e, fill_spots-map 3 ss, filled ss) refl
