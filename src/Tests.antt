-- ===== src/Tests.antt =====
-- A scripted platform and small states, on which the theorems are tried out.
pub mod WireTests
pub mod DatabaseTests
pub mod ServerTests
pub mod AuthTests
pub mod UploadTests
pub mod DownloadTests
pub mod DriveTests
pub mod PointTests
pub mod UploadsTests
pub mod TokenTests
pub mod IndexTests
pub mod AccountTests
pub mod CloudTests
pub mod ClientTests
use cloudisk_server.Base.{ℕ, List, [], ◌∷◌, Option, none, some, true, ℤ, pos, negsuc, replicate}
use cloudisk_server.Base.Bytes.{codes}
use cloudisk_server.Wire.{Train}
use cloudisk_server.Database.{Text, Platform, Reply, failed, no_result, rows}
use cloudisk_server.Server.{Client, World}

-- A database that gives the listed replies, one for each statement, and then only errors.
abbrev pub next_reply : Text → List Reply → Reply × List Reply
next_reply text [] = (failed, [])
next_reply text (r ∷ rs) = (r, rs)

abbrev pub script : Platform
script = record {
  Db = List Reply;
  query = next_reply;
  connects = λ d. true;
  inet_addr = λ ip. 127 ∷ 0 ∷ 0 ∷ 1 ∷ [];
  climb_fuel = 5;
}

abbrev pub ann : Client
ann = record { state = 1; name = codes "ann"; code = pos 0; rotate = pos 2 }

abbrev pub bob : Client
bob = record { state = 2; name = codes "bob"; code = pos 7; rotate = pos 3 }

abbrev pub small_train : Train
small_train = record { len = pos 0; ctl_code = pos 15; buf = replicate 8 0 }

-- Two clients, ann connected and bob logged in.
abbrev pub two_clients : World script
two_clients = record {
  clients = ann ∷ bob ∷ [];
  socket_fd = 9;
  new_fd = 1;
  round = 2;
  client_sum = pos 2;
  down_thread = [];
  upload_thread = [];
  train = small_train;
  login_msg = [];
  qq_msg = [];
  file_info = [];
  db = [];
  effects = [];
}
