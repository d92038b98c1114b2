-- ===== src/Tests/UploadTests.antt =====
-- A small file arrives at an upload thread.
use cloudisk_server.Base.{List, [], ◌∷◌, ◌≡◌, refl, none, pos, ok, arith, true, ltb, length}
use cloudisk_server.Base.Bytes.{codes, int_bytes, format_int}
use cloudisk_server.Wire.{Recv, arrived}
use cloudisk_server.Wire.Codes.{upload_ok}
use cloudisk_server.Wire.Receive.{stream}
use cloudisk_server.Wire.Frame.{frame}
use cloudisk_server.Database.{rows}
use cloudisk_server.Database.Files.{FileInfo}
use cloudisk_server.Upload.{UpTask, Uploads, nth_task, no_task}
use cloudisk_server.Upload.Chunks.{
  parts, entry_query, take_messages, Finished, take_messages-Finished,
}
use cloudisk_server.Tests.{script, small_train}

abbrev notes : FileInfo
notes = record { filename = codes "notes"; filesize = pos 3; md5sum = codes "90015098" }

abbrev notes_task : UpTask
notes_task = record {
  fd = 12;
  state = 1;
  soketfd = 7;
  place = pos 0;
  name = codes "tom";
  code = pos 0;
  file = notes;
}

abbrev one_upload : Uploads script
one_upload = record {
  tasks = no_task ∷ notes_task ∷ [];
  front = 1;
  rear = 2;
  train = small_train;
  dqbuf = [];
  db = rows [] ∷ [];
  effects = [];
}

-- "ab", "c" and the end, in two segments, and a byte behind them.
abbrev arriving : List Recv
arriving =
    arrived (2 ∷ 0 ∷ 0 ∷ 0 ∷ 22 ∷ 0 ∷ 0 ∷ 0 ∷ b'a' ∷ [])
    ∷ arrived
        (b'b' ∷ 1 ∷ 0 ∷ 0 ∷ 0 ∷ 22 ∷ 0 ∷ 0 ∷ 0 ∷ b'c' ∷ 0 ∷ 0 ∷ 0 ∷ 0 ∷ 22 ∷ 0 ∷ 0 ∷ 0 ∷ 9 ∷ [])
    ∷ []

in_slot : nth_task one_upload.tasks 1 ≡ ok notes_task
unfolding nth_task
in_slot = refl

parts-arriving :
    stream arriving ≡ parts (codes "ab" ∷ codes "c" ∷ []) (frame (pos 0) upload_ok (9 ∷ []))
unfolding int_bytes
parts-arriving = refl

entry_fits : ltb (length (entry_query script notes_task)) 300 ≡ true
unfolding format_int
entry_fits = refl

take_messages-Finished_example :
    (rest : List Recv) × (v : Uploads script) × (take_messages script 3 1 none arriving one_upload
      ≡ ok (rest, v))
    × (stream rest ≡ 9 ∷ [])
    × Finished script 1 12
        (script.query (entry_query script notes_task) (rows [] ∷ [])).1
        (codes "abc")
        v
take_messages-Finished_example =
    take_messages-Finished script (codes "ab" ∷ codes "c" ∷ []) 1 notes_task none arriving (9 ∷ [])
      one_upload in_slot refl (omega arith, (omega arith, tt)) parts-arriving (omega arith)
      (omega arith, omega arith, (omega arith, omega arith, tt)) refl entry_fits
