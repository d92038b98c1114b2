-- ===== src/Tests/ClientTests.antt =====
-- The drive's client with small servers.
use cloudisk_server.Base.{
  ℕ, zero, suc, ◌-◌, ◌≡◌, refl, List, [], ◌∷◌, ◌++◌, true, false, Option, none, some, if◌then◌else◌,
  leb, length, take, drop, replicate, min, same_bytes, arith,
}
use cloudisk_server.Base.Bytes.{codes, skip_spaces}
use cloudisk_server.Drive.Protocol.{
  Message, header_value, find, encode, wire_header, htonl, htons, serialize_headers,
}
use cloudisk_server.Drive.Protocol.Framing.{Fits}
use cloudisk_server.Drive.Client.Reading.{
  IsRead, AreFull, concat, read_message, read_message-encode,
}
use cloudisk_server.Drive.Client.Shell.{
  Local, Shell, AreOther, next_word, letters, run_shell, run_shell-silent,
}
use cloudisk_server.Drive.Storage.{content, bytes_of}
use cloudisk_server.Drive.Client.{
  Peer, ClientApp, chunk_bytes, mmap_threshold, returned, unfinished, answered, fetch_message, call,
  upload_from, download_loop, download_sized,
}
use cloudisk_server.Drive.Client.Uploading.{recording, IsSent, upload_from-IsSent}
use cloudisk_server.Drive.Client.Downloading.{Serves, download_sized-delivers}
use cloudisk_server.Drive.Client.Lost.{download_lost, download_loop-endless}

abbrev ann_app : ClientApp
ann_app = record { connected = true; token = codes "t"; remote_cwd = codes "." }

-- A server that always gives one answer, or none.
abbrev one_answer_peer : Option Message → Peer
one_answer_peer r = record { State = ℕ; answer = λ m s. (r, suc s) }

abbrev with_status : List ℕ → List ℕ → Message
with_status text body = record { headers = (codes "status", text) ∷ []; body = body }

abbrev ok_peer : Peer
ok_peer = one_answer_peer (some (with_status (codes "ok") (97 ∷ [])))

abbrev expired_peer : Peer
expired_peer = one_answer_peer (some (with_status (codes "token_invalid") []))

upload_from-IsSent_example :
    IsSent ok_peer ann_app 1
      (if leb mmap_threshold 3 then drop 1 (codes "abc") else codes "ab")
      []
      (upload_from
        (recording ok_peer)
        ann_app
        true
        (codes "abc")
        1
        (record { got = []; inner = 0 }))
upload_from-IsSent_example =
    upload_from-IsSent ok_peer ann_app true (codes "abc") 1 (record { got = []; inner = 0 })
      (omega arith) (λ h. refl)

one_byte_served : Serves ok_peer ann_app (codes "f") (codes "g") (97 ∷ [])
unfolding call answered header_value find same_bytes
one_byte_served zero s l =
    (with_status (codes "ok") (97 ∷ []), refl, refl, omega arith, omega arith, refl)
one_byte_served (suc o) s l = absurd (omega arith)

download_sized-delivers_example :
    ((download_sized ok_peer ann_app 2 (λ b. some (length b)) true (codes "f") (codes "g") 1 [] 0).0
      ≡ returned true)
    × (content
          (codes "g")
          (download_sized ok_peer ann_app 2
            (λ b. some (length b))
            true
            (codes "f")
            (codes "g")
            1
            []
            0).1
        ≡ some (97 ∷ []))
download_sized-delivers_example =
    download_sized-delivers ok_peer ann_app (codes "f") (codes "g") (97 ∷ []) []
      (λ b. some (length b)) [] 0 one_byte_served (λ b. refl) no_file refl
  where
    no_file : bytes_of (content (codes "g") []) ≡ []
    no_file = unfold content in refl

download_lost_example :
    let lost = one_answer_peer none in
    let first =
      download_sized lost ann_app 2 (λ b. some (length b)) true (codes "f") (codes "g") 2 [] 0 in
    let second =
      download_sized lost ann_app 2
        (λ b. some (length b))
        true
        (codes "f")
        (codes "g")
        2
        first.1
        7 in
    (first.0 ≡ returned false)
    × (second.0 ≡ returned true)
    × (content (codes "g") second.1 ≡ some (replicate 2 0))
download_lost_example =
    download_lost (one_answer_peer none) ann_app (codes "f") (codes "g") 1 (λ b. some (length b)) 2
      [] 0 7 no_file (omega arith) lost
  where
    no_file : content (codes "g") [] ≡ none
    no_file = unfold content in refl

    lost :
        (call (one_answer_peer none) ann_app (fetch_message (codes "f") 0 (min chunk_bytes 2)) 0).0
        ≡ none
    lost = unfold call in refl

download_loop-endless_example :
    (download_loop expired_peer ann_app 9 (λ b. some (length b)) (codes "f") (codes "g") 2 1 [] 0).0
    ≡ unfinished
download_loop-endless_example =
    download_loop-endless expired_peer ann_app (codes "f") (codes "g") 9 (λ b. some (length b)) 2 1
      [] 0 (omega arith) refl expired
  where
    expired :
        (o s : ℕ)
        → (m : Message) × ((call expired_peer ann_app
              (fetch_message (codes "f") o (min chunk_bytes (2 - o)))
              s).0
            ≡ some m)
          × (m.body ≡ [])
          × (answered (codes "done") (some m) ≡ false)
    expired o s =
        unfold call answered header_value find same_bytes in
        (with_status (codes "token_invalid") [], refl, refl, refl)

-- The answer in two parts, and the beginning of the next one behind it.
abbrev small_answer : Message
small_answer = record { headers = []; body = 97 ∷ [] }

small_answer-Fits : Fits small_answer
unfolding serialize_headers
small_answer-Fits = record {
  clean = tt;
  distinct = tt;
  header_room = omega arith;
  body_room = omega arith;
}

abbrev in_parts : List (List ℕ)
in_parts = take 5 (encode small_answer) ∷ (drop 5 (encode small_answer) ++ 67 ∷ []) ∷ []

read_message-encode_example : IsRead small_answer (67 ∷ []) (read_message in_parts [] 0)
read_message-encode_example =
    read_message-encode small_answer (67 ∷ []) small_answer-Fits in_parts [] 0 (omega arith) full
      whole
  where
    full : AreFull in_parts
    full =
        unfold encode wire_header htonl htons serialize_headers in (omega arith, (omega arith, tt))

    whole : concat in_parts ≡ encode small_answer ++ 67 ∷ []
    whole = unfold encode wire_header htonl htons serialize_headers in refl

abbrev no_transfers : Local
no_transfers = record {
  md5sum = λ b. b;
  maps = false;
  opens = false;
  writes = λ b. none;
  rounds = 0;
}

abbrev new_shell : Shell ok_peer no_transfers
new_shell = record {
  app = record { connected = true; token = []; remote_cwd = codes "." };
  files = [];
  state = 0;
}

run_shell-silent_example :
    ((run_shell ok_peer no_transfers (codes "delete f" ∷ []) new_shell).1.state ≡ 0)
    × ((run_shell ok_peer no_transfers (codes "delete f" ∷ []) new_shell).1.files ≡ [])
run_shell-silent_example =
    run_shell-silent ok_peer no_transfers (codes "delete f" ∷ []) new_shell refl other
  where
    other : AreOther ok_peer no_transfers (codes "delete f" ∷ [])
    other = unfold next_word letters skip_spaces same_bytes in ((refl, refl), tt)
