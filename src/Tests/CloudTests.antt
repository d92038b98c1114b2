-- ===== src/Tests/CloudTests.antt =====
-- Requests to the drive's server, over a database that answers nothing.
use cloudisk_server.Base.{
  ℕ, ◌+◌, ◌≡◌, ◌≢◌, refl, List, [], ◌∷◌, ◌++◌, true, false, none, some, arith, same_bytes,
}
use cloudisk_server.Base.Bytes.{codes}
use cloudisk_server.Drive.Protocol.{Message, header_value, find, find_byte}
use cloudisk_server.Drive.Sql.{Sqlite, done}
use cloudisk_server.Drive.Storage.{slash}
use cloudisk_server.Drive.Storage.Directories.{parent_path}
use cloudisk_server.Drive.Token.{JwtClaims, accepted, verify}
use cloudisk_server.Drive.Cloud.{Setup, Given, Context, Server, value_of, schedule_response}
use cloudisk_server.Drive.Cloud.Paths.{
  normalize_relative, normalize_parts, parts, names, skip_separators,
}
use cloudisk_server.Drive.Cloud.Requests.{handle_message}
use cloudisk_server.Drive.Cloud.History.{Cloud, Event, comes, works, serve_all}
use cloudisk_server.Drive.Cloud.Gate.{is_session, handle_message_refused}
use cloudisk_server.Drive.Cloud.Answered.{due, received, serve_all-due}
use cloudisk_server.Drive.Cloud.Queue.{
  Notify, in_wait, drained, schedule, read_counter, Step, schedules, IsReactor,
}
use cloudisk_server.Drive.Cloud.Wakeups.{
  here, next, IsKept, IsNoticed, Run-IsNoticed, late_response_lost,
}

climbs : normalize_relative (codes "./a/../b//c/.") ≡ codes "b/c"
unfolding normalize_relative normalize_parts parts names skip_separators slash parent_path
    same_bytes
climbs = refl

stays_below : normalize_relative (codes "../../x/") ≡ codes "x/"
unfolding normalize_relative normalize_parts parts names skip_separators slash parent_path
    same_bytes
stays_below = refl

at_root : normalize_relative (codes "/../../x") ≡ codes "/x"
unfolding normalize_relative normalize_parts parts names skip_separators slash parent_path
    same_bytes
at_root = refl

abbrev silent_db : Sqlite
silent_db = record {
  Db = ℕ;
  Row = ℕ;
  exec = λ ddl db. some db;
  prepares = λ st db. true;
  step = λ st vs db. (done, db);
  column_text = λ r i. [];
  column_int64 = λ r i. 0;
}

abbrev small_setup : Setup
small_setup = record {
  storage_root = codes "r";
  max_chunk_bytes = 4;
  jwt = record { issuer = codes "me"; secret = codes "key"; ttl_seconds = 60 };
  page = 4096;
  md5sum = λ bytes. bytes;
  hmac = λ secret bytes. bytes;
  crypt = λ p s. some p;
  weakly_canonical = λ p. p;
}

abbrev nothing_given : Given
nothing_given = record {
  now = 5;
  random = [];
  picks = [];
  directories = record {
    is_directory = λ p. false;
    entries = λ p. [];
    creates = λ p. none;
    relative = λ p q. p;
  };
  written = none;
  what = codes "error";
}

abbrev no_context : Context
no_context = record {
  username = [];
  token = [];
  cwd = codes ".";
  upload_active = false;
  upload_checkpoint = record {
    active = false;
    temp_path = [];
    meta_path = [];
    final_path = [];
    total = 0;
    received = 0;
  };
  upload_expected = 0;
  upload_md5 = [];
  upload_logical = [];
}

abbrev idle_server : Server silent_db
idle_server = record {
  ctx = no_context;
  db = 0;
  store = [];
  responses = [];
  notified = 0;
  tasks = [];
}

abbrev delete_with_bad_token : Message
delete_with_bad_token = record {
  headers =
      (codes "cmd", codes "FILE_DELETE")
      ∷ (codes "token", codes "abc")
      ∷ (codes "path", codes "f")
      ∷ [];
  body = [];
}

bad_token :
    (c : JwtClaims)
    → verify small_setup.hmac small_setup.jwt 5 (value_of delete_with_bad_token (codes "token"))
      ≢ accepted c
unfolding verify header_value find find_byte same_bytes
bad_token c e = cc e

handle_message_refused_example :
    (r : Message) × (handle_message silent_db small_setup nothing_given 7 delete_with_bad_token
        idle_server
      ≡ schedule_response 7 r idle_server)
handle_message_refused_example =
    handle_message_refused silent_db small_setup nothing_given 7 delete_with_bad_token idle_server
      not_session bad_token
  where
    not_session : is_session (value_of delete_with_bad_token (codes "cmd")) ≡ false
    not_session = unfold header_value find same_bytes in refl

abbrev small_history : List Event
small_history = comes 7 delete_with_bad_token nothing_given ∷ works [] ∷ []

abbrev idle_cloud : Cloud silent_db
idle_cloud = record { contexts = λ fd. no_context; server = idle_server }

serve_all-due_example :
    due 7 (serve_all silent_db small_setup small_history idle_cloud).server
    ≡ due 7 idle_cloud.server + received 7 small_history
serve_all-due_example = serve_all-due silent_db small_setup 7 small_history idle_cloud

abbrev nothing_queued : Notify
nothing_queued = record { queue = []; counter = 0; place = in_wait; outbound = [] }

abbrev one_answer : ℕ × Message
one_answer = (7, delete_with_bad_token)

Run-IsNoticed_example : IsNoticed (schedule one_answer nothing_queued)
Run-IsNoticed_example =
    Run-IsNoticed {n = nothing_queued} nothing_lost
      (next here (schedules nothing_queued one_answer) in_time)
  where
    nothing_lost : IsKept nothing_queued
    nothing_lost = (λ p. refl, λ l p. absurd (omega arith))

    in_time : in_wait ≢ drained
    in_time = λ p. absurd (ground arith)

abbrev just_drained : Notify
just_drained = record nothing_queued { counter = 1; place = drained }

late_response_lost_example :
    ((read_counter (schedule one_answer just_drained)).queue ≡ [] ++ one_answer ∷ [])
    × ((read_counter (schedule one_answer just_drained)).outbound ≡ [])
    × ((s' : Notify) (st : Step (read_counter (schedule one_answer just_drained)) s')
        → IsReactor st
        → ⊥)
late_response_lost_example = late_response_lost just_drained one_answer refl
