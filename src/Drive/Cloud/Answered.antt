-- ===== src/Drive/Cloud/Answered.antt =====
-- How often a message is answered, in handle_fd_event of server/src/cloud_server.cpp.
use cloudisk_server.Base.{
  List, [], ◌∷◌, ◌++◌, ℕ, ◌+◌, ◌≡◌, refl, ◌∙◌, ap, Option, none, some, ◌==◌, if◌then◌else◌, length,
  Bool-cases, inl, inr, arith,
}
use cloudisk_server.Base.Bytes.{codes}
use cloudisk_server.Drive.Protocol.{Message}
use cloudisk_server.Drive.Sql.{Sqlite}
use cloudisk_server.Drive.Cloud.{
  Setup, Given, Task, Server, Handled, finished, threw, value_of, schedule_response,
}
use cloudisk_server.Drive.Cloud.Sessions.{
  authorized, register_request, login_request, token_auth_request, login_ok,
}
use cloudisk_server.Drive.Cloud.History.{Cloud, Event, comes, works, worker, serve, serve_all}
use cloudisk_server.Drive.Index.{FileMetadata}
use cloudisk_server.Drive.Storage.{FilePath}
use cloudisk_server.Drive.Uploads.{Status}
use cloudisk_server.Drive.Cloud.Folders.{
  pwd_request, change_request, enter_directory, mkdir_request, list_request, delete_request,
}
use cloudisk_server.Drive.Cloud.Transfers.{
  instant_upload, begin_upload, init_at, upload_init_request, chunk_answer, upload_chunk_request,
  commit_request, download_answer, download_init_at, download_init_request, fetch_answer,
  fetch_request, run_task,
}
use cloudisk_server.Drive.Cloud.Requests.{file_command, run_command, caught, handle_message}

-- The responses to a connection that are queued.
abbrev pub count : ℕ → List (ℕ × Message) → ℕ
count fd [] = 0
count fd (r ∷ rs) = (if r.0 == fd then 1 else 0) + count fd rs

abbrev pub count_tasks : ℕ → List Task → ℕ
count_tasks fd [] = 0
count_tasks fd (t ∷ ts) = (if t.fd == fd then 1 else 0) + count_tasks fd ts

count-append :
    (fd : ℕ) (xs ys : List (ℕ × Message)) → count fd (xs ++ ys) ≡ count fd xs + count fd ys
count-append fd [] ys = omega arith
count-append fd (x ∷ xs) ys = omega (arith, count-append fd xs ys)

count_tasks-append :
    (fd : ℕ) (xs ys : List Task) → count_tasks fd (xs ++ ys) ≡ count_tasks fd xs + count_tasks fd ys
count_tasks-append fd [] ys = omega arith
count_tasks-append fd (x ∷ xs) ys = omega (arith, count_tasks-append fd xs ys)

-- The messages of a connection in a history.
abbrev pub received : ℕ → List Event → ℕ
received fd [] = 0
received fd (comes from m g ∷ es) = (if from == fd then 1 else 0) + received fd es
received fd (works what ∷ es) = received fd es

module _ {sql : Sqlite} where
  -- The responses to a connection, and the commits of it that are still to be answered.
  abbrev pub due : ℕ → Server sql → ℕ
  due fd s = count fd s.responses + count_tasks fd s.tasks

  due_answer :
      (fd to : ℕ) (r : Message) (s : Server sql)
      → due to (schedule_response fd r s) ≡ due to s + (if fd == to then 1 else 0)
  unfolding schedule_response
  due_answer fd to r s = omega (arith, count-append to s.responses ((fd, r) ∷ []))

  -- An answer has come, or an exception that is still to be answered.
  abbrev Answers : ℕ → ℕ → ℕ → Handled sql → Type 0
  Answers fd to n (finished s) = due to s ≡ n + (if fd == to then 1 else 0)
  Answers fd to n (threw w s) = due to s ≡ n

module _ (sql : Sqlite) (e : Setup) (g : Given) (fd : ℕ) (m : Message) (to : ℕ) where
  register_request-Answers :
      (s : Server sql) → Answers fd to (due to s) (register_request sql e g fd m s)
  unfolding register_request
  register_request-Answers s = grind (arith, due_answer)

  login_request-Answers : (s : Server sql) → Answers fd to (due to s) (login_request sql e g fd m s)
  unfolding login_request login_ok
  login_request-Answers s = grind (arith, due_answer)

  token_auth_request-Answers :
      (s : Server sql) → Answers fd to (due to s) (token_auth_request sql e g fd m s)
  unfolding token_auth_request
  token_auth_request-Answers s = grind (arith, due_answer)

  pwd_request-Answers : (s : Server sql) → Answers fd to (due to s) (pwd_request sql e g fd m s)
  unfolding pwd_request
  pwd_request-Answers s = grind (arith, due_answer)

  change_request-Answers :
      (s : Server sql) → Answers fd to (due to s) (change_request sql e g fd m s)
  unfolding change_request enter_directory
  change_request-Answers s = grind (arith, due_answer)

  mkdir_request-Answers : (s : Server sql) → Answers fd to (due to s) (mkdir_request sql e g fd m s)
  unfolding mkdir_request
  mkdir_request-Answers s = grind (arith, due_answer)

  list_request-Answers : (s : Server sql) → Answers fd to (due to s) (list_request sql e g fd m s)
  unfolding list_request
  list_request-Answers s = grind (arith, due_answer)

  delete_request-Answers :
      (s : Server sql) → Answers fd to (due to s) (delete_request sql e g fd m s)
  unfolding delete_request
  delete_request-Answers s = grind (arith, due_answer)

  begin_upload-Answers :
      (logical : FilePath) (s : Server sql)
      → Answers fd to (due to s) (begin_upload sql e g fd m logical s)
  unfolding begin_upload
  begin_upload-Answers logical s = grind (arith, due_answer)

  instant_upload-Answers :
      (logical absolute : FilePath) (known : FileMetadata) (s : Server sql)
      → Answers fd to (due to s) (instant_upload sql e g fd m logical absolute known s)
  unfolding instant_upload
  instant_upload-Answers logical absolute known s = grind (arith, due_answer)

  init_at-Answers :
      (logical absolute : FilePath) (s : Server sql)
      → Answers fd to (due to s) (init_at sql e g fd m logical absolute s)
  unfolding init_at
  init_at-Answers logical absolute s = grind (arith, begin_upload-Answers, instant_upload-Answers)

  upload_init_request-Answers :
      (s : Server sql) → Answers fd to (due to s) (upload_init_request sql e g fd m s)
  unfolding upload_init_request
  upload_init_request-Answers s = grind (arith, due_answer, init_at-Answers)

  chunk_answer-Answers :
      (st : Status) (s : Server sql) → Answers fd to (due to s) (chunk_answer sql e g fd m st s)
  unfolding chunk_answer
  chunk_answer-Answers st s = grind (arith, due_answer)

  upload_chunk_request-Answers :
      (s : Server sql) → Answers fd to (due to s) (upload_chunk_request sql e g fd m s)
  unfolding upload_chunk_request
  upload_chunk_request-Answers s = chunk_answer-Answers _ _

  commit_request-Answers :
      (s : Server sql) → Answers fd to (due to s) (commit_request sql e g fd m s)
  unfolding commit_request
  commit_request-Answers s = grind (arith, due_answer, count_tasks-append)

  download_init_at-Answers :
      (logical absolute : FilePath) (s : Server sql)
      → Answers fd to (due to s) (download_init_at sql e g fd m logical absolute s)
  unfolding download_init_at download_answer
  download_init_at-Answers logical absolute s = grind (arith, due_answer)

  download_init_request-Answers :
      (s : Server sql) → Answers fd to (due to s) (download_init_request sql e g fd m s)
  unfolding download_init_request
  download_init_request-Answers s = grind (arith, due_answer, download_init_at-Answers)

  fetch_answer-Answers :
      (absolute : FilePath) (count offset : Option ℕ) (s : Server sql)
      → Answers fd to (due to s) (fetch_answer sql e g fd m absolute count offset s)
  unfolding fetch_answer
  fetch_answer-Answers absolute none offset s = refl
  fetch_answer-Answers absolute (some count) none s = refl
  fetch_answer-Answers absolute (some count) (some offset) s = grind (arith, due_answer)

  fetch_request-Answers : (s : Server sql) → Answers fd to (due to s) (fetch_request sql e g fd m s)
  unfolding fetch_request
  fetch_request-Answers s = grind (arith, due_answer, fetch_answer-Answers)

  authorized-Answers :
      (command : List ℕ) (rest : Server sql → Handled sql) (s : Server sql)
      → ((s' : Server sql) → Answers fd to (due to s') (rest s'))
      → Answers fd to (due to s) (authorized sql e g fd m command rest s)
  unfolding authorized
  authorized-Answers command rest s h = grind (arith, due_answer)

  file_command-Answers :
      (command : List ℕ) (s : Server sql)
      → Answers fd to (due to s) (file_command sql e g fd m command s)
  unfolding file_command
  file_command-Answers command s = grind (
    arith, due_answer, pwd_request-Answers, change_request-Answers, mkdir_request-Answers,
    list_request-Answers, delete_request-Answers, upload_init_request-Answers,
    upload_chunk_request-Answers, commit_request-Answers, download_init_request-Answers,
    fetch_request-Answers,
  )

  run_command-Answers :
      (command : List ℕ) (s : Server sql)
      → Answers fd to (due to s) (run_command sql e g fd m command s)
  unfolding run_command
  run_command-Answers command s = ground (
    arith,
    register_request-Answers s,
    login_request-Answers s,
    token_auth_request-Answers s,
    authorized-Answers command (file_command sql e g fd m command) s (file_command-Answers command),
  )

  caught-Answers :
      (command : List ℕ) (n : ℕ) (h : Handled sql)
      → Answers fd to n h
      → due to (caught sql e g fd m command h) ≡ n + (if fd == to then 1 else 0)
  unfolding caught
  caught-Answers command n (finished s) h = h
  caught-Answers command n (threw what s) h = grind (arith, due_answer)

  handle_message-due :
      (s : Server sql)
      → due to (handle_message sql e g fd m s) ≡ due to s + (if fd == to then 1 else 0)
  unfolding handle_message
  handle_message-due s = elim (Bool-cases (length (value_of m (codes "cmd")) == 0)) [
    | inl missing ↦ rw (handle_message, missing) (due_answer fd to _ s)
    | inr given ↦
        rw (handle_message, given)
          (caught-Answers (value_of m (codes "cmd")) (due to s) _ (run_command-Answers _ s))
  ]

module _ (sql : Sqlite) (e : Setup) where
  run_task-due :
      (what : List ℕ) (t : Task) (to : ℕ) (s : Server sql)
      → due to (run_task sql e what t s) ≡ due to s + (if t.fd == to then 1 else 0)
  unfolding run_task
  run_task-due what t to s = grind (arith, due_answer)

  worker-due :
      (what : List ℕ) (to : ℕ) (ts : List Task) (s : Server sql)
      → s.tasks ≡ ts
      → due to (worker sql e what ts s) ≡ due to s
  unfolding worker
  worker-due what to [] s h = refl
  worker-due what to (t ∷ ts) s h =
      omega (arith, run_task-due what t to (record s { tasks = ts }), ap (count_tasks to) h)

  -- After any history of messages and tasks the responses to a connection and its commits that are
  -- not yet run are as many as its messages: each message is answered once, at once or by the task of
  -- its commit.
  pub serve_all-due :
      (to : ℕ) (es : List Event) (c : Cloud sql)
      → due to (serve_all sql e es c).server ≡ due to c.server + received to es
  unfolding serve_all serve worker
  serve_all-due to [] c = omega arith
  serve_all-due to (comes fd m g ∷ es) c = omega (
    arith,
    handle_message-due sql e g fd m to (record c.server { ctx = c.contexts fd }),
    serve_all-due to es (serve sql e (comes fd m g) c),
  )
  serve_all-due to (works what ∷ es) c =
      serve_all-due to es _
      ∙ ap (λ (n : ℕ). n + received to es) (worker-due what to c.server.tasks c.server refl)
