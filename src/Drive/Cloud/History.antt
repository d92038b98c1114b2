-- ===== src/Drive/Cloud/History.antt =====
-- The server over a history: the messages of its connections, and the tasks that its workers run
-- (worker_loop of server/src/task_executor.cpp).
use cloudisk_server.Base.{ℕ, ◌==◌, List, [], ◌∷◌, if◌then◌else◌}
use cloudisk_server.Drive.Protocol.{Message}
use cloudisk_server.Drive.Sql.{Sqlite}
use cloudisk_server.Drive.Cloud.{Setup, Given, Context, Task, Server}
use cloudisk_server.Drive.Cloud.Requests.{handle_message}
use cloudisk_server.Drive.Cloud.Transfers.{run_task}

-- The contexts of the connections by their descriptors, and what the connections share.
pub record Cloud (sql : Sqlite) : Type 0 where
  pub contexts : ℕ → Context
  pub server : Server sql

-- A message of a connection, or a worker that is ready for a task.
pub data Event : Type 0 where
  comes : ℕ → Message → Given → Event
  works : List ℕ → Event

module _ (sql : Sqlite) (e : Setup) where
  -- worker_loop takes the first task; with none it waits.
  unfoldable pub worker : List ℕ → List Task → Server sql → Server sql
  worker what [] s = s
  worker what (t ∷ ts) s = run_task sql e what t (record s { tasks = ts })

  unfoldable pub serve : Event → Cloud sql → Cloud sql
  serve (comes fd m g) c =
      let s = handle_message sql e g fd m (record c.server { ctx = c.contexts fd }) in
      record { contexts = λ i. if i == fd then s.ctx else c.contexts i; server = s }
  serve (works what) c = record c { server = worker what c.server.tasks c.server }

  unfoldable pub serve_all : List Event → Cloud sql → Cloud sql
  serve_all [] c = c
  serve_all (event ∷ es) c = serve_all es (serve event c)
