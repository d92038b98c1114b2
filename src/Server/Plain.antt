-- ===== src/Server/Plain.antt =====
-- Steps that leave alone the wheel, the count and the table of clients: whatever holds of these
-- three holds on.
use cloudisk_server.Base.{
  ℕ, ◌≡◌, refl, ◌++◌, List, Option, none, some, ℤ, Outcome, ok, exits, undefined, waits, Ensures,
}
use cloudisk_server.Base.Action.{Action}
use cloudisk_server.Base.Runs
use cloudisk_server.Base.Bytes.{string_at, memcpy}
use cloudisk_server.Wire.{Train, Recv, one_recv}
use cloudisk_server.Database.{Platform}
use cloudisk_server.Database.Salt.{get_salt}
use cloudisk_server.Server.Steps.{Exec, Takes, keeps_rules}
use cloudisk_server.Server.{
  World, Client, Effect, nth_client, size, client_at, on_db, emit, set_train, answer, reply,
  load_login, login_name, login_passward, login_token, message_text, newest_name,
}
use cloudisk_server.Server.Sessions.{salt_train, keep_buf, answer_text}
use cloudisk_server.Server.Requests.{
  answer_info, add_download, add_upload, load_query, load_info, answer_spots, store_file, info_size,
  mqbuf_size, join_bytes,
}
use cloudisk_server.Server.Loop.{receive}

-- `Q` holds of the wheel's place, of client_sum and of the table.
pub record On {p : Platform} (Q : ℕ → ℤ → List Client → Type 0) (w : World p) : Type 0 where
  pub holds : Q w.round w.client_sum w.clients

module _ {p : Platform} where
  -- A run that reads something first, and may stop there.
  pub reads :
      (P : World p → Type 0) {A B : Type 0} (m : Outcome A) (f : A → Outcome (B × World p))
      → ((a : A) → m ≡ ok a → Ensures (λ r. P r.1) (f a))
      → Ensures (λ r. P r.1) (Runs.◌>>=◌ m f)
  reads P (ok a) f k = k a refl
  reads P exits f k = tt
  reads P undefined f k = tt
  reads P waits f k = tt

module _ {p : Platform} {Q : ℕ → ℤ → List Client → Type 0} where
  pub client_at-On : (i : ℕ) → Takes (On {p = p} Q) (On {p = p} Q) (client_at i)
  unfolding client_at
  client_at-On i = record {
    at = λ w h. reads (On {p = p} Q) (nth_client w.clients i) _ (λ c _. record { holds = h.holds });
  }

  pub on_db-On : {A : Type 0} (m : Action p.Db A) → Takes (On {p = p} Q) (On {p = p} Q) (on_db m)
  unfolding on_db
  on_db-On m = record {
    at = λ w h. reads (On {p = p} Q) (m w.db) _ (λ r _. record { holds = h.holds });
  }

  pub emit-On : (e : Effect) → Takes (On {p = p} Q) (On {p = p} Q) (emit e)
  unfolding emit
  emit-On e = record { at = λ w h. record { holds = h.holds } }

  pub set_train-On : (t : Train) → Takes (On {p = p} Q) (On {p = p} Q) (set_train t)
  unfolding set_train
  set_train-On t = record { at = λ w h. record { holds = h.holds } }

  pub answer-On : (ctl : ℤ) → Takes (On {p = p} Q) (On {p = p} Q) (answer ctl)
  unfolding answer
  answer-On ctl = record { at = λ w h. record { holds = h.holds } }

  pub reply-On : (i : ℕ) → Takes (On {p = p} Q) (On {p = p} Q) (reply i)
  unfolding reply
  reply-On i = record {
    at = λ w h. reads (On {p = p} Q) (size w.train.len) _ (λ n _. record { holds = h.holds });
  }

  pub load_login-On : Takes (On {p = p} Q) (On {p = p} Q) load_login
  unfolding load_login
  load_login-On = record {
    at = λ w h. reads (On {p = p} Q) (size w.train.len) _ (λ n _.
        reads (On {p = p} Q) (memcpy w.login_msg w.train.buf n) _
          (λ b _. record { holds = h.holds }));
  }

  pub login_name-On : Takes (On {p = p} Q) (On {p = p} Q) login_name
  unfolding login_name
  login_name-On = record {
    at =
        λ w h. reads (On {p = p} Q) (string_at 0 w.login_msg) _ (λ s _. record { holds = h.holds });
  }

  pub login_passward-On : Takes (On {p = p} Q) (On {p = p} Q) login_passward
  unfolding login_passward
  login_passward-On = record {
    at = λ w h.
        reads (On {p = p} Q) (string_at 30 w.login_msg) _ (λ s _. record { holds = h.holds });
  }

  pub login_token-On : Takes (On {p = p} Q) (On {p = p} Q) login_token
  unfolding login_token
  login_token-On = record {
    at = λ w h.
        reads (On {p = p} Q) (string_at 130 w.login_msg) _ (λ s _. record { holds = h.holds });
  }

  pub message_text-On : Takes (On {p = p} Q) (On {p = p} Q) message_text
  unfolding message_text
  message_text-On = record {
    at =
        λ w h. reads (On {p = p} Q) (string_at 0 w.train.buf) _ (λ s _. record { holds = h.holds });
  }

  pub newest_name-On : Takes (On {p = p} Q) (On {p = p} Q) newest_name
  unfolding newest_name
  newest_name-On = record {
    at = λ w h.
        reads (On {p = p} Q) (nth_client w.clients w.new_fd) _ (λ c _. record { holds = h.holds });
  }

  pub salt_train-On : (rand : ℕ → ℕ) → Takes (On {p = p} Q) (On {p = p} Q) (salt_train rand)
  unfolding salt_train
  salt_train-On rand = record {
    at = λ w h.
        reads (On {p = p} Q) (get_salt rand w.train.buf) _
          λ b _. reads (On {p = p} Q) (string_at 0 b) _ λ s _. record { holds = h.holds };
  }

  pub keep_buf-On : (b : Option (List ℕ)) → Takes (On {p = p} Q) (On {p = p} Q) (keep_buf b)
  unfolding keep_buf
  keep_buf-On none = record { at = λ w h. record { holds = h.holds } }
  keep_buf-On (some b) = record { at = λ w h. record { holds = h.holds } }

  pub answer_text-On : (ctl : ℤ) → Takes (On {p = p} Q) (On {p = p} Q) (answer_text ctl)
  unfolding answer_text
  answer_text-On ctl = record {
    at =
        λ w h. reads (On {p = p} Q) (string_at 0 w.train.buf) _ (λ s _. record { holds = h.holds });
  }

  pub answer_info-On : (ctl : ℤ) → Takes (On {p = p} Q) (On {p = p} Q) (answer_info ctl)
  unfolding answer_info
  answer_info-On ctl = record {
    at = λ w h.
        reads (On {p = p} Q) (memcpy w.train.buf w.file_info info_size) _
          (λ b _. record { holds = h.holds });
  }

  pub answer_spots-On :
      (spots : List (List ℕ)) → Takes (On {p = p} Q) (On {p = p} Q) (answer_spots spots)
  unfolding answer_spots
  answer_spots-On spots = record {
    at = λ w h.
        reads (On {p = p} Q) (memcpy w.train.buf (join_bytes spots ++ w.file_info) mqbuf_size) _
          (λ b _. record { holds = h.holds });
  }

  pub add_download-On : (i : ℕ) → Takes (On {p = p} Q) (On {p = p} Q) (add_download i)
  unfolding add_download
  add_download-On i = record { at = λ w h. record { holds = h.holds } }

  pub add_upload-On : (i : ℕ) → Takes (On {p = p} Q) (On {p = p} Q) (add_upload i)
  unfolding add_upload
  add_upload-On i = record { at = λ w h. record { holds = h.holds } }

  pub load_query-On : Takes (On {p = p} Q) (On {p = p} Q) load_query
  unfolding load_query
  load_query-On = record {
    at = λ w h. reads (On {p = p} Q) (size w.train.len) _ (λ n _.
        reads (On {p = p} Q) (memcpy w.qq_msg w.train.buf n) _ (λ b _. record { holds = h.holds }));
  }

  pub load_info-On : Takes (On {p = p} Q) (On {p = p} Q) load_info
  unfolding load_info
  load_info-On = record {
    at = λ w h. reads (On {p = p} Q) (size w.train.len) _ (λ n _.
        reads (On {p = p} Q) (memcpy w.file_info w.train.buf n) _
          (λ b _. record { holds = h.holds }));
  }

  pub store_file-On :
      {A : Type 0} (a : A) (b : List ℕ) → Takes (On {p = p} Q) (On {p = p} Q) (store_file a b)
  unfolding store_file
  store_file-On a b = record { at = λ w h. record { holds = h.holds } }

  pub receive-On : (es : List Recv) → Takes (On {p = p} Q) (On {p = p} Q) (receive p es)
  unfolding receive
  receive-On es = record {
    at = λ w h. reads (On {p = p} Q) (one_recv w.train es) _ (λ a _. record { holds = h.holds });
  }

pub ruleset plain_rules = (
  keeps_rules, client_at-On, on_db-On, emit-On, set_train-On, answer-On, reply-On, load_login-On,
  login_name-On, login_passward-On, login_token-On, message_text-On, newest_name-On, salt_train-On,
  keep_buf-On, answer_text-On, answer_info-On, answer_spots-On, add_download-On, add_upload-On,
  load_query-On, load_info-On, store_file-On, receive-On,
)
