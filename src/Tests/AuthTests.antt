-- ===== src/Tests/AuthTests.antt =====
-- A log-in with a message of length 0: the credentials are those that an earlier message left.
use cloudisk_server.Base.{[], ◌∷◌, ◌++◌, ◌≡◌, refl, some, ok, value_or, replicate, same_bytes}
use cloudisk_server.Base.Bytes.{codes, fits, string_at, c_string, memcpy, write_at}
use cloudisk_server.Wire.Codes.{register_q}
use cloudisk_server.Database.{rows, fetch, send_query, execute, first_row, cell, is_empty}
use cloudisk_server.Database.Users.{math_user, olog}
use cloudisk_server.Server.{
  World, nth_client, on_db, answer, reply, size, load_login, login_name, login_passward,
  login_token, newest_name, set_name, update_client,
}
use cloudisk_server.Server.Steps
use cloudisk_server.Server.Sessions.{register_q_case}
use cloudisk_server.Server.Loop.{dispatch}
use cloudisk_server.Server.Auth.Admission.{Entitled}
use cloudisk_server.Server.Auth.Dispatch.{dispatch-Entitled}
use cloudisk_server.Tests.{script, two_clients, ann}

abbrev left_behind : World script
left_behind = record two_clients {
  login_msg =
      codes "ann"
      ++ (replicate 27 0 ++ (codes "pw" ++ (replicate 98 0 ++ (codes "t" ++ replicate 49 0))));
  db = rows ((some (codes "pw") ∷ []) ∷ []) ∷ rows [] ∷ rows [] ∷ [];
}

abbrev logged_in : World script
logged_in = (value_or (tt, left_behind) (dispatch script 0 (λ i. i) register_q left_behind)).1

login_run : dispatch script 0 (λ i. i) register_q left_behind ≡ ok (tt, logged_in)
unfolding dispatch register_q_case load_login login_name login_passward login_token size memcpy
    write_at string_at c_string on_db math_user fetch send_query execute first_row cell is_empty
    same_bytes fits answer set_name update_client nth_client newest_name olog reply Steps.◌>>=◌
    Steps.◌>>◌
login_run = refl

ann_in : nth_client logged_in.clients 0 ≡ ok (record ann { state = 2 })
unfolding dispatch register_q_case load_login login_name login_passward login_token size memcpy
    write_at string_at c_string on_db math_user fetch send_query execute first_row cell is_empty
    same_bytes fits answer set_name update_client nth_client newest_name olog reply Steps.◌>>=◌
    Steps.◌>>◌
ann_in = refl

dispatch-Entitled_example : Entitled left_behind 0 0 (record ann { state = 2 })
dispatch-Entitled_example =
    dispatch-Entitled script 0 (λ i. i) register_q left_behind logged_in 0
      (record ann { state = 2 }) refl login_run ann_in refl
