-- ===== src/Server/Slots/Cases.antt =====
-- Every case of main's switch keeps the accounts.
use cloudisk_server.Base.{ℕ, ℤ, List}
use cloudisk_server.Database.{Platform}
use cloudisk_server.Wire.{Recv}
use cloudisk_server.Server.Steps.{Takes, Takes-if, Takes-pure, Ends-then}
use cloudisk_server.Server.Sessions.{
  login_pre_case, login_q_case, register_pre_case, register_q_case, token_case,
}
use cloudisk_server.Server.Requests.{
  requested_file, ls_case, operate_case, download_pre_case, down_more_case, upload_pre_case,
  download_q_case, upload_q_case,
}
use cloudisk_server.Server.Loop.{dispatch, quit_case, serve}
use cloudisk_server.Server.Slots.Steps.{Serving, Accounted, serving_rules, done-Accounted}

module _ (p : Platform) (fd : ℕ) where
  login_pre-Serving : (rand : ℕ → ℕ) → Takes (Serving fd) (Serving fd) (login_pre_case p fd rand)
  unfolding login_pre_case
  login_pre-Serving rand = search serving_rules depth 30

  login_q-Serving : Takes (Serving fd) (Serving fd) (login_q_case p fd)
  unfolding login_q_case
  login_q-Serving = search serving_rules depth 30

  register_pre-Serving : Takes (Serving fd) (Serving fd) (register_pre_case p fd)
  unfolding register_pre_case
  register_pre-Serving = search serving_rules depth 30

  register_q-Serving : Takes (Serving fd) (Serving fd) (register_q_case p fd)
  unfolding register_q_case
  register_q-Serving = search serving_rules depth 30

  token-Serving : Takes (Serving fd) (Serving fd) (token_case p fd)
  unfolding token_case
  token-Serving = search serving_rules depth 30

  ls-Serving : Takes (Serving fd) (Serving fd) (ls_case p fd)
  unfolding ls_case
  ls-Serving = search serving_rules depth 30

  operate-Serving : Takes (Serving fd) (Serving fd) (operate_case p fd)
  unfolding operate_case
  operate-Serving = search serving_rules depth 30

  requested-Serving : Takes (Serving fd) (Serving fd) (requested_file {p = p} fd)
  unfolding requested_file
  requested-Serving = search serving_rules depth 30

  download_pre-Serving : Takes (Serving fd) (Serving fd) (download_pre_case p fd)
  unfolding download_pre_case
  download_pre-Serving = search (serving_rules, requested-Serving) depth 30

  down_more-Serving : Takes (Serving fd) (Serving fd) (down_more_case p fd)
  unfolding down_more_case
  down_more-Serving = search (serving_rules, requested-Serving) depth 30

  upload_pre-Serving : Takes (Serving fd) (Serving fd) (upload_pre_case p fd)
  unfolding upload_pre_case
  upload_pre-Serving = search serving_rules depth 30

  download_q-Accounted : Takes (Serving fd) Accounted (download_q_case p fd)
  unfolding download_q_case
  download_q-Accounted = search (serving_rules, done-Accounted, upload_pre-Serving) depth 30

  upload_q-Accounted : Takes (Serving fd) Accounted (upload_q_case p fd)
  unfolding upload_q_case
  upload_q-Accounted = search (serving_rules, done-Accounted) depth 30

  quit-Accounted : Takes (Serving fd) Accounted (quit_case p fd)
  unfolding quit_case
  quit-Accounted = search (serving_rules, Ends-then) depth 30

  dispatch-Accounted :
      (rand : ℕ → ℕ) (ctl : ℤ) → Takes (Serving fd) Accounted (dispatch p fd rand ctl)
  unfolding dispatch
  dispatch-Accounted rand ctl =
      search
        (
          Takes-if,
          download_q-Accounted,
          upload_q-Accounted,
          done-Accounted fd _ _ (login_pre-Serving rand),
          done-Accounted fd _ _ login_q-Serving,
          done-Accounted fd _ _ register_pre-Serving,
          done-Accounted fd _ _ register_q-Serving,
          done-Accounted fd _ _ token-Serving,
          done-Accounted fd _ _ ls-Serving,
          done-Accounted fd _ _ operate-Serving,
          done-Accounted fd _ _ download_pre-Serving,
          done-Accounted fd _ _ down_more-Serving,
          done-Accounted fd _ _ upload_pre-Serving,
          done-Accounted fd _ _ (Takes-pure tt),
        )
        depth 40

  pub serve-Accounted :
      (es : List Recv) (rand : ℕ → ℕ) → Takes (Serving fd) Accounted (serve p fd es rand)
  unfolding serve
  serve-Accounted es rand = search (serving_rules, quit-Accounted, dispatch-Accounted) depth 30
