-- ===== src/Tests/DownloadTests.antt =====
-- A small file leaves by a download thread.
use cloudisk_server.Base.{
  ℕ, List, [], ◌∷◌, ◌++◌, ◌≡◌, refl, some, pos, ok, arith, replicate, get_elem?, get_or, value_or,
}
use cloudisk_server.Base.Bytes.{codes, int_bytes, fits, string_at, int_of_bytes}
use cloudisk_server.Wire.{arrived, recv_cyl, recv_loop, overlay}
use cloudisk_server.Server.Requests.{read_info}
use cloudisk_server.Download.{
  CdInfo, no_info, SdInfo, no_client, Session, nth_info, add_request, enter_request, add_task,
  free_slot, send_round, slice_of, send_slots, send_slot, normal_slice, send_part, send_train,
}
use cloudisk_server.Download.Slots.{Counted, busy, no_client-Counted}
use cloudisk_server.Download.Thread.{
  Downloads, DownReady, handed_over, request, output, enter_client, take_requests, send_to,
  on_download, no_downloads, down_func,
}
use cloudisk_server.Download.Thread.Counts.{down_func-Counted}
use cloudisk_server.Download.Rounds.{slot_rounds, Delivered, slot_rounds-Delivered}

-- The bytes of DQ_buf for a file of three bytes, from its start.
abbrev wanted : List ℕ
wanted =
    int_bytes (pos 1)
    ++ int_bytes (pos 0)
    ++ replicate 36 0
    ++ (codes "notes" ++ replicate 27 0)
    ++ int_bytes (pos 3)
    ++ (codes "9001" ++ replicate 48 0)

abbrev events : List DownReady
events = handed_over 5 ∷ request 5 (some (9, codes "abc")) (arrived wanted ∷ []) ∷ output 5 [] ∷ []

abbrev one_download : Downloads
one_download = value_or no_downloads (down_func events no_downloads)

abbrev one_client : SdInfo
one_client = get_or one_download.clients 0 no_client

served : down_func events no_downloads ≡ ok one_download
unfolding down_func on_download enter_client take_requests add_request enter_request add_task
    free_slot send_to send_round slice_of send_slots send_slot normal_slice send_part send_train
    read_info fits string_at int_of_bytes int_bytes recv_cyl recv_loop overlay
served = refl

in_front : get_elem? one_download.clients 0 ≡ some one_client
unfolding down_func on_download enter_client take_requests add_request enter_request add_task
    free_slot send_to send_round slice_of send_slots send_slot normal_slice send_part send_train
    read_info fits string_at int_of_bytes int_bytes recv_cyl recv_loop overlay
in_front = refl

down_func-Counted_example : Counted one_client
down_func-Counted_example =
    down_func-Counted events one_download 0 one_client (tt, (omega arith, (tt, tt))) served in_front

abbrev half_sent : CdInfo
half_sent = record {
  cfd = pos 1;
  state = 1;
  place = pos 1;
  file = record { filename = codes "notes"; filesize = pos 3; md5sum = codes "9001" };
  sfd = 9;
  content = codes "abc";
  offset = 1;
}

abbrev one_file : SdInfo
one_file = record { download_fd = 5; task_num = pos 1; cdinfo = half_sent ∷ replicate 9 no_info }

one_file-Counted : Counted one_file
one_file-Counted = record {
  ten = refl;
  slots = (busy (omega arith) (omega arith), no_client-Counted.slots.1);
  counted = refl;
}

half_sent-nth : nth_info one_file.cdinfo 0 ≡ ok half_sent
unfolding nth_info
half_sent-nth = refl

abbrev one_session : Session
one_session = record { client = one_file; effects = []; sendings = [] }

slot_rounds-Delivered_example :
    (r : Session) × (slot_rounds 3 1 0 one_session ≡ ok r)
    × Delivered 1 0 5 (pos 1) (codes "bc") [] r
slot_rounds-Delivered_example =
    slot_rounds-Delivered 3 1 0 1 half_sent one_session (omega arith) (omega arith) half_sent-nth
      refl (record { state = refl; place = refl; offset = refl; whole = refl }) (omega arith)
