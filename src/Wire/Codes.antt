-- ===== src/Wire/Codes.antt =====
-- MSG_code in include/ser_cli.h: each constant is one more than the one before.
use cloudisk_server.Base.{ℤ, pos}

abbrev pub login_pre : ℤ
login_pre = pos 1

abbrev pub login_no : ℤ
login_no = pos 2

abbrev pub login_pok : ℤ
login_pok = pos 3

abbrev pub login_q : ℤ
login_q = pos 4

abbrev pub login_ok : ℤ
login_ok = pos 5

abbrev pub register_pre : ℤ
register_pre = pos 6

abbrev pub register_no : ℤ
register_no = pos 7

abbrev pub register_pok : ℤ
register_pok = pos 8

abbrev pub register_q : ℤ
register_q = pos 9

abbrev pub register_ok : ℤ
register_ok = pos 10

abbrev pub token_plese : ℤ
token_plese = pos 11

abbrev pub operate_q : ℤ
operate_q = pos 12

abbrev pub operate_no : ℤ
operate_no = pos 13

abbrev pub operate_ok : ℤ
operate_ok = pos 14

abbrev pub ls_q : ℤ
ls_q = pos 15

abbrev pub ls_ok : ℤ
ls_ok = pos 16

abbrev pub download_pre : ℤ
download_pre = pos 17

abbrev pub download_pok : ℤ
download_pok = pos 18

abbrev pub download_q : ℤ
download_q = pos 19

abbrev pub upload_pre : ℤ
upload_pre = pos 20

abbrev pub upload_pok : ℤ
upload_pok = pos 21

abbrev pub upload_ok : ℤ
upload_ok = pos 22

abbrev pub upload_q : ℤ
upload_q = pos 23

abbrev pub down_more_pre : ℤ
down_more_pre = pos 24

abbrev pub down_more_pok : ℤ
down_more_pok = pos 25
