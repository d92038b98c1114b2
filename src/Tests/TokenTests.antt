-- ===== src/Tests/TokenTests.antt =====
-- A token that is accepted, with a signature of three bytes.
use cloudisk_server.Base.{ℕ, List, [], ◌∷◌, ◌++◌, ◌≡◌, refl, same_bytes}
use cloudisk_server.Base.Bytes.{codes, skip_spaces, read_digits}
use cloudisk_server.Drive.Protocol.{find_byte}
use cloudisk_server.Drive.Base64.{
  base64_encode, base64_decode, char64, emit, encode_loop, last_bits, pad, fill, decoding_table,
  decode_loop,
}
use cloudisk_server.Drive.Storage.{starts_with, stoull, signed_digits, unsigned_digits}
use cloudisk_server.Drive.Token.{
  JwtConfig, JwtClaims, accepted, verify, verify_parts, verify_payload, read_claims, signature,
  strip, base64url_from_standard, base64url_to_standard, base64url_decode, find_text,
  extract_json_string, extract_json_number, digit_prefix,
}
use cloudisk_server.Drive.Token.Signed.{IsSigned, verify-IsSigned}

abbrev three_bytes : List ℕ → List ℕ → List ℕ
three_bytes secret text = 251 ∷ 255 ∷ 1 ∷ []

abbrev settings : JwtConfig
settings = record { issuer = codes "me"; secret = codes "key"; ttl_seconds = 60 }

abbrev ann_claims : JwtClaims
ann_claims = record { subject = codes "ann"; expires_at = 9; issued_at = 0 }

abbrev ann_token : List ℕ
ann_token =
    codes "IkhTMjU2Ig" ++ b'.' ∷ (codes "eyJzdWIiOiJhbm4iLCJleHAiOjl9" ++ b'.' ∷ codes "-_8B")

ann_accepted : verify three_bytes settings 5 ann_token ≡ accepted ann_claims
unfolding verify verify_parts verify_payload read_claims signature strip base64url_from_standard
    base64url_to_standard base64url_decode find_text extract_json_string extract_json_number
    digit_prefix find_byte base64_encode base64_decode char64 emit encode_loop last_bits pad fill
    decoding_table decode_loop starts_with stoull signed_digits unsigned_digits skip_spaces
    read_digits same_bytes
ann_accepted = refl

verify-IsSigned_example : IsSigned three_bytes settings 5 ann_token ann_claims
verify-IsSigned_example = verify-IsSigned three_bytes settings 5 ann_token ann_claims ann_accepted
