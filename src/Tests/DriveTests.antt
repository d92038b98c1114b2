-- ===== src/Tests/DriveTests.antt =====
-- Two messages of the enterprise cloud drive in one buffer, and a few bytes in their text form.
use cloudisk_server.Base.{
  ◌<◌, ℕ, List, [], ◌∷◌, ◌++◌, ◌≡◌, refl, ok, arith, replicate, length, take, same_bytes,
}
use cloudisk_server.Base.Bytes.{codes}
use cloudisk_server.Drive.Protocol.{
  HeaderMap, Message, find, serialize_headers, encode, wire_header, htonl, htons, ntohl, try_decode,
  bad_magic, drain, thrown,
}
use cloudisk_server.Drive.Protocol.Headers.{Clean, Distinct}
use cloudisk_server.Drive.Protocol.Framing.{Fits, Taken, try_decode-encode}
use cloudisk_server.Drive.Protocol.Stream.{
  encode_all, AllTaken, AllSame, drain-encode_all, drain_garbage,
}
use cloudisk_server.Drive.Base64.{base64_encode, base64_decode, output}
use cloudisk_server.Drive.Base64.Groups.{rfc4648, base64_encode-rfc4648}
use cloudisk_server.Drive.Base64.RoundTrip.{base64_decode-base64_encode}

abbrev list_headers : HeaderMap
list_headers = (codes "cmd", codes "LIST") ∷ (codes "path", codes ".") ∷ []

list_headers-Clean : Clean list_headers
list_headers-Clean = (
  ((refl, (refl, (refl, tt))), (refl, (refl, (refl, tt))), (refl, (refl, (refl, (refl, tt))))),
  (((refl, (refl, (refl, (refl, tt)))), (refl, (refl, (refl, (refl, tt)))), (refl, tt)), tt),
)

list_headers-Distinct : Distinct [] list_headers
unfolding find same_bytes
list_headers-Distinct = (refl, (refl, tt))

abbrev list_message : Message
list_message = record { headers = list_headers; body = 1 ∷ 2 ∷ [] }

list_message-Fits : Fits list_message
unfolding serialize_headers
list_message-Fits = record {
  clean = list_headers-Clean;
  distinct = list_headers-Distinct;
  header_room = omega arith;
  body_room = omega arith;
}

try_decode-encode_example :
    Taken list_message (7 ∷ []) (try_decode (encode list_message ++ 7 ∷ []) 0)
try_decode-encode_example =
    try_decode-encode list_message (encode list_message ++ 7 ∷ []) (7 ∷ []) 0 list_message-Fits
      (omega arith) refl

short_part : 20 < length (encode list_message)
unfolding encode serialize_headers wire_header htonl htons
short_part = omega arith

abbrev two_and_part : List ℕ
two_and_part = encode_all (list_message ∷ list_message ∷ []) ++ take 20 (encode list_message)

drain-encode_all_example :
    AllTaken
      (list_message ∷ list_message ∷ [])
      (take 20 (encode list_message))
      (drain 5 two_and_part 0)
drain-encode_all_example =
    drain-encode_all (list_message ∷ list_message ∷ []) list_message 20 5 two_and_part 0
      (list_message-Fits, (list_message-Fits, tt)) list_message-Fits short_part (omega arith) refl
      (omega arith)

drain_garbage_example :
    (got : List Message) × (drain 5 (encode_all (list_message ∷ []) ++ replicate 12 0) 0
      ≡ ok (thrown got bad_magic))
    × AllSame (list_message ∷ []) got
unfolding ntohl
drain_garbage_example =
    drain_garbage (list_message ∷ []) (replicate 12 0) 5
      (encode_all (list_message ∷ []) ++ replicate 12 0) 0 (list_message-Fits, tt) (omega arith)
      refl (omega arith) refl (omega arith)

base64_encode-rfc4648_example : base64_encode (255 ∷ 0 ∷ []) ≡ rfc4648 (255 ∷ 0 ∷ [])
base64_encode-rfc4648_example =
    base64_encode-rfc4648 (255 ∷ 0 ∷ []) (omega arith, (omega arith, tt))

base64_decode-base64_encode_example :
    base64_decode (base64_encode (255 ∷ 0 ∷ [])) ≡ output (255 ∷ 0 ∷ [])
base64_decode-base64_encode_example =
    base64_decode-base64_encode (255 ∷ 0 ∷ []) (omega arith, (omega arith, tt))
