-- ===== src/Drive/Protocol.antt =====
-- The messages of the enterprise cloud drive, common/include/protocol.hpp: their headers, and
-- encode and try_decode.
pub mod Headers
pub mod Framing
pub mod Stream
use cloudisk_server.Base.{
  ℕ, zero, suc, ◌+◌, ◌-◌, ◌*◌, ◌/◌, ◌%◌, ◌^◌, List, [], ◌∷◌, ◌++◌, Bool, true, false, Option, none,
  some, ltb, leb, ◌==◌, if◌then◌else◌, Outcome, ok, undefined, in_range, length, drop, take,
  same_bytes,
}
use cloudisk_server.Base.Runs

-- HeaderMap: the entries in the order in which the map is walked. A new key comes last here; the
-- source leaves its place open.
abbrev pub HeaderMap : Type 0
HeaderMap = List (List ℕ × List ℕ)

pub record Message : Type 0 where
  pub headers : HeaderMap
  pub body : List ℕ

-- unordered_map::find
unfoldable pub find : List ℕ → HeaderMap → Option (List ℕ)
find key [] = none
find key (e ∷ es) = let rest = find key es in if same_bytes e.0 key then some e.1 else rest

-- unordered_map::emplace: a key that is there keeps its value.
unfoldable pub emplace : List ℕ → List ℕ → HeaderMap → HeaderMap
emplace key value h = elim (find key h) [ none ↦ h ++ (key, value) ∷ [] | some v ↦ h ]

-- The loop of make_message over the listed headers.
unfoldable pub emplace_all : List (List ℕ × List ℕ) → HeaderMap → HeaderMap
emplace_all [] h = h
emplace_all (e ∷ es) h = emplace_all es (emplace e.0 e.1 h)

unfoldable pub make_message : List (List ℕ × List ℕ) → List ℕ → Message
make_message headers body = record { headers = emplace_all headers []; body = body }

unfoldable pub header_value : Message → List ℕ → List ℕ → List ℕ
header_value msg key fallback = elim (find key msg.headers) [ none ↦ fallback | some v ↦ v ]

unfoldable pub serialize_headers : HeaderMap → List ℕ
serialize_headers [] = []
serialize_headers (e ∷ es) = (e.0 ++ b'=' ∷ e.1 ++ b'\n' ∷ []) ++ serialize_headers es

-- string_view::find of a byte, counted from where the search starts.
unfoldable pub find_byte : ℕ → List ℕ → Option ℕ
find_byte c [] = none
find_byte c (x ∷ xs) =
    let later : Option ℕ = elim (find_byte c xs) [ none ↦ none | some i ↦ some (suc i) ] in
    if x == c then some 0 else later

-- A line of `line_end` bytes at the start of `text`.
unfoldable pub parse_line : List ℕ → ℕ → HeaderMap → HeaderMap
parse_line text line_end headers = elim (find_byte b'=' text) [
  | none ↦ headers
  | some sep ↦
      if ltb sep line_end
      then emplace (take sep text) (take (line_end - sep - 1) (drop (sep + 1) text)) headers
      else headers
]

-- The loop of parse_headers, where `text` is what is left from `start` on. Each round passes a byte
-- at least, so as many rounds as bytes are enough.
unfoldable pub parse_lines : ℕ → List ℕ → HeaderMap → HeaderMap
parse_lines zero text headers = headers
parse_lines (suc rounds) [] headers = headers
parse_lines (suc rounds) (c ∷ cs) headers = elim (find_byte b'\n' (c ∷ cs)) [
  | none ↦ parse_line (c ∷ cs) (length (c ∷ cs)) headers
  | some zero ↦ headers
  | some (suc e) ↦
      parse_lines rounds (drop (suc e + 1) (c ∷ cs)) (parse_line (c ∷ cs) (suc e) headers)
]

unfoldable pub parse_headers : List ℕ → HeaderMap
parse_headers text = parse_lines (length text) text []

-- Numbers in network order.
unfoldable pub htonl : ℕ → List ℕ
htonl w = w / 16777216 % 256 ∷ w / 65536 % 256 ∷ w / 256 % 256 ∷ w % 256 ∷ []

unfoldable pub htons : ℕ → List ℕ
htons w = w / 256 % 256 ∷ w % 256 ∷ []

unfoldable pub ntohl : List ℕ → ℕ
ntohl (a ∷ b ∷ c ∷ d ∷ rest) = a * 16777216 + b * 65536 + c * 256 + d
ntohl _ = 0

unfoldable pub ntohs : List ℕ → ℕ
ntohs (a ∷ b ∷ rest) = a * 256 + b
ntohs _ = 0

abbrev pub magic : ℕ
magic = 1162036306

abbrev pub version : ℕ
version = 1

-- sizeof(WireHeader)
abbrev pub wire_size : ℕ
wire_size = 12

unfoldable pub wire_header : ℕ → ℕ → List ℕ
wire_header header_size body_size =
    htonl magic ++ htons version ++ htons (header_size % 2 ^ 16) ++ htonl (body_size % 2 ^ 32)

unfoldable pub encode : Message → List ℕ
encode m =
    let blob = serialize_headers m.headers in
    wire_header (length blob) (length m.body) ++ blob ++ m.body

-- What try_decode comes to: an exception, false, or true with the buffer and the offset it leaves.
pub data Decoded : Type 0 where
  bad_magic bad_version more_needed : Decoded
  decoded : List ℕ → ℕ → Message → Decoded

-- The end of try_decode: the bytes that are done with are dropped once they are more than half.
unfoldable pub compact : List ℕ → ℕ → Message → Decoded
compact buffer offset m =
    if ltb (length buffer / 2) offset
    then decoded (drop offset buffer) 0 m
    else decoded buffer offset m

-- A whole frame, where `text` is the buffer from the offset on.
unfoldable pub take_frame : List ℕ → ℕ → ℕ → ℕ → Decoded
take_frame buffer offset header_size body_size =
    let text = drop (offset + wire_size) buffer in
    compact buffer (offset + (wire_size + header_size + body_size)) (record {
      headers = parse_headers (take header_size text);
      body = take body_size (drop header_size text);
    })

-- try_decode. Beyond the buffer's end `available` wraps, and the header is read outside.
unfoldable pub try_decode : List ℕ → ℕ → Outcome Decoded
try_decode buffer offset =
    let available = length buffer - offset in
    let wire = drop offset buffer in
    let header_size = ntohs (drop 6 wire) in
    let body_size = ntohl (drop 8 wire) in
    in_range (leb offset (length buffer)) (
      if ltb available wire_size
      then more_needed
      else if ntohl wire == magic
      then if ntohs (drop 4 wire) == version
        then if ltb available (wire_size + header_size + body_size)
          then more_needed
          else take_frame buffer offset header_size body_size
        else bad_version
      else bad_magic)

-- The loop of the server over what has come in: the messages in order with the buffer and the
-- offset that stay, or the exception that ends it.
pub data Drained : Type 0 where
  waiting : List Message → List ℕ → ℕ → Drained
  thrown : List Message → Decoded → Drained

abbrev pub with_first : Message → Drained → Drained
with_first m (waiting ms buffer offset) = waiting (m ∷ ms) buffer offset
with_first m (thrown ms why) = thrown (m ∷ ms) why

-- A message takes the size of its header at least, so as many rounds as bytes are enough.
unfoldable pub drain : ℕ → List ℕ → ℕ → Outcome Drained
drain zero buffer offset = ok (waiting [] buffer offset)
drain (suc rounds) buffer offset = Runs.◌>>=◌ (try_decode buffer offset) λ r. elim r [
  | bad_magic ↦ ok (thrown [] bad_magic)
  | bad_version ↦ ok (thrown [] bad_version)
  | more_needed ↦ ok (waiting [] buffer offset)
  | decoded buffer' offset' m ↦ Runs.◌>>=◌ (drain rounds buffer' offset') λ d. ok (with_first m d)
]
