-- ===== src/Drive/Token.antt =====
-- The tokens of the enterprise cloud drive, server/src/jwt_service.cpp. HMAC-SHA256 is OpenSSL's,
-- and a parameter; so are the time and the random bytes.
pub mod Url
pub mod Signed
use cloudisk_server.Base.{
  ℕ, zero, suc, ◌+◌, ◌-◌, ◌%◌, ◌^◌, List, [], ◌∷◌, ◌++◌, map, Bool, true, false, ◌||◌, Option, none,
  some, ltb, ◌==◌, if◌then◌else◌, length, take, drop, same_bytes,
}
use cloudisk_server.Base.Bytes.{codes, is_digit, skip_spaces}
use cloudisk_server.Drive.Protocol.{find_byte}
use cloudisk_server.Drive.Base64.{
  base64_encode, base64_decode, pad, Decoding, bad_length, bad_character, output,
}
use cloudisk_server.Drive.Storage.{starts_with, stoull, decimal}

abbrev pub url_char : ℕ → ℕ
url_char c = if c == b'+' then b'-' else if c == b'/' then b'_' else c

abbrev pub standard_char : ℕ → ℕ
standard_char c = if c == b'-' then b'+' else if c == b'_' then b'/' else c

-- The loop that takes '=' off the end.
unfoldable pub strip : List ℕ → List ℕ
strip [] = []
strip (c ∷ cs) =
    let rest = strip cs in
    let kept = if length rest == 0 then [] else c ∷ rest in if c == b'=' then kept else c ∷ rest

unfoldable pub base64url_from_standard : List ℕ → List ℕ
base64url_from_standard value = strip (map url_char value)

-- The loop that appends '=' is the one of base64_encode.
unfoldable pub base64url_to_standard : List ℕ → List ℕ
base64url_to_standard value = pad 3 (map standard_char value)

unfoldable pub base64url_encode : List ℕ → List ℕ
base64url_encode input = base64url_from_standard (base64_encode input)

unfoldable pub base64url_decode : List ℕ → Decoding
base64url_decode input = base64_decode (base64url_to_standard input)

-- std::string::find of a text.
unfoldable pub find_text : List ℕ → List ℕ → Option ℕ
find_text pattern [] = if starts_with pattern [] then some 0 else none
find_text pattern (c ∷ cs) =
    let later : Option ℕ = elim (find_text pattern cs) [ none ↦ none | some i ↦ some (suc i) ] in
    if starts_with pattern (c ∷ cs) then some 0 else later

unfoldable pub extract_json_string : List ℕ → List ℕ → List ℕ
extract_json_string payload key =
    let pattern = b'"' ∷ (key ++ codes "\":\"") in
    elim (find_text pattern payload) [
      | none ↦ []
      | some at ↦
          let text = drop (at + length pattern) payload in
          elim (find_byte b'"' text) [ none ↦ [] | some n ↦ take n text ]
    ]

unfoldable pub digit_prefix : List ℕ → List ℕ
digit_prefix [] = []
digit_prefix (c ∷ cs) = let rest = digit_prefix cs in if is_digit c then c ∷ rest else []

-- none is an exception of stoull.
unfoldable pub extract_json_number : List ℕ → List ℕ → Option ℕ
extract_json_number payload key =
    let pattern = b'"' ∷ (key ++ codes "\":") in
    elim (find_text pattern payload) [
      | none ↦ some 0
      | some at ↦ stoull (digit_prefix (skip_spaces (drop (at + length pattern) payload)))
    ]

unfoldable pub escape_json : List ℕ → List ℕ
escape_json [] = []
escape_json (c ∷ cs) =
    let rest = escape_json cs in
    if (c == b'"') || (c == b'\\') then b'\\' ∷ (c ∷ rest) else c ∷ rest

-- JwtConfig
pub record JwtConfig : Type 0 where
  pub issuer : List ℕ
  pub secret : List ℕ
  pub ttl_seconds : ℕ

-- JwtClaims
pub record JwtClaims : Type 0 where
  pub subject : List ℕ
  pub expires_at : ℕ
  pub issued_at : ℕ

-- What verify comes to: nullopt, an exception, or the claims.
pub data Verified : Type 0 where
  refused threw : Verified
  accepted : JwtClaims → Verified

-- The payload of issue; `random` are the bytes of random_jti.
unfoldable pub payload_text : JwtConfig → List ℕ → ℕ → List ℕ → List ℕ
payload_text config username now random =
    codes "{\"iss\":\""
    ++ (escape_json config.issuer
        ++ (codes "\",\"sub\":\""
            ++ (escape_json username
                ++ (codes "\",\"iat\":"
                    ++ (decimal now
                        ++ (codes ",\"exp\":"
                            ++ (decimal ((now + config.ttl_seconds) % 2 ^ 64)
                                ++ (codes ",\"jti\":\""
                                    ++ (escape_json (base64_encode random) ++ codes "\"}")))))))))

-- The end of verify: the claims, and whether they still hold.
unfoldable pub read_claims : ℕ → List ℕ → Verified
read_claims now payload =
    let subject = extract_json_string payload (codes "sub") in
    elim (extract_json_number payload (codes "iat")) [
      | none ↦ threw
      | some issued ↦ elim (extract_json_number payload (codes "exp")) [
        | none ↦ threw
        | some expires ↦
            if (length subject == 0) || (expires == 0)
            then refused
            else if ltb expires now
            then refused
            else accepted (record { subject = subject; expires_at = expires; issued_at = issued })
      ]
    ]

module _ (hmac : List ℕ → List ℕ → List ℕ) where
  unfoldable pub signature : JwtConfig → List ℕ → List ℕ
  signature config signing_input =
      base64url_from_standard (base64_encode (hmac config.secret signing_input))

  unfoldable pub issue : JwtConfig → List ℕ → ℕ → List ℕ → List ℕ
  issue config username now random =
      let header_part = base64url_encode (codes "{\"alg\":\"HS256\",\"typ\":\"JWT\"}") in
      let payload_part = base64url_encode (payload_text config username now random) in
      let signing_input = header_part ++ b'.' ∷ payload_part in
      signing_input ++ b'.' ∷ signature config signing_input

  -- verify, once the signature is right.
  unfoldable pub verify_payload : ℕ → List ℕ → Verified
  verify_payload now payload_part = elim (base64url_decode payload_part) [
    | bad_length ↦ threw
    | bad_character ↦ threw
    | output payload ↦ read_claims now payload
  ]

  -- verify on the three parts of a token.
  unfoldable pub verify_parts : JwtConfig → ℕ → List ℕ → List ℕ → List ℕ → Verified
  verify_parts config now header_part payload_part signature_part =
      elim (base64url_decode header_part) [
        | bad_length ↦ threw
        | bad_character ↦ threw
        | output header ↦ elim (find_text (codes "\"HS256\"") header) [
          | none ↦ refused
          | some at ↦
              if same_bytes (signature config (header_part ++ b'.' ∷ payload_part)) signature_part
              then verify_payload now payload_part
              else refused
        ]
      ]

  unfoldable pub verify : JwtConfig → ℕ → List ℕ → Verified
  verify config now token = elim (find_byte b'.' token) [
    | none ↦ refused
    | some first ↦
        let behind = drop (first + 1) token in
        elim (find_byte b'.' behind) [
          | none ↦ refused
          | some second ↦
              verify_parts config now (take first token) (take second behind)
                (drop (second + 1) behind)
        ]
  ]
