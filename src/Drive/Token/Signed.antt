-- ===== src/Drive/Token/Signed.antt =====
-- verify accepts only what the secret has signed, and only for its time.
use cloudisk_server.Base.{
  ℕ, suc, ◌+◌, ◌≤◌, ◌<◌, ◌≡◌, refl, sym, ap, ◌∙◌, subst, List, [], ◌∷◌, ◌++◌, Bool, true, false,
  ◌||◌, Option, none, some, Bool-cases, Option-cases, inl, inr, ◌==◌, ltb, if◌then◌else◌, length,
  take, drop, same_bytes, same_bytes→eq, arith,
}
use cloudisk_server.Base.Bytes.{codes}
use cloudisk_server.Drive.Protocol.{find_byte}
use cloudisk_server.Drive.Base64.{Decoding, bad_length, bad_character, output}
use cloudisk_server.Drive.Token.{
  JwtConfig, JwtClaims, Verified, refused, threw, accepted, find_text, extract_json_string,
  extract_json_number, read_claims, signature, verify_payload, verify_parts, verify,
  base64url_decode,
}

find_byte_split :
    (c : ℕ) (xs : List ℕ) (i : ℕ) → find_byte c xs ≡ some i → take i xs ++ c ∷ drop (i + 1) xs ≡ xs
unfolding find_byte
find_byte_split c [] i e = absurd (ground arith)
find_byte_split c (x ∷ xs) i e = elim (Bool-cases (x == c)) [
  | inl hit ↦
      let at : i ≡ 0 = ground (arith, e, hit) in
      let same : x ≡ c = ground (arith, hit) in rw at (ap (λ (y : ℕ). y ∷ xs) (sym same))
  | inr other ↦ elim (Option-cases (find_byte c xs)) [
    | inl none_there ↦ absurd (ground (arith, e, other, none_there))
    | inr (j, there) ↦
        let at : i ≡ suc j = ground (arith, e, other, there) in
        rw at (
          ap (λ (k : ℕ). x ∷ (take j xs ++ c ∷ drop k (x ∷ xs))) {x = suc j + 1} {y = suc (j + 1)}
            (omega arith)
          ∙ ap (◌∷◌ x) (find_byte_split c xs j there))
  ]
]

-- All claims that a result accepts satisfy `P`.
abbrev Only : (JwtClaims → Type 0) → Verified → Type 0
Only P refused = Unit
Only P threw = Unit
Only P (accepted c) = P c

-- The claims are those of the payload, and still hold at `now`.
pub record IsCurrent (now : ℕ) (payload : List ℕ) (c : JwtClaims) : Type 0 where
  pub subject_there : c.subject ≡ extract_json_string payload (codes "sub")
  pub expiry_there : extract_json_number payload (codes "exp") ≡ some c.expires_at
  pub named : 0 < length c.subject
  pub in_time : now ≤ c.expires_at

read_claims-Only :
    (now : ℕ) (payload : List ℕ) → Only (IsCurrent now payload) (read_claims now payload)
unfolding read_claims
read_claims-Only now payload =
    both (extract_json_number payload (codes "iat")) (extract_json_number payload (codes "exp"))
      refl
  where
    subject : List ℕ
    subject = extract_json_string payload (codes "sub")

    tests :
        (issued expires : ℕ)
        → extract_json_number payload (codes "exp") ≡ some expires
        → Only (IsCurrent now payload) (
            if (length subject == 0) || (expires == 0)
            then refused
            else if ltb expires now
            then refused
            else accepted (record { subject = subject; expires_at = expires; issued_at = issued }))
    tests issued expires e = elim (Bool-cases ((length subject == 0) || (expires == 0))) [
      | inl empty ↦ rw empty tt
      | inr full ↦ elim (Bool-cases (ltb expires now)) [
        | inl late ↦ rw (full, late) tt
        | inr current ↦
            rw (full, current)
              (record {
                subject_there = refl;
                expiry_there = e;
                named = ground (arith, full);
                in_time = ground (arith, current);
              })
      ]
    ]

    both :
        (i o : Option ℕ)
        → extract_json_number payload (codes "exp") ≡ o
        → Only (IsCurrent now payload) (elim i as (λ _. Verified) [
          | none ↦ threw
          | some issued ↦ elim o as (λ _. Verified) [
            | none ↦ threw
            | some expires ↦
                if (length subject == 0) || (expires == 0)
                then refused
                else if ltb expires now
                then refused
                else accepted
                    (record { subject = subject; expires_at = expires; issued_at = issued })
          ]
        ])
    both none o e = tt
    both (some issued) none e = tt
    both (some issued) (some expires) e = tests issued expires e

module _ (hmac : List ℕ → List ℕ → List ℕ) (config : JwtConfig) (now : ℕ) where
  -- A token of three parts, the last of which is the signature of the first two, and whose payload
  -- has the claims.
  pub record IsSigned (token : List ℕ) (c : JwtClaims) : Type 0 where
    pub header_part : List ℕ
    pub payload_part : List ℕ
    pub payload : List ℕ
    pub parts :
        token
        ≡ header_part
          ++ b'.'
            ∷ (payload_part ++ b'.' ∷ signature hmac config (header_part ++ b'.' ∷ payload_part))
    pub decoded : base64url_decode payload_part ≡ output payload
    pub current : IsCurrent now payload c

  Only-payload :
      (part : List ℕ)
      → Only
          (λ c.
            (payload : List ℕ) × (base64url_decode part ≡ output payload) × IsCurrent now payload c)
          (verify_payload hmac now part)
  unfolding verify_payload
  Only-payload part = by_decoding (base64url_decode part) refl
    where
      by_claims :
          (payload : List ℕ) (r : Verified)
          → base64url_decode part ≡ output payload
          → Only (IsCurrent now payload) r
          → Only
              (λ c. (text : List ℕ) × (base64url_decode part ≡ output text) × IsCurrent now text c)
              r
      by_claims payload refused e h = tt
      by_claims payload threw e h = tt
      by_claims payload (accepted c) e h = (payload, e, h)

      by_decoding :
          (d : Decoding)
          → base64url_decode part ≡ d
          → Only
              (λ c. (text : List ℕ) × (base64url_decode part ≡ output text) × IsCurrent now text c)
              (elim d as (λ _. Verified) [
                | bad_length ↦ threw
                | bad_character ↦ threw
                | output payload ↦ read_claims now payload
              ])
      by_decoding bad_length e = tt
      by_decoding bad_character e = tt
      by_decoding (output payload) e =
          by_claims payload (read_claims now payload) e (read_claims-Only now payload)

  verify_parts-Only :
      (token header_part payload_part signature_part : List ℕ)
      → token ≡ header_part ++ b'.' ∷ (payload_part ++ b'.' ∷ signature_part)
      → Only (IsSigned token) (verify_parts hmac config now header_part payload_part signature_part)
  unfolding verify_parts
  verify_parts-Only token header_part payload_part signature_part e =
      by_header (base64url_decode header_part)
    where
      expected : List ℕ
      expected = signature hmac config (header_part ++ b'.' ∷ payload_part)

      by_claims :
          (r : Verified)
          → expected ≡ signature_part
          → Only
              (λ c.
                (text : List ℕ) × (base64url_decode payload_part ≡ output text)
                × IsCurrent now text c)
              r
          → Only (IsSigned token) r
      by_claims refused s h = tt
      by_claims threw s h = tt
      by_claims (accepted c) s (text, d, h) = record {
        header_part = header_part;
        payload_part = payload_part;
        payload = text;
        parts = e ∙ ap (λ (t : List ℕ). header_part ++ b'.' ∷ (payload_part ++ b'.' ∷ t)) (sym s);
        decoded = d;
        current = h;
      }

      by_signature :
          (b : Bool)
          → same_bytes expected signature_part ≡ b
          → Only (IsSigned token) (if b then verify_payload hmac now payload_part else refused)
      by_signature false s = tt
      by_signature true s =
          by_claims (verify_payload hmac now payload_part) (same_bytes→eq expected signature_part s)
            (Only-payload payload_part)

      by_text :
          (o : Option ℕ)
          → Only (IsSigned token) (elim o as (λ _. Verified) [
            | none ↦ refused
            | some at ↦
                if same_bytes expected signature_part
                then verify_payload hmac now payload_part
                else refused
          ])
      by_text none = tt
      by_text (some at) = by_signature (same_bytes expected signature_part) refl

      by_header :
          (d : Decoding)
          → Only (IsSigned token) (elim d as (λ _. Verified) [
            | bad_length ↦ threw
            | bad_character ↦ threw
            | output header ↦ elim (find_text (codes "\"HS256\"") header) as (λ _. Verified) [
              | none ↦ refused
              | some at ↦
                  if same_bytes expected signature_part
                  then verify_payload hmac now payload_part
                  else refused
            ]
          ])
      by_header bad_length = tt
      by_header bad_character = tt
      by_header (output header) = by_text (find_text (codes "\"HS256\"") header)

  verify-Only : (token : List ℕ) → Only (IsSigned token) (verify hmac config now token)
  unfolding verify
  verify-Only token = elim (Option-cases (find_byte b'.' token)) [
    | inl none_there ↦ rw (verify, none_there) tt
    | inr (first, e) ↦ elim (Option-cases (find_byte b'.' (drop (first + 1) token))) [
      | inl one_there ↦ rw (verify, e, one_there) tt
      | inr (second, e') ↦
          rw (verify, e, e')
            (verify_parts-Only token (take first token) (take second (drop (first + 1) token))
              (drop (second + 1) (drop (first + 1) token))
              (sym (
                ap (λ (t : List ℕ). take first token ++ b'.' ∷ t)
                  (find_byte_split b'.' (drop (first + 1) token) second e')
                ∙ find_byte_split b'.' token first e)))
    ]
  ]

  -- A token that verify accepts has three parts, the last of which is the signature of the first two
  -- under the server's secret; the claims are read from the payload, name a user, and have not
  -- expired.
  pub verify-IsSigned :
      (token : List ℕ) (c : JwtClaims)
      → verify hmac config now token ≡ accepted c
      → IsSigned token c
  verify-IsSigned token c e = subst (Only (IsSigned token)) e (verify-Only token)
