-- ===== src/Drive/Token/Url.antt =====
-- The parts of a token come back from their text form.
use cloudisk_server.Base.{
  ℕ, ◌+◌, ◌/◌, ◌%◌, ◌*◌, ◌<◌, ◌≡◌, refl, sym, ap, ◌∙◌, List, [], ◌∷◌, map, Bool, true, false, ◌&&◌,
  not, ◌==◌, arith,
}
use cloudisk_server.Drive.Base64.{char64, pad, output, base64_decode}
use cloudisk_server.Drive.Base64.Groups.{
  in_groups, AllBytes, all_below, all_below-at, and_left, and_right, pad-group,
  base64_encode-in_groups,
}
use cloudisk_server.Drive.Base64.RoundTrip.{base64_decode-base64_encode}
use cloudisk_server.Drive.Token.{
  url_char, standard_char, strip, base64url_from_standard, base64url_to_standard, base64url_encode,
  base64url_decode,
}

good_url : ℕ → Bool
good_url v = not (url_char (char64 v) == b'=') && (standard_char (url_char (char64 v)) == char64 v)

all_urls : all_below good_url 64 ≡ true
unfolding all_below good_url char64
all_urls = refl

url_no_pad : (v : ℕ) → v < 64 → (url_char (char64 v) == b'=') ≡ false
unfolding good_url
url_no_pad v h =
    not_true _
      (and_left (not (url_char (char64 v) == b'=')) _ (all_below-at good_url 64 v all_urls h))
  where
    not_true : (b : Bool) → not b ≡ true → b ≡ false
    not_true true e = absurd (ground arith)
    not_true false e = refl

url_back : (v : ℕ) → v < 64 → standard_char (url_char (char64 v)) ≡ char64 v
unfolding good_url
url_back v h =
    let same =
      and_right (not (url_char (char64 v) == b'=')) _ (all_below-at good_url 64 v all_urls h) in
    same_number _ _ same
  where
    same_number : (a b : ℕ) → (a == b) ≡ true → a ≡ b
    same_number a b e = ground arith

strip-char :
    (v : ℕ) (cs : List ℕ)
    → v < 64
    → strip (url_char (char64 v) ∷ cs) ≡ url_char (char64 v) ∷ strip cs
unfolding strip
strip-char v cs h = rw (strip, url_no_pad v h) refl

-- A character of the alphabet at the front goes there and back.
front :
    (v : ℕ) (cs : List ℕ)
    → v < 64
    → map standard_char (strip (map url_char (char64 v ∷ cs)))
      ≡ char64 v ∷ map standard_char (strip (map url_char cs))
front v cs h =
    ap (map standard_char) (strip-char v (map url_char cs) h)
    ∙ ap (λ (c : ℕ). c ∷ map standard_char (strip (map url_char cs))) (url_back v h)

abbrev there_and_back : List ℕ → List ℕ
there_and_back cs = map standard_char (strip (map url_char cs))

to_standard-in_groups :
    (xs : List ℕ) → AllBytes xs → pad 3 (there_and_back (in_groups xs)) ≡ in_groups xs
unfolding in_groups
to_standard-in_groups [] h = unfold strip pad in refl
to_standard-in_groups (a ∷ []) h =
    let u = char64 (a % 4 * 16) in
    ap (pad 3) (
      front (a / 4) (u ∷ b'=' ∷ b'=' ∷ []) (omega (arith, h.0))
      ∙ ap (◌∷◌ (char64 (a / 4))) (front (a % 4 * 16) (b'=' ∷ b'=' ∷ []) (omega arith)))
    ∙ (unfold strip pad in refl)
to_standard-in_groups (a ∷ b ∷ []) h =
    let u = char64 (a % 4 * 16 + b / 16) in
    let w = char64 (b % 16 * 4) in
    ap (pad 3) (
      front (a / 4) (u ∷ w ∷ b'=' ∷ []) (omega (arith, h.0))
      ∙ ap (◌∷◌ (char64 (a / 4))) (
          front (a % 4 * 16 + b / 16) (w ∷ b'=' ∷ []) (omega (arith, h.1.0))
          ∙ ap (◌∷◌ u) (front (b % 16 * 4) (b'=' ∷ []) (omega arith))))
    ∙ (unfold strip pad in refl)
to_standard-in_groups (a ∷ b ∷ c ∷ rest) h =
    let t = char64 (a / 4) in
    let u = char64 (a % 4 * 16 + b / 16) in
    let w = char64 (b % 16 * 4 + c / 64) in
    let x = char64 (c % 64) in
    ap (pad 3) (
      front (a / 4) (u ∷ w ∷ x ∷ in_groups rest) (omega (arith, h.0))
      ∙ ap (◌∷◌ t) (
          front (a % 4 * 16 + b / 16) (w ∷ x ∷ in_groups rest) (omega (arith, h.1.0))
          ∙ ap (◌∷◌ u) (
              front (b % 16 * 4 + c / 64) (x ∷ in_groups rest) (omega (arith, h.1.1.0))
              ∙ ap (◌∷◌ w) (front (c % 64) (in_groups rest) (omega arith)))))
    ∙ pad-group 3 t u w x (there_and_back (in_groups rest))
    ∙ ap (λ (cs : List ℕ). t ∷ u ∷ w ∷ x ∷ cs) (to_standard-in_groups rest h.1.1.1)

-- base64url_decode takes every byte string back from base64url_encode, which writes it without '='
-- and in the alphabet for URLs.
pub base64url_decode-base64url_encode :
    (xs : List ℕ) → AllBytes xs → base64url_decode (base64url_encode xs) ≡ output xs
unfolding base64url_decode base64url_encode base64url_from_standard base64url_to_standard
base64url_decode-base64url_encode xs h =
    ap (λ (t : List ℕ). base64_decode (pad 3 (there_and_back t))) (base64_encode-in_groups xs h)
    ∙ ap base64_decode (to_standard-in_groups xs h ∙ sym (base64_encode-in_groups xs h))
    ∙ base64_decode-base64_encode xs h
