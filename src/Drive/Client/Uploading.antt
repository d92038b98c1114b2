-- ===== src/Drive/Client/Uploading.antt =====
-- What handle_upload of client/src/client_app.cpp sends of a file.
use cloudisk_server.Base.{
  ℕ, zero, suc, ◌+◌, ◌-◌, ◌≤◌, ◌<◌, ◌≡◌, ◌≢◌, refl, sym, ◌∙◌, ap, subst, List, [], ◌∷◌, ◌++◌, Bool,
  true, Option, none, some, ltb, leb, ◌==◌, if◌then◌else◌, length, take, drop, replicate, min,
  arith, Bool-cases, inl, inr, ltb→lt, append-nil, append_assoc, length-take, length-drop,
  drop-drop, take-add, take_all,
}
use cloudisk_server.Base.Bytes.{codes}
use cloudisk_server.Drive.Protocol.{Message, make_message, emplace}
use cloudisk_server.Drive.Storage.{decimal}
use cloudisk_server.Drive.Client.{
  Peer, ClientApp, chunk_bytes, mmap_threshold, Ended, through, gave_up, unfinished, Transfer,
  returned, unended, answered, chunk_message, stream_read, chunk_body, call, part_sent, upload_loop,
  upload_ended, upload_from,
}

-- The bytes of the parts, one behind the other.
abbrev pub bodies : List (ℕ × List ℕ) → List ℕ
bodies [] = []
bodies ((offset, body) ∷ parts) = body ++ bodies parts

-- Each part is sent for the place where the one before it ends, the first for `o`.
abbrev pub AreAt : ℕ → List (ℕ × List ℕ) → Type 0
AreAt o [] = Unit
AreAt o ((offset, body) ∷ parts) = (offset ≡ o) × AreAt (o + length body) parts

-- What the next part is taken from.
abbrev source : Option (List ℕ) → ℕ → List ℕ → List ℕ
source none offset rest = rest
source (some bytes) offset rest = drop offset bytes

source_next :
    (mapped : Option (List ℕ)) (offset n : ℕ) (rest : List ℕ)
    → source mapped (offset + n) (drop n rest) ≡ drop n (source mapped offset rest)
source_next none offset n rest = refl
source_next (some bytes) offset n rest = drop-drop offset n bytes

chunk_body-source :
    (mapped : Option (List ℕ)) (offset n : ℕ) (rest : List ℕ)
    → n ≤ length (source mapped offset rest)
    → chunk_body mapped offset rest n ≡ take n (source mapped offset rest)
unfolding chunk_body stream_read
chunk_body-source none offset n rest h =
    ap (λ (i : ℕ). take n rest ++ replicate i 0) {x = n - length rest} {y = 0} (omega arith)
    ∙ append-nil (take n rest)
chunk_body-source (some bytes) offset n rest h = refl

-- The state of a server with the messages it has got, in their order.
pub record Recorded (S : Type 0) : Type 0 where
  pub got : List Message
  pub inner : S

-- A server that writes down the messages it gets.
abbrev pub recording : Peer → Peer
recording p = record {
  State = Recorded p.State;
  answer =
      λ m s. let r = p.answer m s.inner in (r.0, record { got = s.got ++ m ∷ []; inner = r.1 });
}

-- A message with a command, under the client's token.
abbrev pub signed_request : ClientApp → List ℕ → List (List ℕ × List ℕ) → List ℕ → Message
signed_request c cmd headers body =
    let m = make_message ((codes "cmd", cmd) ∷ headers) body in
    if length c.token == 0
    then m
    else record m { headers = emplace (codes "token") c.token m.headers }

-- The messages for the parts of an upload, and then for its commit.
abbrev pub messages : ClientApp → List (ℕ × List ℕ) → List Message
messages c [] = []
messages c ((offset, body) ∷ parts) =
    signed_request c (codes "FILE_UPLOAD_CHUNK") ((codes "offset", decimal offset) ∷ []) body
    ∷ messages c parts

abbrev pub commit_request : ClientApp → Message
commit_request c = signed_request c (codes "FILE_UPLOAD_COMMIT") [] []

module _ (p : Peer) (c : ClientApp) where
  -- An answer has come only where the message has gone.
  call_sent :
      (cmd text : List ℕ) (headers : List (List ℕ × List ℕ)) (body : List ℕ) (s : Recorded p.State)
      → let r = call (recording p) c (make_message ((codes "cmd", cmd) ∷ headers) body) s in
        answered text r.0 ≡ true → r.1.got ≡ s.got ++ signed_request c cmd headers body ∷ []
  unfolding call answered
  call_sent cmd text headers body s h = elim (Bool-cases c.connected) [
    | inl on ↦ rw (call, on) refl
    | inr off ↦ absurd (ground (arith, h, off))
  ]

  -- The loop ends; where it comes through, the messages it has sent are those for parts that are
  -- the next bytes of its source.
  abbrev Sends : ℕ → ℕ → List ℕ → List Message → Ended × Recorded p.State → Type 0
  Sends size offset bytes log r =
      (r.0 ≢ unfinished)
      × (r.0 ≡ through
          → (parts : List (ℕ × List ℕ)) × (r.1.got ≡ log ++ messages c parts)
            × AreAt offset parts
            × (bodies parts ≡ take (size - offset) bytes))

  -- One part and the parts behind it.
  part_sent-Sends :
      (next : Recorded p.State → Ended × Recorded p.State) (size offset n : ℕ) (bytes : List ℕ)
      (log : List Message) (r : Option Message × Recorded p.State)
      → n ≤ size - offset
      → size - offset ≤ length bytes
      → (answered (codes "ok") r.0 ≡ true
          → r.1.got ≡ log ++ messages c ((offset, take n bytes) ∷ []))
      → ((s : Recorded p.State) → Sends size (offset + n) (drop n bytes) s.got (next s))
      → Sends size offset bytes log (part_sent (recording p) c next r)
  unfolding part_sent
  part_sent-Sends next size offset n bytes log r small enough went h =
      elim (Bool-cases (answered (codes "ok") r.0)) [
        | inr refused ↦
            rw (part_sent, refused) (λ e. absurd (ground arith), λ e. absurd (ground arith))
        | inl accepted ↦
            rw (part_sent, accepted)
              (
                (h r.1).0,
                λ e.
                    let (parts, sent, at, whole) = (h r.1).1 e in
                    (
                      (offset, take n bytes) ∷ parts,
                      sent
                          ∙ ap (λ (l : List Message). l ++ messages c parts) (went accepted)
                          ∙ append_assoc log (messages c ((offset, take n bytes) ∷ []))
                              (messages c parts),
                      (refl, subst (λ (o : ℕ). AreAt (offset + o) parts) (sym size_of_part) at),
                      ap (λ (t : List ℕ). take n bytes ++ t) whole
                          ∙ sym (take-add n (size - (offset + n)) bytes)
                          ∙ ap (λ (i : ℕ). take i bytes) {x = n + (size - (offset + n))}
                              {y = size - offset} (omega arith),
                    ),
              )
      ]
    where
      size_of_part : length (take n bytes) ≡ n
      size_of_part = omega (arith, length-take n bytes)

  upload_loop-Sends :
      (rounds size : ℕ) (mapped : Option (List ℕ)) (offset : ℕ) (rest : List ℕ)
      (s : Recorded p.State)
      → size - offset < rounds
      → size - offset ≤ length (source mapped offset rest)
      → Sends size offset
          (source mapped offset rest)
          s.got
          (upload_loop (recording p) c rounds size mapped offset rest s)
  unfolding upload_loop
  upload_loop-Sends zero size mapped offset rest s f h = absurd (omega arith)
  upload_loop-Sends (suc rounds) size mapped offset rest s f h =
      elim (Bool-cases (ltb offset size)) [
        | inr over ↦
            rw (upload_loop, over)
              (
                λ e. absurd (ground arith),
                λ e. (
                  [],
                  sym (append-nil s.got),
                  tt,
                  sym (
                      ap (λ (i : ℕ). take i (source mapped offset rest)) {x = size - offset} {y = 0}
                        (ground arith)),
                ),
              )
        | inl more ↦
            let n = min chunk_bytes (size - offset) in
            rw (upload_loop, more, chunk_body-source mapped offset n rest (omega arith))
              (part_sent-Sends _ size offset n (source mapped offset rest) s.got _ (omega arith) h
                (λ e.
                  unfold chunk_message in
                  call_sent (codes "FILE_UPLOAD_CHUNK") (codes "ok")
                    ((codes "offset", decimal offset) ∷ []) (take n (source mapped offset rest)) s
                    e)
                λ s'.
                  subst
                    (λ (b : List ℕ). Sends size (offset + n) b s'.got (
                      upload_loop (recording p) c rounds size mapped (offset + n) (drop n rest) s'))
                    (source_next mapped offset n rest)
                    (upload_loop-Sends rounds size mapped (offset + n) (drop n rest) s'
                      (omega (arith, ltb→lt offset size more))
                      (rw (source_next mapped offset n rest)
                        (omega (arith, length-drop n (source mapped offset rest))))))
      ]

  -- The upload ends, and where it succeeds, it has sent `bytes` in parts from the offset on, and then
  -- the commit.
  abbrev pub IsSent : ℕ → List ℕ → List Message → Transfer × Recorded p.State → Type 0
  IsSent offset bytes before r =
      (r.0 ≢ unended)
      × (r.0 ≡ returned true
          → (parts : List (ℕ × List ℕ)) × (r.1.got
              ≡ before ++ (messages c parts ++ commit_request c ∷ []))
            × AreAt offset parts
            × (bodies parts ≡ bytes))

  -- What is said of the loop holds of the upload.
  upload_ended-IsSent :
      (size offset : ℕ) (bytes : List ℕ) (log : List Message) (r : Ended × Recorded p.State)
      → Sends size offset bytes log r
      → IsSent offset (take (size - offset) bytes) log (upload_ended (recording p) c r)
  unfolding upload_ended
  upload_ended-IsSent size offset bytes log (through, s) h =
      let done =
        call (recording p) c (make_message ((codes "cmd", codes "FILE_UPLOAD_COMMIT") ∷ []) []) s in
      (
        λ e. absurd (ground arith),
        λ e.
            let (parts, sent, at, whole) = h.1 refl in
            let yes : answered (codes "ok") done.0 ≡ true = ground (arith, e) in
            (
              parts,
              call_sent (codes "FILE_UPLOAD_COMMIT") (codes "ok") [] [] s yes
                  ∙ ap (λ (l : List Message). l ++ commit_request c ∷ []) sent
                  ∙ append_assoc log (messages c parts) (commit_request c ∷ []),
              at,
              whole,
            ),
      )
  upload_ended-IsSent size offset bytes log (gave_up, s) h =
      (λ e. absurd (ground arith), λ e. absurd (ground arith))
  upload_ended-IsSent size offset bytes log (unfinished, s) h = absurd (h.0 refl)

  -- handle_upload from an offset within the file on, once the server is ready, where a file from the
  -- threshold on can be mapped: the loop ends, and where the upload succeeds, the server has got a
  -- chunk message for each part, each with its offset and its bytes, one behind the other from the
  -- offset on, and then the commit. A file that is mapped is sent from the offset on; of a smaller
  -- one as many bytes are sent as are behind the offset, but from its beginning.
  pub upload_from-IsSent :
      (maps : Bool) (bytes : List ℕ) (offset : ℕ) (s : Recorded p.State)
      → offset ≤ length bytes
      → (mmap_threshold ≤ length bytes → maps ≡ true)
      → IsSent offset
          (if leb mmap_threshold (length bytes)
            then drop offset bytes
            else take (length bytes - offset) bytes)
          s.got
          (upload_from (recording p) c maps bytes offset s)
  unfolding upload_from
  upload_from-IsSent maps bytes offset s h m =
      elim (Bool-cases (leb mmap_threshold (length bytes))) [
        | inr small ↦
            rw (upload_from, small)
              (upload_ended-IsSent (length bytes) offset bytes s.got _ (
                upload_loop-Sends (suc (length bytes)) (length bytes) none offset bytes s
                  (omega arith) (omega arith)))
        | inl big ↦
            let mapped : maps ≡ true = m (ground arith) in
            let (ends, sent) =
              upload_ended-IsSent (length bytes) offset (drop offset bytes) s.got _ (
                upload_loop-Sends (suc (length bytes)) (length bytes) (some bytes) offset [] s
                  (omega arith) (omega (arith, length-drop offset bytes))) in
            rw (upload_from, big, mapped)
              (
                ends,
                λ e.
                    let (parts, all, at, whole) = sent e in
                    (
                      parts,
                      all,
                      at,
                      whole
                          ∙ take_all (length bytes - offset) (drop offset bytes)
                              (omega (arith, length-drop offset bytes)),
                    ),
              )
      ]
