-- ===== src/Transport/Framing/Drain.antt =====
-- A receiver that feeds what it reads from the connection and takes messages until it has to wait.
use dcp.Base.{
  ℕ, zero, suc, ◌+◌, ◌≤◌, ◌<◌, ◌^◌, ◌≡◌, inl, inr, refl, ap, sym, ◌∙◌, Bool-cases, Option, none,
  some, List, [], ◌∷◌, ◌++◌, All, append-nil, append_assoc, length, ltb, Result, ok, err, arith,
  length-append,
}
use dcp.Transport.Buffer.{BytesMut}
use dcp.Transport.Framing.{FrameError, FrameCodec, decode, feed}
use dcp.Transport.Framing.Wire.{header_bytes, frame, length-frame, length-header_bytes}
use dcp.Transport.Framing.Decode.{decode-frame, decode_waits_header, decode_waits_payload}

abbrev pub frames : List (List ℕ) → List ℕ
frames [] = []
frames (msg ∷ msgs) = frame msg ++ frames msgs

abbrev pub concat : List (List ℕ) → List ℕ
concat [] = []
concat (chunk ∷ chunks) = chunk ++ concat chunks

-- A front that lies in a longer front.
append_split :
    (us vs xs ys : List ℕ)
    → xs ++ ys ≡ us ++ vs
    → length us ≤ length xs
    → (w : List ℕ) × (xs ≡ us ++ w) × (w ++ ys ≡ vs)
append_split [] vs xs ys e le = (xs, refl, e)
append_split (u ∷ us) vs [] ys e le = absurd (omega arith)
append_split (u ∷ us) vs (x ∷ xs) ys e le =
    let rest = append_split us vs xs ys (cc) (omega arith) in
    let same : x ≡ u = cc in (rest.0, cc, rest.2)

module _ (b : BytesMut) where
  -- `decode` until it does not give a message, at most `fuel` times.
  unfoldable pub drain : ℕ → FrameCodec b → List (List ℕ) × FrameCodec b
  drain zero codec = ([], codec)
  drain (suc fuel) codec = elim (decode b codec).0 [
    | ok (some msg) ↦ (let rest = drain fuel (decode b codec).1 in (msg ∷ rest.0, rest.1))
    | ok none ↦ ([], (decode b codec).1)
    | err error ↦ ([], (decode b codec).1)
  ]

  -- Each chunk is fed and drained, with one call of `decode` for each byte that is there and one more.
  unfoldable pub receive : FrameCodec b → List (List ℕ) → List (List ℕ) × FrameCodec b
  receive codec [] = ([], codec)
  receive codec (chunk ∷ chunks) =
      let fed = feed b codec chunk in
      let now = drain (suc (length (b.content fed.read_buffer))) fed in
      let later = receive now.1 chunks in (now.0 ++ later.0, later.1)

  drain_more :
      (fuel : ℕ) (codec : FrameCodec b) (msg : List ℕ)
      → (decode b codec).0 ≡ ok (some msg)
      → drain (suc fuel) codec
        ≡ (msg ∷ (drain fuel (decode b codec).1).0, (drain fuel (decode b codec).1).1)
  unfolding drain
  drain_more fuel codec msg got = rw (got, drain) refl

  drain_stop :
      (fuel : ℕ) (codec : FrameCodec b)
      → decode b codec ≡ (ok none, codec)
      → drain (suc fuel) codec ≡ ([], codec)
  unfolding drain
  drain_stop fuel codec waits =
      let answer : (decode b codec).0 ≡ ok none =
        ap (λ (p : Result (Option (List ℕ)) FrameError × FrameCodec b). p.0) waits in
      rw (answer, drain)
        (ap (λ (p : Result (Option (List ℕ)) FrameError × FrameCodec b). ([], p.1)) waits)

  abbrev pub IsSent : ℕ → List ℕ → Type 0
  IsSent limit msg = (length msg ≤ limit) × (length msg < 2 ^ 32)

  waits :
      (codec : FrameCodec b) (msg : List ℕ) (msgs : List (List ℕ)) (future : List ℕ)
      → length msg ≤ codec.max_size
      → length msg < 2 ^ 32
      → b.content codec.read_buffer ++ future ≡ frame msg ++ frames msgs
      → length (b.content codec.read_buffer) < 5 + length msg
      → decode b codec ≡ (ok none, codec)
  waits codec msg msgs future le small is short =
      elim (Bool-cases (ltb (length (b.content codec.read_buffer)) 5)) [
        | inl tiny ↦ decode_waits_header b codec (ground arith)
        | inr more ↦
            let header =
              append_split (header_bytes (length msg)) (msg ++ frames msgs)
                (b.content codec.read_buffer) future
                (is ∙ unfold frame in append_assoc (header_bytes (length msg)) msg (frames msgs))
                (unfold header_bytes in ground arith) in
            decode_waits_payload b codec (length msg) header.0 small le
              (omega (arith, short, ap length header.1, length-header_bytes (length msg) header.0))
              header.1
      ]

  -- The buffer does not hold the first frame.
  IsShort : List ℕ → List (List ℕ) → Type 0
  IsShort held [] = Unit {0}
  IsShort held (msg ∷ msgs) = length held < 5 + length msg

  -- What is buffered and what is still to come are the frames of the messages.
  record IsReceiving (limit : ℕ) (codec : FrameCodec b) (future : List ℕ) (msgs : List (List ℕ))
      : Type 0 where
    limited : codec.max_size ≡ limit
    sent : All (IsSent limit) msgs
    held : b.content codec.read_buffer ++ future ≡ frames msgs

  Drained : ℕ → List (List ℕ) → List ℕ → List (List ℕ) × FrameCodec b → Type 0
  Drained limit msgs future out =
      (left : List (List ℕ)) × (out.0 ++ left ≡ msgs)
      × IsReceiving limit out.1 future left
      × IsShort (b.content out.1.read_buffer) left

  drain_lem :
      (limit fuel : ℕ) (codec : FrameCodec b) (future : List ℕ) (msgs : List (List ℕ))
      → IsReceiving limit codec future msgs
      → length (b.content codec.read_buffer) < fuel
      → Drained limit msgs future (drain fuel codec)
  unfolding Drained
  drain_lem limit zero codec future msgs v enough = absurd (omega arith)
  drain_lem limit (suc fuel) codec future [] v enough =
      let empty : length (b.content codec.read_buffer) ≡ 0 =
        omega (arith, ap length v.held, length-append (b.content codec.read_buffer) future) in
      let stop = drain_stop fuel codec (decode_waits_header b codec (omega (arith, empty))) in
      rw stop ([], refl, v, unfold IsShort in tt)
  drain_lem limit (suc fuel) codec future (msg ∷ msgs) v enough =
      let le : length msg ≤ codec.max_size = omega (arith, v.sent.0.0, v.limited) in
      elim (Bool-cases (ltb (length (b.content codec.read_buffer)) (5 + length msg))) [
        | inl short ↦
            let stop =
              drain_stop fuel codec
                (waits codec msg msgs future le v.sent.0.1 v.held (ground arith)) in
            rw stop (msg ∷ msgs, refl, v, unfold IsShort in ground arith)
        | inr long ↦
            let rest =
              append_split (frame msg) (frames msgs) (b.content codec.read_buffer) future v.held
                (ground (arith, length-frame msg)) in
            let got = decode-frame b codec msg rest.0 le v.sent.0.1 rest.1 in
            let next : IsReceiving limit (decode b codec).1 future msgs = record {
              limited = got.2 ∙ v.limited;
              sent = v.sent.1;
              held = ap (λ (t : List ℕ). t ++ future) got.1 ∙ rest.2;
            } in
            let size : length (b.content (decode b codec).1.read_buffer) < fuel = omega (
              arith,
              enough,
              ap length got.1,
              ap length rest.1,
              length-append (frame msg) rest.0,
              length-frame msg,
            ) in
            let more = drain_lem limit fuel (decode b codec).1 future msgs next size in
            rw (drain_more fuel codec msg got.0)
              (more.0, ap (λ (t : List (List ℕ)). msg ∷ t) more.1, more.2, more.3)
      ]

  receive_lem :
      (limit : ℕ) (codec : FrameCodec b) (chunks msgs : List (List ℕ))
      → IsReceiving limit codec (concat chunks) msgs
      → IsShort (b.content codec.read_buffer) msgs
      → ((receive codec chunks).0 ≡ msgs) × (b.content (receive codec chunks).1.read_buffer ≡ [])
  unfolding receive IsShort Drained
  receive_lem limit codec [] [] v short =
      (refl, sym (append-nil (b.content codec.read_buffer)) ∙ v.held)
  receive_lem limit codec [] (msg ∷ msgs) v short = absurd (
      omega (
        arith,
        short,
        length-frame msg,
        ap length v.held,
        length-append (frame msg) (frames msgs),
        length-append (b.content codec.read_buffer) [],
      ))
  receive_lem limit codec (chunk ∷ chunks) msgs v short =
      let fed = feed b codec chunk in
      let size = length (b.content fed.read_buffer) in
      let fed_content : b.content fed.read_buffer ≡ b.content codec.read_buffer ++ chunk =
        unfold feed in b.content-extend_from_slice codec.read_buffer chunk in
      let receiving : IsReceiving limit fed (concat chunks) msgs = record {
        limited = unfold feed in v.limited;
        sent = v.sent;
        held =
            ap (λ (t : List ℕ). t ++ concat chunks) fed_content
            ∙ append_assoc (b.content codec.read_buffer) chunk (concat chunks)
            ∙ v.held;
      } in
      let now = drain_lem limit (suc size) fed (concat chunks) msgs receiving (omega arith) in
      let later = receive_lem limit (drain (suc size) fed).1 chunks now.0 now.2 now.3 in
      (ap (λ (t : List (List ℕ)). (drain (suc size) fed).0 ++ t) later.0 ∙ now.1, later.1)

  starts :
      (codec : FrameCodec b) (msgs : List (List ℕ))
      → b.content codec.read_buffer ≡ []
      → IsShort (b.content codec.read_buffer) msgs
  unfolding IsShort
  starts codec [] empty = tt
  starts codec (msg ∷ msgs) empty = omega (arith, ap length empty)

  -- A codec whose buffer is empty, that is fed the frames of any messages cut into chunks anywhere and
  -- is asked after each chunk for messages until it has to wait, gives exactly these messages in their
  -- order, and its buffer ends empty, if each message is at most as long as the maximum and shorter
  -- than 2 ^ 32 bytes. One call of `decode` for each buffered byte and one more are always enough.
  pub receive-frames :
      (codec : FrameCodec b) (chunks msgs : List (List ℕ))
      → b.content codec.read_buffer ≡ []
      → All (IsSent codec.max_size) msgs
      → concat chunks ≡ frames msgs
      → ((receive codec chunks).0 ≡ msgs) × (b.content (receive codec chunks).1.read_buffer ≡ [])
  receive-frames codec chunks msgs empty sent cut =
      receive_lem codec.max_size codec chunks msgs
        (record {
          limited = refl;
          sent = sent;
          held = ap (λ (t : List ℕ). t ++ concat chunks) empty ∙ cut;
        })
        (starts codec msgs empty)
