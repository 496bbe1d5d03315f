-- ===== src/Protocol/Frames.antt =====
-- Responses on the wire.
use mini_db.Prelude.{
  ℕ, ◌%◌, ◌/◌, ◌^◌, ◌<◌, ◌≤◌, ◌≡◌, refl, ap, ◌∙◌, ◌∷◌, ◌++◌, length, drop, drop-append_length,
  arith,
}
use mini_db.Prelude.Text.{codes, decimal_u8}
use mini_db.Bytes.{Bytes, as_u32, to_le_bytes, from_le_bytes}
use mini_db.Result.{ok}
use mini_db.Stream.{Stream}
use mini_db.Stream.Exchange.{got_of_ok}
use mini_db.Protocol.{
  Response, okay, internal_error, code_and_payload, response_of, send_response, read_response,
}

abbrev pub frame : Response → Bytes
frame r =
    (code_and_payload r).0 ∷ to_le_bytes (as_u32 (length (code_and_payload r).1))
    ++ (code_and_payload r).1

response_of-code : (r : Response) → response_of (code_and_payload r).0 (code_and_payload r).1 ≡ r
unfolding response_of code_and_payload
response_of-code (okay p) = refl
response_of-code _ = refl

module _ ⦃net : Stream⦄ where
  open net use {Socket, incoming, sent}

  -- A response that was sent stands at the end of what has been sent, as its frame.
  pub sent-send_response :
      (r : Response) (s : Socket)
      → (send_response r s).0 ≡ ok tt
      → sent (send_response r s).1 ≡ sent s ++ frame r
  unfolding send_response
  sent-send_response r s h = net.sent-write_all s (frame r) (got_of_ok _ h)

  -- Any frame is read off the front of what comes in, and nothing is sent.
  pub read_response-frame :
      (t : Socket) (status a b c d : ℕ) (payload rest : Bytes)
      → incoming t ≡ status ∷ a ∷ b ∷ c ∷ d ∷ (payload ++ rest)
      → from_le_bytes a b c d ≡ length payload
      → ((read_response t).0 ≡ ok (response_of status payload))
        × (incoming (read_response t).1 ≡ rest)
        × (sent (read_response t).1 ≡ sent t)
  unfolding read_response
  read_response-frame t status a b c d payload rest h e =
      let (r1, i1) = net.read_u8-got t status (a ∷ b ∷ c ∷ d ∷ (payload ++ rest)) h in
      let t1 = (net.read_u8 t).1 in
      let (r2, i2) = net.read_u32_le-got t1 a b c d (payload ++ rest) i1 in
      let t2 = (net.read_u32_le t1).1 in
      let (r3, i3) = net.read_exact-got t2 payload rest i2 in
      rw (r1, r2, e, r3)
        (
          refl,
          i3,
          net.sent-read_exact t2 (length payload) ∙ net.sent-read_u32_le t1 ∙ net.sent-read_u8 t,
        )

  -- The frame of a response whose payload's length fits a u32.
  pub read_response_back :
      (r : Response) (t : Socket) (rest : Bytes)
      → length (code_and_payload r).1 < 2 ^ 32
      → incoming t ≡ frame r ++ rest
      → ((read_response t).0 ≡ ok r)
        × (incoming (read_response t).1 ≡ rest)
        × (sent (read_response t).1 ≡ sent t)
  read_response_back r t rest fits h =
      let (code, payload) = code_and_payload r in
      let n = as_u32 (length payload) in
      let (value, left, quiet) =
        read_response-frame t code (n % 256) (n / 256 % 256) (n / 65536 % 256) (n / 16777216 % 256)
          payload rest h (omega arith) in
      (value ∙ ap ok (response_of-code r), left, quiet)

  -- A response whose payload's length fits a u32, once sent, is what the other side reads, if what
  -- comes in there begins with the bytes that were sent; what follows is left.
  pub read_response-send_response :
      (r : Response) (s t : Socket) (rest : Bytes)
      → length (code_and_payload r).1 < 2 ^ 32
      → (send_response r s).0 ≡ ok tt
      → incoming t ≡ drop (length (sent s)) (sent (send_response r s).1) ++ rest
      → ((read_response t).0 ≡ ok r) × (incoming (read_response t).1 ≡ rest)
  read_response-send_response r s t rest fits done h =
      let arrives : incoming t ≡ frame r ++ rest =
        h
        ∙ ap (λ b. drop (length (sent s)) b ++ rest) (sent-send_response r s done)
        ∙ ap (λ b. b ++ rest) (drop-append_length (sent s) (frame r)) in
      let (value, left, _) = read_response_back r t rest fits arrives in (value, left)

  -- A status byte that names no response is reported as an internal error that quotes it, and the
  -- payload is dropped.
  pub read_response_unknown :
      (t : Socket) (status a b c d : ℕ) (payload rest : Bytes)
      → 9 ≤ status
      → incoming t ≡ status ∷ a ∷ b ∷ c ∷ d ∷ (payload ++ rest)
      → from_le_bytes a b c d ≡ length payload
      → (read_response t).0
        ≡ ok (internal_error (codes "Unknown response code: " ++ decimal_u8 status))
  unfolding response_of
  read_response_unknown t status a b c d payload rest unknown h e =
      (read_response-frame t status a b c d payload rest h e).0 ∙ ap ok (ground arith)
