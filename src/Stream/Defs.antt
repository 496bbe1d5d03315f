-- ===== src/Stream/Defs.antt =====
-- The interface to tokio's `TcpStream`: reads that wait for the peer, and writes. `incoming` is all
-- that the peer still sends before the connection ends, `sent` what has been written to it.
use mini_db.Prelude.{ℕ, ◌≡◌, [], ◌∷◌, ◌++◌, length, ◌<◌}
use mini_db.Bytes.{Bytes, from_le_bytes}
use mini_db.Result.{IoError}

pub data Outcome {ℓ} (A : Type ℓ) : Type ℓ where
  got : A → Outcome A
  failed : IoError → Outcome A

pub record Stream : Type 1 where
  pub Socket : Type 0
  pub incoming : Socket → Bytes
  pub sent : Socket → Bytes
  pub read_u8 : Socket → Outcome ℕ × Socket
  pub read_u32_le : Socket → Outcome ℕ × Socket
  pub read_exact : Socket → ℕ → Outcome Bytes × Socket
  pub write_all : Socket → Bytes → Outcome (Unit {0}) × Socket
  -- a read takes its bytes off the front of what comes in, once they are there
  pub read_u8-got :
      (s : Socket) (b : ℕ) (rest : Bytes)
      → incoming s ≡ b ∷ rest
      → ((read_u8 s).0 ≡ got b) × (incoming (read_u8 s).1 ≡ rest)
  pub read_u32_le-got :
      (s : Socket) (a b c d : ℕ) (rest : Bytes)
      → incoming s ≡ a ∷ b ∷ c ∷ d ∷ rest
      → ((read_u32_le s).0 ≡ got (from_le_bytes a b c d)) × (incoming (read_u32_le s).1 ≡ rest)
  pub read_exact-got :
      (s : Socket) (bytes rest : Bytes)
      → incoming s ≡ bytes ++ rest
      → ((read_exact s (length bytes)).0 ≡ got bytes)
        × (incoming (read_exact s (length bytes)).1 ≡ rest)
  -- and sends nothing, whether it succeeds or not
  pub sent-read_u8 : (s : Socket) → sent (read_u8 s).1 ≡ sent s
  pub sent-read_u32_le : (s : Socket) → sent (read_u32_le s).1 ≡ sent s
  pub sent-read_exact : (s : Socket) (n : ℕ) → sent (read_exact s n).1 ≡ sent s
  -- a read past the end of what comes in fails
  pub read_u8-end : (s : Socket) → incoming s ≡ [] → (e : IoError) × ((read_u8 s).0 ≡ failed e)
  pub read_u32_le-end :
      (s : Socket) → length (incoming s) < 4 → (e : IoError) × ((read_u32_le s).0 ≡ failed e)
  pub read_exact-end :
      (s : Socket) (n : ℕ)
      → length (incoming s) < n
      → (e : IoError) × ((read_exact s n).0 ≡ failed e)
  -- a write that succeeds sends all its bytes, and no write takes anything off what comes in
  pub sent-write_all :
      (s : Socket) (b : Bytes) → (write_all s b).0 ≡ got tt → sent (write_all s b).1 ≡ sent s ++ b
  pub incoming-write_all : (s : Socket) (b : Bytes) → incoming (write_all s b).1 ≡ incoming s
