-- ===== src/Stream/Io.antt =====
-- Code that reads and writes a socket and may fail: an error ends it, as `?` does, and the socket
-- stays as it was left.
use mini_db.Prelude.{ℕ, [], ◌∷◌}
use mini_db.Bytes.{Bytes, to_le_bytes}
use mini_db.Result.{Error, io, Result, ok, err}
use mini_db.Stream.Defs.{Outcome, got, failed, Stream}

abbrev pub result {ℓ} : {A : Type ℓ} → Outcome A → Result A
result (got a) = ok a
result (failed e) = err (io e)

module _ ⦃net : Stream⦄ where
  open net use {Socket}

  abbrev pub Io {ℓ} : Type ℓ → Type ℓ
  Io A = Socket → Result A × Socket

  abbrev pub pure {ℓ} : {A : Type ℓ} → A → Io A
  pure a s = (ok a, s)

  abbrev pub raise {ℓ} : {A : Type ℓ} → Error → Io A
  raise e s = (err e, s)

  abbrev pub continue {ℓ κ} :
      {A : Type ℓ} {B : Type κ} → Result A → (A → Io B) → Socket → Result B × Socket
  continue (ok a) f s = f a s
  continue (err e) f s = (err e, s)

  infixl 5 ◌>>=◌ ◌>>◌
  abbrev pub ◌>>=◌ {ℓ κ} : {A : Type ℓ} {B : Type κ} → Io A → (A → Io B) → Io B
  ◌>>=◌ m f s = continue (m s).0 f (m s).1

  abbrev pub ◌>>◌ {ℓ κ} : {A : Type ℓ} {B : Type κ} → Io A → Io B → Io B
  ◌>>◌ m k s = continue (m s).0 (λ _. k) (m s).1

  abbrev pub read_u8 : Io ℕ
  read_u8 s = (result (net.read_u8 s).0, (net.read_u8 s).1)

  abbrev pub read_u32_le : Io ℕ
  read_u32_le s = (result (net.read_u32_le s).0, (net.read_u32_le s).1)

  abbrev pub read_exact : ℕ → Io Bytes
  read_exact n s = (result (net.read_exact s n).0, (net.read_exact s n).1)

  abbrev pub write_all : Bytes → Io (Unit {0})
  write_all b s = (result (net.write_all s b).0, (net.write_all s b).1)

  abbrev pub write_u8 : ℕ → Io (Unit {0})
  write_u8 b = write_all (b ∷ [])

  abbrev pub write_u32_le : ℕ → Io (Unit {0})
  write_u32_le n = write_all (to_le_bytes n)
