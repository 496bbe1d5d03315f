-- ===== src/Tests/Sim.antt =====
-- Concrete instances of the interfaces: a checksum, disks that can fail, and a connection.
use mini_db.Prelude.{
  ℕ, ◌+◌, ◌*◌, ◌%◌, ◌^◌, ◌≤◌, ◌<◌, ◌≡◌, refl, Bool, true, false, Option, none, some, [], ◌∷◌, ◌++◌,
  length, length-append, take, drop, take-append_length, drop-append_length, leb, if◌then◌else◌,
  arith,
}
use mini_db.Bytes.{Bytes, from_le_bytes}
use mini_db.Crc.{Crc32}
use mini_db.Storage.{Storage, CanRecover, CanWrite, write_at}
use mini_db.Result.{IoError, unexpected_eof}
use mini_db.Stream.{Stream, Outcome, got, failed}

abbrev feed : ℕ → Bytes → ℕ
feed h [] = h
feed h (b ∷ bs) = feed ((h * 31 + b + 7) % 2 ^ 32) bs

instance abbrev pub sim_crc : Crc32
sim_crc = record {
  Hasher = ℕ;
  default = 0;
  update = feed;
  finalize = λ h. h % 2 ^ 32;
  reset = λ h. 0;
  finalize-lt = λ h. omega arith;
  reset-eq = λ h. refl;
}

pub record SimFile : Type 0 where
  pub bytes : Bytes
  pub position : ℕ

abbrev pub file_of : Bytes → SimFile
file_of b = record { bytes = b; position = 0 }

abbrev fits : Option ℕ → Bytes → Bool
fits none b = true
fits (some limit) b = leb (length b) limit

abbrev put : SimFile → Bytes → SimFile
put f b = record { bytes = write_at f.bytes f.position b; position = f.position + length b }

-- A write of more than `limit` bytes fails behind its first byte.
abbrev sim_write : Option ℕ → SimFile → Bytes → Bool × SimFile
sim_write limit f b = if fits limit b then (true, put f b) else (false, put f (take 1 b))

pub sim_write_contents :
    (limit : Option ℕ) (f : SimFile) (b : Bytes)
    → (sim_write limit f b).0 ≡ true
    → (sim_write limit f b).1.bytes ≡ write_at f.bytes f.position b
sim_write_contents limit f b h = ground arith

pub sim_write_position :
    (limit : Option ℕ) (f : SimFile) (b : Bytes)
    → (sim_write limit f b).0 ≡ true
    → (sim_write limit f b).1.position ≡ f.position + length b
sim_write_position limit f b h = ground arith

pub sim_write_failed :
    (limit : Option ℕ) (f : SimFile) (b : Bytes)
    → (sim_write limit f b).0 ≡ false
    → (n : ℕ) × (n ≤ length b)
      × ((sim_write limit f b).1.bytes ≡ write_at f.bytes f.position (take n b))
      × ((sim_write limit f b).1.position ≡ f.position + n)
sim_write_failed none f b h = cc
sim_write_failed (some limit) f [] h = ground arith
sim_write_failed (some limit) f (x ∷ b) h = (1, omega arith, ground arith, ground arith)

pub flush_works : true ≡ false → ⊥
flush_works e = cc

pub mapped : (f : SimFile) (b : Bytes) → some f.bytes ≡ some b → b ≡ f.bytes
mapped f b h = cc

module _ (limit : Option ℕ) (syncs : Bool) where
  -- A disk on which only short writes succeed, if a limit is given, and syncs do or do not.
  abbrev pub sim_disk : Storage
  sim_disk = record {
    File = SimFile;
    contents = λ f. f.bytes;
    cursor = λ f. f.position;
    write_all = sim_write limit;
    flush = λ f. (true, f);
    sync_all = λ f. (syncs, f);
    set_len = λ f n. (true, record f { bytes = take n f.bytes });
    seek_start = λ f n. (true, record f { position = n });
    seek_end = λ f. (true, record f { position = length f.bytes });
    mmap = λ f. some f.bytes;
    contents-write_all = sim_write_contents limit;
    cursor-write_all = sim_write_position limit;
    contents-write_all_failed = sim_write_failed limit;
    contents-flush = λ f h. refl;
    cursor-flush = λ f h. refl;
    contents-sync_all = λ f. refl;
    cursor-sync_all = λ f. refl;
    contents-flush_failed = λ f b h e. absurd (flush_works e);
    contents-set_len = λ f n h e. refl;
    contents-seek_start = λ f n. refl;
    cursor-seek_start = λ f n h. refl;
    contents-seek_end = λ f. refl;
    cursor-seek_end = λ f h. refl;
    mmap_contents = λ f b h. mapped f b h;
  }

pub sim_can_recover : (limit : Option ℕ) → CanRecover (sim_disk limit true)
sim_can_recover limit = record {
  sync_all_works = λ f. refl;
  set_len_works = λ f n. refl;
  seek_start_works = λ f n. refl;
  seek_end_works = λ f. refl;
  mmap_works = λ f. refl;
}

pub sim_can_write : (syncs : Bool) → CanWrite (sim_disk none syncs)
sim_can_write syncs = record { write_all_works = λ f b. refl; flush_works = λ f. refl }

-- A connection: what the peer has still to send, and what was sent to it.
pub record SimSocket : Type 0 where
  pub inbox : Bytes
  pub outbox : Bytes

abbrev sim_u8 : SimSocket → Outcome ℕ × SimSocket
sim_u8 s = elim s.inbox [
  | [] ↦ (failed unexpected_eof, s)
  | b ∷ rest ↦ (got b, record s { inbox = rest })
]

abbrev word_of : Bytes → Option (ℕ × Bytes)
word_of (a ∷ b ∷ c ∷ d ∷ rest) = some (from_le_bytes a b c d, rest)
word_of _ = none

abbrev sim_u32 : SimSocket → Outcome ℕ × SimSocket
sim_u32 s = elim (word_of s.inbox) [
  | none ↦ (failed unexpected_eof, s)
  | some (n, rest) ↦ (got n, record s { inbox = rest })
]

abbrev sim_exact : SimSocket → ℕ → Outcome Bytes × SimSocket
sim_exact s n =
    if leb n (length s.inbox)
    then (got (take n s.inbox), record s { inbox = drop n s.inbox })
    else (failed unexpected_eof, s)

pub sim_exact_got :
    (s : SimSocket) (bytes rest : Bytes)
    → s.inbox ≡ bytes ++ rest
    → ((sim_exact s (length bytes)).0 ≡ got bytes) × ((sim_exact s (length bytes)).1.inbox ≡ rest)
sim_exact_got s bytes rest h =
    ground (
      arith,
      length-append bytes rest,
      take-append_length bytes rest,
      drop-append_length bytes rest,
    )

pub sim_u8_got :
    (s : SimSocket) (b : ℕ) (rest : Bytes)
    → s.inbox ≡ b ∷ rest
    → ((sim_u8 s).0 ≡ got b) × ((sim_u8 s).1.inbox ≡ rest)
sim_u8_got s b rest h = rw h (ground arith)

pub sim_u32_got :
    (s : SimSocket) (a b c d : ℕ) (rest : Bytes)
    → s.inbox ≡ a ∷ b ∷ c ∷ d ∷ rest
    → ((sim_u32 s).0 ≡ got (from_le_bytes a b c d)) × ((sim_u32 s).1.inbox ≡ rest)
sim_u32_got s a b c d rest h = rw h (refl, refl)

pub sim_u8_sent : (s : SimSocket) → (sim_u8 s).1.outbox ≡ s.outbox
sim_u8_sent s = ground arith

pub sim_u32_sent : (s : SimSocket) → (sim_u32 s).1.outbox ≡ s.outbox
sim_u32_sent s = ground arith

pub sim_exact_sent : (s : SimSocket) (n : ℕ) → (sim_exact s n).1.outbox ≡ s.outbox
sim_exact_sent s n = ground arith

pub sim_u8_end : (s : SimSocket) → s.inbox ≡ [] → (e : IoError) × ((sim_u8 s).0 ≡ failed e)
sim_u8_end s h = (unexpected_eof, ground arith)

word_of_short : (b : Bytes) → length b < 4 → word_of b ≡ none
word_of_short [] h = refl
word_of_short (a ∷ []) h = refl
word_of_short (a ∷ b ∷ []) h = refl
word_of_short (a ∷ b ∷ c ∷ []) h = refl
word_of_short (a ∷ b ∷ c ∷ d ∷ rest) h = absurd (omega arith)

pub sim_u32_end : (s : SimSocket) → length s.inbox < 4 → (e : IoError) × ((sim_u32 s).0 ≡ failed e)
sim_u32_end s h = (unexpected_eof, rw (sim_u32, word_of_short s.inbox h) refl)

pub sim_exact_end :
    (s : SimSocket) (n : ℕ) → length s.inbox < n → (e : IoError) × ((sim_exact s n).0 ≡ failed e)
sim_exact_end s n h = (unexpected_eof, ground arith)

instance abbrev pub sim_net : Stream
sim_net = record {
  Socket = SimSocket;
  incoming = λ s. s.inbox;
  sent = λ s. s.outbox;
  read_u8 = sim_u8;
  read_u32_le = sim_u32;
  read_exact = sim_exact;
  write_all = λ s b. (got tt, record s { outbox = s.outbox ++ b });
  read_u8-got = sim_u8_got;
  read_u32_le-got = sim_u32_got;
  read_exact-got = sim_exact_got;
  sent-read_u8 = sim_u8_sent;
  sent-read_u32_le = sim_u32_sent;
  sent-read_exact = sim_exact_sent;
  read_u8-end = sim_u8_end;
  read_u32_le-end = sim_u32_end;
  read_exact-end = sim_exact_end;
  sent-write_all = λ s b h. refl;
  incoming-write_all = λ s b. refl;
}
