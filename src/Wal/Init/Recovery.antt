-- ===== src/Wal/Init/Recovery.antt =====
-- What `Wal::init` makes of a file: after a clean end, after a write that was cut off, after
-- corruption of the tail, and on bytes of any kind.
use mini_db.Prelude.{
  ℕ, ◌+◌, ◌<◌, ◌≡◌, ◌≢◌, refl, sym, ap, ◌∙◌, true, false, inl, inr, Bool-cases, List, [], ◌∷◌, ◌++◌,
  length, take, take-append_length, append-nil, length-append, arith, All, ltb, ◌==◌, if◌then◌else◌,
}
use mini_db.Bytes.{Bytes, AreBytes}
use mini_db.Result.{ok}
use mini_db.Crc.{Crc32}
use mini_db.Storage.{Storage, CanRecover}
use mini_db.Wal.{Wal}
use mini_db.Wal.History.{Write, IsLoggable, entry_len, replay, encode, encode_all}
use mini_db.Wal.Scan.{done, scan}
use mini_db.Wal.Scan.Replays.{state, Ends, scan-encode_all, length-le-encode_all}
use mini_db.Wal.Scan.Stops.{Ends-short, Ends-take}
use mini_db.Wal.Scan.Sound.{scan_total}
use mini_db.Wal.Init.{init, fresh}
use mini_db.Wal.Synced.{IsSynced}

nil_of_length {ℓ} : {A : Type ℓ} (l : List A) → length l ≡ 0 → l ≡ []
nil_of_length [] h = refl
nil_of_length (x ∷ l) h = absurd (omega arith)

module _ ⦃crc : Crc32⦄ ⦃disk : Storage⦄ where
  -- `init` returns the index of `ws` and a handle in step with `ws`.
  abbrev pub Recovers : Bytes → disk.File → List Write → Type 0
  Recovers path f ws = (w : Wal) × (init path f ≡ ok (w, replay ws [])) × IsSynced ws w

module _ ⦃crc : Crc32⦄ ⦃disk : Storage⦄ (works : CanRecover disk) where
  open disk use {File, contents, cursor, seek_end, set_len, sync_all, seek_start}

  -- The handle on a file behind the entries of `ws`.
  handle : Bytes → File → List Write → Wal
  handle path f ws = record {
    file = f;
    file_path = path;
    file_len = length (encode_all ws);
    entry_count = length ws;
    crc32_hasher = crc.default;
    write_buf = [];
  }

  -- `init` in terms of the loop's result, where no call fails.
  init-handle :
      (path : Bytes) (f : File) (ws : List Write)
      → cursor (seek_end f).1 ≢ 0
      → scan (contents (seek_end f).1)
        ≡ done (state (length (encode_all ws)) (length ws) (replay ws []))
      → init path f ≡ (
          if ltb (length (encode_all ws)) (cursor (seek_end f).1)
          then ok (
            handle path
                (seek_start
                  (sync_all (set_len (seek_end f).1 (length (encode_all ws))).1).1
                  (length (encode_all ws))).1
                ws,
            replay ws [],
          )
          else ok (handle path (seek_end f).1 ws, replay ws []))
  unfolding init handle
  init-handle path f ws some_bytes scanned =
      rw
        (
          works.seek_end_works f,
          works.mmap_works (seek_end f).1,
          scanned,
          works.set_len_works (seek_end f).1 (length (encode_all ws)),
          works.sync_all_works (set_len (seek_end f).1 (length (encode_all ws))).1,
          works.seek_start_works (sync_all (set_len (seek_end f).1 (length (encode_all ws))).1).1
              (length (encode_all ws)),
          init,
        )
        (ground arith)

  module _ (path : Bytes) (f : File) (ws : List Write) (tail : Bytes) (l : All IsLoggable ws)
      (holds : contents f ≡ encode_all ws ++ tail) (ends : Ends tail) where
    abbrev f1 : File
    f1 = (seek_end f).1

    abbrev size : ℕ
    size = length (encode_all ws)

    sought : contents f1 ≡ encode_all ws ++ tail
    sought = disk.contents-seek_end f ∙ holds

    at_end : cursor f1 ≡ size + length tail
    at_end =
        disk.cursor-seek_end f (works.seek_end_works f)
        ∙ ap length sought
        ∙ length-append (encode_all ws) tail

    abbrev f3 : File
    f3 = (seek_start (sync_all (set_len f1 size).1).1 size).1

    cut_back : contents f3 ≡ encode_all ws
    cut_back =
        disk.contents-seek_start (sync_all (set_len f1 size).1).1 size
        ∙ disk.contents-sync_all (set_len f1 size).1
        ∙ disk.contents-set_len f1 size
            (omega (arith, ap length sought, length-append (encode_all ws) tail))
            (works.set_len_works f1 size)
        ∙ ap (take size) sought
        ∙ take-append_length (encode_all ws) tail

    Recovers-truncated :
        cursor f1 ≢ 0
        → scan (contents f1) ≡ done (state size (length ws) (replay ws []))
        → ltb size (cursor f1) ≡ true
        → Recovers path f ws
    unfolding handle
    Recovers-truncated some_bytes scanned longer = (
      handle path f3 ws,
      init-handle path f ws some_bytes scanned ∙ rw longer,
      record {
        on_file = cut_back;
        at_end =
            disk.cursor-seek_start (sync_all (set_len f1 size).1).1 size
              (works.seek_start_works (sync_all (set_len f1 size).1).1 size);
        counts_bytes = refl;
        counts_entries = refl;
        fresh_hasher = refl;
      },
    )

    Recovers-whole :
        cursor f1 ≢ 0
        → scan (contents f1) ≡ done (state size (length ws) (replay ws []))
        → ltb size (cursor f1) ≡ false
        → Recovers path f ws
    unfolding handle
    Recovers-whole some_bytes scanned whole =
        let no_tail : length tail ≡ 0 = ground (arith, at_end) in
        (
          handle path f1 ws,
          init-handle path f ws some_bytes scanned ∙ rw whole,
          record {
            on_file =
                sought
                ∙ ap (λ t. encode_all ws ++ t) (nil_of_length tail no_tail)
                ∙ append-nil (encode_all ws);
            at_end = omega (arith, at_end);
            counts_bytes = refl;
            counts_entries = refl;
            fresh_hasher = refl;
          },
        )

    Recovers-empty : cursor f1 ≡ 0 → Recovers path f ws
    unfolding init fresh replay
    Recovers-empty zero =
        let no_writes : ws ≡ [] =
          nil_of_length ws (omega (arith, length-le-encode_all ws, at_end)) in
        let no_tail : length tail ≡ 0 = omega (arith, at_end) in
        (
          fresh path f1,
          rw (works.seek_end_works f, zero, init)
              (ap (λ v. ok (fresh path f1, replay v [])) (sym no_writes)),
          record {
            on_file =
                sought
                ∙ ap (λ t. encode_all ws ++ t) (nil_of_length tail no_tail)
                ∙ append-nil (encode_all ws);
            at_end = omega (arith, at_end);
            counts_bytes = omega (arith, at_end);
            counts_entries = ap length (sym no_writes);
            fresh_hasher = refl;
          },
        )

    -- Where a file holds the entries of `ws` and a tail in front of which the loop ends, `init`
    -- gives the index of `ws`, and a handle that is in step with `ws`.
    pub init-Recovers : Recovers path f ws
    init-Recovers = elim (Bool-cases (cursor f1 == 0)) [
      | inl zero ↦ Recovers-empty (ground arith)
      | inr some_bytes ↦ elim (Bool-cases (ltb size (cursor f1))) [
        | inl longer ↦ Recovers-truncated (ground arith) scanned longer
        | inr whole ↦ Recovers-whole (ground arith) scanned whole
      ]
    ]
      where
        scanned : scan (contents f1) ≡ done (state size (length ws) (replay ws []))
        scanned = ap scan sought ∙ scan-encode_all ws tail l ends

  -- On a disk that works and a file of any bytes, `init` returns: the file is the entries of some writes and a tail in
  -- front of which the loop ends, the index is that of the writes, and the handle is in step with
  -- them.
  pub init_total :
      (path : Bytes) (f : File)
      → AreBytes (contents f)
      → (ws : List Write) × (tail : Bytes) × All IsLoggable ws
        × (contents f ≡ encode_all ws ++ tail)
        × Ends tail
        × (w : Wal) × (init path f ≡ ok (w, replay ws []))
        × IsSynced ws w
  init_total path f bytes =
      let (ws, tail, l, e, ends, scanned) = scan_total (contents f) bytes in
      let (w, started, synced) = init-Recovers path f ws tail l e ends in
      (ws, tail, l, e, ends, w, started, synced)

  module _ (path : Bytes) (f : File) (ws : List Write) (l : All IsLoggable ws) where
    -- A clean file gives back its writes.
    pub init-encode_all : contents f ≡ encode_all ws → Recovers path f ws
    init-encode_all e =
        init-Recovers path f ws [] l (e ∙ sym (append-nil (encode_all ws)))
          (Ends-short [] (omega arith))

    -- On a disk that works, the entries of loggable writes and a proper prefix of the entry of a
    -- loggable `x`, as a crash in the middle of its append leaves, are recovered as the writes
    -- without `x`.
    pub init_torn :
        (x : Write) (n : ℕ)
        → IsLoggable x
        → n < entry_len x
        → contents f ≡ encode_all ws ++ take n (encode x)
        → Recovers path f ws
    init_torn x n lx h e = init-Recovers path f ws (take n (encode x)) l e (Ends-take x n lx h)
