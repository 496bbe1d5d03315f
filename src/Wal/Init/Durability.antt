-- ===== src/Wal/Init/Durability.antt =====
-- Appends and restarts together: what was appended is there after a restart, and an append that
-- failed is there whole or not at all.
use mini_db.Prelude.{
  ℕ, zero, suc, ◌≤◌, ◌≡◌, ◌⊎◌, refl, sym, ap, ◌∙◌, true, false, inl, inr, Bool-cases, none, List,
  [], ◌∷◌, ◌++◌, length, take, append-nil, append_assoc, arith, All, All-append, ltb,
}
use mini_db.Bytes.{Bytes}
use mini_db.Map.{Map, get, get-nil}
use mini_db.Result.{ok}
use mini_db.Crc.{Crc32}
use mini_db.Storage.{Storage, CanRecover, CanWrite}
use mini_db.Wal.{Wal, append}
use mini_db.Wal.History.{
  Write, op_of, key_of, value_of, IsLoggable, entry_len, replay, latest, get-replay, encode,
  encode_all, length-encode,
}
use mini_db.Wal.Init.{init}
use mini_db.Wal.Init.Recovery.{Recovers, init-encode_all, init_torn}
use mini_db.Wal.Synced.{
  IsSynced, IsTorn, encode_all-snoc, append-IsSynced, append_write_failed, append_flush_failed,
}

take_past : (n : ℕ) (l : Bytes) → length l ≤ n → take n l ≡ l
take_past zero [] h = refl
take_past zero (x ∷ l) h = absurd (omega arith)
take_past (suc n) [] h = refl
take_past (suc n) (x ∷ l) h = ap (λ t. x ∷ t) (take_past n l (omega arith))

module _ ⦃crc : Crc32⦄ ⦃disk : Storage⦄ where
  open disk use {File, contents, write_all, flush}

  -- The handle after some appends, whatever they return.
  pub append_all : List Write → Wal → Wal
  append_all [] w = w
  append_all (x ∷ xs) w = append_all xs (append w (op_of x) (key_of x) (value_of x)).1

  module _ (writes : CanWrite disk) where
    append_all-IsSynced :
        (xs ws : List Write) (w : Wal)
        → All IsLoggable xs
        → IsSynced ws w
        → IsSynced (ws ++ xs) (append_all xs w)
    unfolding append_all
    append_all-IsSynced [] ws w l synced = rw (append-nil ws) synced
    append_all-IsSynced (x ∷ xs) ws w l synced =
        let first =
          append-IsSynced ws x w synced l.0 (writes.write_all_works w.file (encode x))
            (writes.flush_works (write_all w.file (encode x)).1) in
        rw (append_assoc ws (x ∷ []) xs) at (
          append_all-IsSynced xs (ws ++ x ∷ []) (append w (op_of x) (key_of x) (value_of x)).1 l.1
            first.1)

    module _ (works : CanRecover disk) where
      -- Loggable writes, appended to a handle that is in step with `ws` on a disk that takes them, are
      -- read back by `init`: the index holds under each key what the last write of the key says.
      pub appends_survive :
          (path : Bytes) (xs ws : List Write) (w : Wal)
          → All IsLoggable ws
          → All IsLoggable xs
          → IsSynced ws w
          → (w' : Wal) × (m : Map Bytes) × (init path (append_all xs w).file ≡ ok (w', m))
            × ((k : Bytes) → get k m ≡ latest k (ws ++ xs) none)
            × (w'.entry_count ≡ length (ws ++ xs))
            × (w'.file_len ≡ length (encode_all (ws ++ xs)))
      appends_survive path xs ws w lw lx synced =
          let after = append_all-IsSynced xs ws w lx synced in
          let (w', started, synced') =
            init-encode_all works path (append_all xs w).file (ws ++ xs)
              (All-append IsLoggable ws xs lw lx) after.on_file in
          (
            w',
            replay (ws ++ xs) [],
            started,
            (λ k. get-replay k (ws ++ xs) [] ∙ ap (latest k (ws ++ xs)) (get-nil k)),
            synced'.counts_entries,
            synced'.counts_bytes,
          )

  module _ (works : CanRecover disk) (path : Bytes) (ws : List Write) (x : Write) (w : Wal)
      (l : All IsLoggable ws) (lx : IsLoggable x) where
    torn_restart :
        (w' : Wal)
        → IsTorn ws x w w'
        → Recovers path w'.file ws ⊎ Recovers path w'.file (ws ++ x ∷ [])
    torn_restart w' torn = elim (Bool-cases (ltb torn.size (entry_len x))) [
      | inl part ↦
          inl (init_torn works path w'.file ws l x torn.size lx (ground arith) torn.on_file)
      | inr all ↦ inr (
          init-encode_all works path w'.file (ws ++ x ∷ [])
            (All-append IsLoggable ws (x ∷ []) l (lx, tt))
            (torn.on_file
              ∙ ap (λ t. encode_all ws ++ t)
                  (take_past torn.size (encode x) (ground (arith, length-encode x)))
              ∙ sym (encode_all-snoc ws x)))
    ]

    -- An append of a loggable write to a handle in step with loggable writes that fails, at the write
    -- or at the flush, is all or nothing: a restart, on a disk that works again, gives the index
    -- without the write, or with it.
    pub failed_append_is_atomic :
        (synced : IsSynced ws w)
        → ((write_all w.file (encode x)).0 ≡ false)
          ⊎ (((write_all w.file (encode x)).0 ≡ true)
              × ((flush (write_all w.file (encode x)).1).0 ≡ false))
        → let f = (append w (op_of x) (key_of x) (value_of x)).1.file in
          Recovers path f ws ⊎ Recovers path f (ws ++ x ∷ [])
    failed_append_is_atomic synced (inl refused) =
        torn_restart _ (append_write_failed ws x w synced lx refused).1
    failed_append_is_atomic synced (inr (wrote, lost)) =
        torn_restart _ (append_flush_failed ws x w synced lx wrote lost).1
