-- ===== src/Worker/Refines.antt =====
-- The worker against its specification: a history of writes, whose last write of a key decides.
use mini_db.Prelude.{
  ℕ, ◌+◌, ◌%◌, ◌≡◌, refl, sym, ap, ◌∙◌, true, inl, inr, Bool-cases, none, List, [], ◌∷◌, ◌++◌,
  append-nil, append_assoc, max, ◌==◌, All, All-split, arith,
}
use mini_db.Bytes.{Bytes}
use mini_db.Map.{get, get-nil, contains_key, insert, remove}
use mini_db.Result.{ok, err}
use mini_db.Crc.{Crc32}
use mini_db.Storage.{Storage, CanWrite}
use mini_db.Packet.{info_to_bytes}
use mini_db.Wal.{op_set, op_delete, append, size_on_disk}
use mini_db.Wal.History.{
  Write, set, delete, op_of, key_of, value_of, IsLoggable, apply, replay, replay-append, latest,
  get-replay, encode,
}
use mini_db.Wal.Synced.{IsSynced, append-IsSynced}
use mini_db.Wal.Synced.Fsync.{fsync-IsSynced, fsync-ok}
use mini_db.Worker.{
  Query, info, get_key, set_key, delete_key, done_reply, Worker, Step, sync_due, log_write,
  answer_set, answer_delete, handle_query, execute_loop, execute_queries,
}
use mini_db.Worker.Spec.{logged, all_logged, value_reply, delete_reply, reply_after, replies_after}

latest-replay : (k : Bytes) (ws : List Write) → get k (replay ws []) ≡ latest k ws none
latest-replay k ws = get-replay k ws [] ∙ ap (latest k ws) (get-nil k)

replay-snoc : (ws : List Write) (x : Write) → replay (ws ++ x ∷ []) [] ≡ apply x (replay ws [])
unfolding replay apply
replay-snoc ws x = replay-append ws (x ∷ []) []

module _ ⦃crc : Crc32⦄ ⦃disk : Storage⦄ where
  answer_set-ok :
      (key value : Bytes) (s : Step (Unit {0}))
      → s.0 ≡ ok tt
      → answer_set key value s
        ≡ (ok done_reply, s.1, record s.2 { memory_index = insert key value s.2.memory_index })
  unfolding answer_set
  answer_set-ok key value (ok u, writes, w) e = refl
  answer_set-ok key value (err x, writes, w) e = cc

  answer_delete-ok :
      (key : Bytes) (s : Step (Unit {0}))
      → s.0 ≡ ok tt
      → answer_delete key s ≡ (
        ok (delete_reply (get key s.2.memory_index)),
        s.1,
        record s.2 { memory_index = remove key s.2.memory_index },
      )
  unfolding answer_delete contains_key
  answer_delete-ok key (ok u, writes, w) e = ground arith
  answer_delete-ok key (err x, writes, w) e = cc

  -- The log and the index are those of the writes `ws`.
  pub record InStep (ws : List Write) (w : Worker) : Type 0 where
    pub synced : IsSynced ws w.wal
    pub indexed : w.memory_index ≡ replay ws []

  module _ (writes_work : CanWrite disk)
      (sync_works : (f : disk.File) → (disk.sync_all f).0 ≡ true) where
    sync_due-IsSynced :
        (interval writes : ℕ) (ws : List Write) (w : Worker)
        → IsSynced ws w.wal
        → ((sync_due interval writes w).0 ≡ ok tt)
          × ((sync_due interval writes w).2.memory_index ≡ w.memory_index)
          × IsSynced ws (sync_due interval writes w).2.wal
    unfolding sync_due
    sync_due-IsSynced interval writes ws w synced = elim (Bool-cases (writes % interval == 0)) [
      | inr later ↦ rw later (refl, refl, synced)
      | inl due ↦ rw due (
        fsync-ok w.wal (writes_work.flush_works w.wal.file) (sync_works (disk.flush w.wal.file).1),
        refl,
        fsync-IsSynced ws w.wal (writes_work.flush_works w.wal.file) synced,
      )
    ]

    log_write-IsSynced :
        (interval writes : ℕ) (ws : List Write) (x : Write) (w : Worker)
        → IsLoggable x
        → IsSynced ws w.wal
        → ((log_write interval (op_of x) (key_of x) (value_of x) writes w).0 ≡ ok tt)
          × ((log_write interval (op_of x) (key_of x) (value_of x) writes w).2.memory_index
              ≡ w.memory_index)
          × IsSynced
              (ws ++ x ∷ [])
              (log_write interval (op_of x) (key_of x) (value_of x) writes w).2.wal
    unfolding log_write
    log_write-IsSynced interval writes ws x w l synced =
        let (returned, now_synced) =
          append-IsSynced ws x w.wal synced l (writes_work.write_all_works w.wal.file (encode x))
            (writes_work.flush_works (disk.write_all w.wal.file (encode x)).1) in
        rw (returned, log_write)
          (sync_due-IsSynced interval (writes + 1) (ws ++ x ∷ [])
            (record w { wal = (append w.wal (op_of x) (key_of x) (value_of x)).1 }) now_synced)

    handle_query-info :
        (interval writes : ℕ) (ws : List Write) (w : Worker)
        → InStep ws w
        → (handle_query interval info writes w).0 ≡ ok (reply_after ws info)
    unfolding handle_query size_on_disk info_to_bytes
    handle_query-info interval writes ws w h = rw (h.synced.counts_bytes, h.indexed)

    handle_query-set :
        (interval writes : ℕ) (ws : List Write) (w : Worker) (key value : Bytes)
        → IsLoggable (set key value)
        → InStep ws w
        → ((handle_query interval (set_key key value) writes w).0 ≡ ok done_reply)
          × InStep (ws ++ set key value ∷ []) (handle_query interval (set_key key value) writes w).2
    unfolding handle_query apply
    handle_query-set interval writes ws w key value l h =
        let (returned, kept, now_synced) =
          log_write-IsSynced interval writes ws (set key value) w l h.synced in
        rw (answer_set-ok key value (log_write interval op_set key value writes w) returned) (
          refl,
          record {
            synced = now_synced;
            indexed =
                ap (insert key value) (kept ∙ h.indexed) ∙ sym (replay-snoc ws (set key value));
          },
        )

    handle_query-delete :
        (interval writes : ℕ) (ws : List Write) (w : Worker) (key : Bytes)
        → IsLoggable (delete key)
        → InStep ws w
        → ((handle_query interval (delete_key key) writes w).0
            ≡ ok (reply_after ws (delete_key key)))
          × InStep (ws ++ delete key ∷ []) (handle_query interval (delete_key key) writes w).2
    unfolding handle_query apply
    handle_query-delete interval writes ws w key l h =
        let (returned, kept, now_synced) =
          log_write-IsSynced interval writes ws (delete key) w l h.synced in
        rw (answer_delete-ok key (log_write interval op_delete key [] writes w) returned) (
          ap (λ m. ok (delete_reply (get key m))) (kept ∙ h.indexed)
              ∙ ap (λ o. ok (delete_reply o)) (latest-replay key ws),
          record {
            synced = now_synced;
            indexed = ap (remove key) (kept ∙ h.indexed) ∙ sym (replay-snoc ws (delete key));
          },
        )

    -- On a disk that works, a worker in step with `ws` answers a query as the writes `ws` say, and is
    -- in step with `ws` and the write of the query.
    pub handle_query-refines :
        (interval writes : ℕ) (ws : List Write) (w : Worker) (q : Query)
        → All IsLoggable (logged q)
        → InStep ws w
        → ((handle_query interval q writes w).0 ≡ ok (reply_after ws q))
          × InStep (ws ++ logged q) (handle_query interval q writes w).2
    unfolding handle_query
    handle_query-refines interval writes ws w info l h = (
      handle_query-info interval writes ws w h,
      rw (append-nil ws) (record { synced = h.synced; indexed = h.indexed }),
    )
    handle_query-refines interval writes ws w (get_key key) l h = (
      ap (λ m. ok (value_reply (get key m))) h.indexed
          ∙ ap (λ o. ok (value_reply o)) (latest-replay key ws),
      rw (append-nil ws) h,
    )
    handle_query-refines interval writes ws w (set_key key value) l h =
        handle_query-set interval writes ws w key value l.0 h
    handle_query-refines interval writes ws w (delete_key key) l h =
        handle_query-delete interval writes ws w key l.0 h

    execute_loop-refines :
        (interval : ℕ) (qs : List Query) (writes : ℕ) (ws : List Write) (w : Worker)
        → All IsLoggable (all_logged qs)
        → InStep ws w
        → ((execute_loop interval qs writes w).0 ≡ replies_after ws qs)
          × InStep (ws ++ all_logged qs) (execute_loop interval qs writes w).1
    unfolding execute_loop
    execute_loop-refines interval [] writes ws w l h = (refl, rw (append-nil ws) h)
    execute_loop-refines interval (q ∷ qs) writes ws w l h =
        let step = handle_query interval q writes w in
        let (lq, lqs) = All-split IsLoggable (logged q) (all_logged qs) l in
        let (answered, after) = handle_query-refines interval writes ws w q lq h in
        let (rest, final) =
          execute_loop-refines interval qs step.1 (ws ++ logged q) step.2 lqs after in
        (rw (answered, rest), rw (append_assoc ws (logged q) (all_logged qs)) at final)

    -- On a disk that works, a worker in step with `ws` gives every query of its queue the reply that
    -- the writes `ws` and those of the queries before it determine, and after its last fsync the log
    -- and the index are those of all these writes.
    pub execute_queries-refines :
        (qs : List Query) (ws : List Write) (w : Worker)
        → All IsLoggable (all_logged qs)
        → InStep ws w
        → ((execute_queries qs w).0 ≡ replies_after ws qs)
          × InStep (ws ++ all_logged qs) (execute_queries qs w).1
    unfolding execute_queries
    execute_queries-refines qs ws w l h =
        let loop = execute_loop (max w.fsync_interval 1) qs 0 w in
        let (replies, after) = execute_loop-refines (max w.fsync_interval 1) qs 0 ws w l h in
        (
          replies,
          record {
            synced =
                fsync-IsSynced (ws ++ all_logged qs) loop.1.wal
                  (writes_work.flush_works loop.1.wal.file) after.synced;
            indexed = after.indexed;
          },
        )
