-- ===== src/Worker/Interval.antt =====
-- No query changes the interval of a worker's fsyncs.
use mini_db.Prelude.{ℕ, ◌+◌, ◌%◌, ◌==◌, ◌≡◌, refl, ◌∙◌, Bool-cases, inl, inr, []}
use mini_db.Bytes.{Bytes}
use mini_db.Result.{Result, ok, err}
use mini_db.Crc.{Crc32}
use mini_db.Storage.{Storage}
use mini_db.Wal.{append, op_set, op_delete}
use mini_db.Worker.{
  Query, info, get_key, set_key, delete_key, Worker, Step, sync_due, log_write, answer_set,
  answer_delete, handle_query,
}

module _ ⦃crc : Crc32⦄ ⦃disk : Storage⦄ where
  sync_due-fsync_interval :
      (interval writes : ℕ) (w : Worker)
      → (sync_due interval writes w).2.fsync_interval ≡ w.fsync_interval
  unfolding sync_due
  sync_due-fsync_interval interval writes w = elim (Bool-cases (writes % interval == 0)) [
    | inl due ↦ rw (sync_due, due) refl
    | inr later ↦ rw (sync_due, later) refl
  ]

  log_write-fsync_interval :
      (interval op : ℕ) (key value : Bytes) (writes : ℕ) (w : Worker)
      → (log_write interval op key value writes w).2.fsync_interval ≡ w.fsync_interval
  unfolding log_write
  log_write-fsync_interval interval op key value writes w =
      by_append (append w.wal op key value).0 refl
    where
      by_append :
          (r : Result ℕ)
          → (append w.wal op key value).0 ≡ r
          → (log_write interval op key value writes w).2.fsync_interval ≡ w.fsync_interval
      by_append (err e) h = rw (log_write, h) refl
      by_append (ok offset) h = rw (log_write, h) (sync_due-fsync_interval interval (writes + 1) _)

  answer_set-fsync_interval :
      (key value : Bytes) (s : Step (Unit {0}))
      → (answer_set key value s).2.fsync_interval ≡ s.2.fsync_interval
  unfolding answer_set
  answer_set-fsync_interval key value (err e, writes, w) = refl
  answer_set-fsync_interval key value (ok u, writes, w) = refl

  answer_delete-fsync_interval :
      (key : Bytes) (s : Step (Unit {0}))
      → (answer_delete key s).2.fsync_interval ≡ s.2.fsync_interval
  unfolding answer_delete
  answer_delete-fsync_interval key (err e, writes, w) = refl
  answer_delete-fsync_interval key (ok u, writes, w) = refl

  pub handle_query-fsync_interval :
      (interval : ℕ) (q : Query) (writes : ℕ) (w : Worker)
      → (handle_query interval q writes w).2.fsync_interval ≡ w.fsync_interval
  unfolding handle_query
  handle_query-fsync_interval interval info writes w = refl
  handle_query-fsync_interval interval (get_key key) writes w = refl
  handle_query-fsync_interval interval (set_key key value) writes w =
      answer_set-fsync_interval key value (log_write interval op_set key value writes w)
      ∙ log_write-fsync_interval interval op_set key value writes w
  handle_query-fsync_interval interval (delete_key key) writes w =
      answer_delete-fsync_interval key (log_write interval op_delete key [] writes w)
      ∙ log_write-fsync_interval interval op_delete key [] writes w
