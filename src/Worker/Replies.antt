-- ===== src/Worker/Replies.antt =====
-- What each query does to the index, whatever the disk does.
use mini_db.Prelude.{ℕ, ◌≡◌, refl, ap, ◌∙◌, [], Option, none, some, arith, if◌then◌else◌}
use mini_db.Bytes.{Bytes, bytes_eq}
use mini_db.Map.{get, get-insert, get-remove}
use mini_db.Result.{Result, ok, err}
use mini_db.Crc.{Crc32}
use mini_db.Storage.{Storage}
use mini_db.Protocol.{Response}
use mini_db.Wal.{op_set, op_delete}
use mini_db.Worker.{
  Query, info, get_key, set_key, delete_key, Worker, Step, log_write, answer_set, answer_delete,
  handle_query,
}

-- What a key holds after a query, given what it held and whether the query ended in an error.
abbrev pub held_after : Query → Result Response → Bytes → Option Bytes → Option Bytes
held_after q (err e) j held = held
held_after info (ok r) j held = held
held_after (get_key key) (ok r) j held = held
held_after (set_key key value) (ok r) j held = if bytes_eq key j then some value else held
held_after (delete_key key) (ok r) j held = if bytes_eq key j then none else held

module _ ⦃crc : Crc32⦄ ⦃disk : Storage⦄ where
  log_write-index :
      (interval op : ℕ) (key value : Bytes) (writes : ℕ) (w : Worker)
      → (log_write interval op key value writes w).2.memory_index ≡ w.memory_index
  unfolding log_write
  log_write-index interval op key value writes w = ground arith

  held_after_set :
      (key value j : Bytes) (s : Step (Unit {0}))
      → get j (answer_set key value s).2.memory_index
        ≡ held_after (set_key key value) (answer_set key value s).0 j (get j s.2.memory_index)
  unfolding answer_set
  held_after_set key value j (err e, writes, w) = refl
  held_after_set key value j (ok u, writes, w) = get-insert key j value w.memory_index

  held_after_delete :
      (key j : Bytes) (s : Step (Unit {0}))
      → get j (answer_delete key s).2.memory_index
        ≡ held_after (delete_key key) (answer_delete key s).0 j (get j s.2.memory_index)
  unfolding answer_delete
  held_after_delete key j (err e, writes, w) = refl
  held_after_delete key j (ok u, writes, w) = get-remove key j w.memory_index

  -- Whatever the disk does: a query that ends in an error leaves the index as it was. An answered
  -- SET has put its value under its key, an answered DELETE has taken its key out, and they touch no
  -- other key; GET and INFO leave the index alone.
  pub get-handle_query :
      (interval : ℕ) (q : Query) (writes : ℕ) (w : Worker) (j : Bytes)
      → get j (handle_query interval q writes w).2.memory_index
        ≡ held_after q (handle_query interval q writes w).0 j (get j w.memory_index)
  unfolding handle_query
  get-handle_query interval info writes w j = refl
  get-handle_query interval (get_key key) writes w j = refl
  get-handle_query interval (set_key key value) writes w j =
      let logged = log_write interval op_set key value writes w in
      held_after_set key value j logged
      ∙ ap (λ m. held_after (set_key key value) (answer_set key value logged).0 j (get j m))
          (log_write-index interval op_set key value writes w)
  get-handle_query interval (delete_key key) writes w j =
      let logged = log_write interval op_delete key [] writes w in
      held_after_delete key j logged
      ∙ ap (λ m. held_after (delete_key key) (answer_delete key logged).0 j (get j m))
          (log_write-index interval op_delete key [] writes w)
