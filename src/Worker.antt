-- ===== src/Worker.antt =====
-- worker.rs: a database's worker, which takes queries off its queue one by one. The `tx` of a query
-- is the reply that the model returns; a send to a receiver that is gone is dropped by the source.
pub mod Replies
pub mod Spec
pub mod Interval
pub mod Refines
pub mod Faults
pub mod Sizes
use mini_db.Prelude.{
  ℕ, ◌+◌, ◌-◌, ◌/◌, ◌%◌, ◌^◌, Bool, true, false, Option, none, some, List, [], ◌∷◌, length, min,
  max, ltb, ◌==◌, if◌then◌else◌,
}
use mini_db.Prelude.Text.{codes}
use mini_db.Bytes.{Bytes, as_u32}
use mini_db.Map.{Map, get, insert, remove, contains_key}
use mini_db.Result.{Result, ok, err}
use mini_db.Crc.{Crc32}
use mini_db.Storage.{Storage}
use mini_db.Packet.{InfoPacket, info_to_bytes}
use mini_db.Protocol.{Response, okay, key_value, key_not_found}
use mini_db.Wal.{Wal, op_set, op_delete, append, fsync, size_on_disk}

-- DatabaseQueryOperation
pub data Query : Type 0 where
  info : Query
  get_key : Bytes → Query
  set_key : Bytes → Bytes → Query
  delete_key : Bytes → Query

abbrev pub u32_max : ℕ
u32_max = 2 ^ 32 - 1

abbrev pub usize_max : ℕ
usize_max = 2 ^ 64 - 1

-- `.map(|(k, v)| (k.len() + v.len()) as u64).sum()`
pub memory_size : Map Bytes → ℕ
memory_size [] = 0
memory_size ((k, v) ∷ m) = length k + length v + memory_size m

pub record KeySizes : Type 0 where
  pub smallest : ℕ
  pub largest : ℕ
  pub total : ℕ

-- `.fold((usize::MAX, 0, 0), |(min, max, sum), len| (min.min(len), max.max(len), sum + len))`
pub fold_key_sizes : Map Bytes → KeySizes → KeySizes
fold_key_sizes [] acc = acc
fold_key_sizes ((k, v) ∷ m) acc = fold_key_sizes m (record {
  smallest = min acc.smallest (length k);
  largest = max acc.largest (length k);
  total = acc.total + length k;
})

-- The packet of an Info query, from the size of the log and the index.
pub info_packet : ℕ → Map Bytes → InfoPacket
unfolding fold_key_sizes
info_packet log_size memory_index =
    let sizes =
      fold_key_sizes memory_index (record { smallest = usize_max; largest = 0; total = 0 }) in
    let key_count = as_u32 (length memory_index) in
    record {
      size_on_disk = min log_size u32_max;
      size_in_memory = min (memory_size memory_index) u32_max;
      min_key_size = if ltb 0 key_count then as_u32 sizes.smallest else 0;
      mean_key_size = as_u32 (if key_count == 0 then 0 else sizes.total / key_count);
      max_key_size = if ltb 0 key_count then as_u32 sizes.largest else 0;
      key_count = key_count;
    }

abbrev pub done_reply : Response
done_reply = okay (codes "OK")

abbrev pub missing_reply : Response
missing_reply = key_not_found (codes "Key not found")

module _ ⦃crc : Crc32⦄ ⦃disk : Storage⦄ where
  pub record Worker : Type 0 where
    pub wal : Wal
    pub fsync_interval : ℕ
    pub memory_index : Map Bytes
    pub write_buf : Bytes

  unfoldable pub init : Wal → ℕ → Map Bytes → Worker
  init wal fsync_interval memory_index = record {
    wal = wal;
    fsync_interval = fsync_interval;
    memory_index = memory_index;
    write_buf = [];
  }

  -- A step of the worker: the reply, `writes_executed`, and the worker.
  abbrev pub Step {ℓ} : Type ℓ → Type ℓ
  Step A = Result A × ℕ × Worker

  -- The fsync that every `interval`-th write makes.
  pub sync_due : ℕ → ℕ → Worker → Step (Unit {0})
  sync_due interval writes w =
      if writes % interval == 0
      then (let (r, wal) = fsync w.wal in (r, writes, record w { wal = wal }))
      else (ok tt, writes, w)

  -- What SET and DELETE do before they touch the index: append, count, and fsync if it is due.
  pub log_write : ℕ → ℕ → Bytes → Bytes → ℕ → Worker → Step (Unit {0})
  unfolding sync_due
  log_write interval op key value writes w =
      let (r, wal) = append w.wal op key value in
      let w' = record w { wal = wal } in
      elim r [ err e ↦ (err e, writes, w') | ok offset ↦ sync_due interval (writes + 1) w' ]

  -- The answer to a SET or DELETE once it is logged, and the index after it.
  pub answer_set : Bytes → Bytes → Step (Unit {0}) → Step Response
  answer_set key value (err e, writes, w) = (err e, writes, w)
  answer_set key value (ok u, writes, w) =
      (ok done_reply, writes, record w { memory_index = insert key value w.memory_index })

  pub answer_delete : Bytes → Step (Unit {0}) → Step Response
  answer_delete key (err e, writes, w) = (err e, writes, w)
  answer_delete key (ok u, writes, w) = (
    ok (if contains_key key w.memory_index then done_reply else missing_reply),
    writes,
    record w { memory_index = remove key w.memory_index },
  )

  -- The body of the loop of `execute_queries`.
  pub handle_query : ℕ → Query → ℕ → Worker → Step Response
  unfolding answer_set answer_delete
  handle_query interval info writes w =
      let (packet, buf) =
        info_to_bytes (info_packet (size_on_disk w.wal) w.memory_index) w.write_buf in
      (ok (okay packet), writes, record w { write_buf = buf })
  handle_query interval (get_key key) writes w = (
    ok (elim (get key w.memory_index) [ some value ↦ key_value value | none ↦ missing_reply ]),
    writes,
    w,
  )
  handle_query interval (set_key key value) writes w =
      answer_set key value (log_write interval op_set key value writes w)
  handle_query interval (delete_key key) writes w =
      answer_delete key (log_write interval op_delete key [] writes w)

  -- The loop over the queries that come before the last sender is dropped.
  unfoldable pub execute_loop : ℕ → List Query → ℕ → Worker → List (Result Response) × Worker
  unfolding handle_query
  execute_loop interval [] writes w = ([], w)
  execute_loop interval (q ∷ qs) writes w =
      let (reply, writes', w') = handle_query interval q writes w in
      let (replies, w'') = execute_loop interval qs writes' w' in (reply ∷ replies, w'')

  -- The result of the last fsync is ignored.
  unfoldable pub execute_queries : List Query → Worker → List (Result Response) × Worker
  unfolding execute_loop
  execute_queries qs w =
      let (replies, w') = execute_loop (max w.fsync_interval 1) qs 0 w in
      (replies, record w' { wal = (fsync w'.wal).1 })
