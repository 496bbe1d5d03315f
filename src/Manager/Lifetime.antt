-- ===== src/Manager/Lifetime.antt =====
-- The manager from its first start: any commands, a shutdown, and the next start.
use mini_db.Prelude.{
  ℕ, ◌≡◌, refl, ap, Bool, true, false, inl, inr, Bool-cases, Option, none, some, List, [], ◌∷◌,
  ◌++◌, All,
}
use mini_db.Bytes.{Bytes, bytes_eq, bytes_eq_refl}
use mini_db.Result.{Result, ok}
use mini_db.Crc.{Crc32}
use mini_db.Storage.{Storage, CanRecover, CanWrite}
use mini_db.Map.{insert, remove, contains_key, get-nil}
use mini_db.Map.Keys.{insert-IsMap}
use mini_db.Protocol.{Response}
use mini_db.Wal.History.{Write, encode_all}
use mini_db.Worker.{Query}
use mini_db.Worker.Spec.{logged}
use mini_db.Server.Names.{all_name_bytes, is_name_byte, is_utf8-all_name_bytes}
use mini_db.Manager.Directory.{Folder, CanManage}
use mini_db.Manager.Paths.{log_path}
use mini_db.Manager.{
  default_db_name, DbManager, start_db, index_entries, spawn_db_worker, with_default, made, init,
  shutdown_all_workers,
}
use mini_db.Manager.Spec.{
  Histories, put, IsStem, Command, create, drop, query, IsPossible, perform, reply_to, after,
  after_create, after_drop, after_query, Represents,
}
use mini_db.Manager.Starts.{start_db-opened}
use mini_db.Manager.Refines.{Stands-insert, perform-Represents}
use mini_db.Manager.Restart.{init-shutdown_all_workers}

pair_eq : {A B : Type 0} (p : A × B) (a : A) (b : B) → p.0 ≡ a → p.1 ≡ b → p ≡ (a, b)
pair_eq p a b h k = cc

-- The histories of a directory that was empty.
abbrev pub first : Histories
first = put default_db_name (some []) (λ k. none)

abbrev pub after_all : List Command → Histories → Histories
after_all [] h = h
after_all (c ∷ cs) h = after_all cs (after c h)

-- The default database has a history.
abbrev pub HasDefault : Histories → Type 0
HasDefault h = (ws : List Write) × (h default_db_name ≡ some ws)

put-HasDefault :
    (name : Bytes) (ws : List Write) (h : Histories)
    → HasDefault h
    → HasDefault (put name (some ws) h)
put-HasDefault name ws h d = elim (Bool-cases (bytes_eq name default_db_name)) [
  | inl same ↦ (ws, rw same refl)
  | inr other ↦ (d.0, rw other d.1)
]

create-HasDefault :
    (name : Bytes) (h : Histories) (o : Option (List Write))
    → HasDefault h
    → HasDefault (after_create name h o)
create-HasDefault name h none d = put-HasDefault name [] h d
create-HasDefault name h (some ws) d = d

drop-HasDefault :
    (name : Bytes) (h : Histories) (b : Bool) (o : Option (List Write))
    → bytes_eq name default_db_name ≡ b
    → HasDefault h
    → HasDefault (after_drop name h b o)
drop-HasDefault name h true o e d = d
drop-HasDefault name h false none e d = d
drop-HasDefault name h false (some ws) e d = (d.0, rw e d.1)

query-HasDefault :
    (name : Bytes) (q : Query) (h : Histories) (o : Option (List Write))
    → HasDefault h
    → HasDefault (after_query name q h o)
query-HasDefault name q h none d = d
query-HasDefault name q h (some ws) d = put-HasDefault name (ws ++ logged q) h d

-- No command takes the default database away.
pub after-HasDefault : (c : Command) (h : Histories) → HasDefault h → HasDefault (after c h)
after-HasDefault (create name) h d = create-HasDefault name h (h name) d
after-HasDefault (drop name) h d =
    drop-HasDefault name h (bytes_eq name default_db_name) (h name) refl d
after-HasDefault (query name q) h d = query-HasDefault name q h (h name) d

pub after_all-HasDefault :
    (cs : List Command) (h : Histories) → HasDefault h → HasDefault (after_all cs h)
after_all-HasDefault [] h d = d
after_all-HasDefault (c ∷ cs) h d = after_all-HasDefault cs (after c h) (after-HasDefault c h d)

pub default-IsStem : IsStem default_db_name
unfolding all_name_bytes is_name_byte
default-IsStem = (λ e. cc, is_utf8-all_name_bytes default_db_name refl)

module _ ⦃crc : Crc32⦄ ⦃disk : Storage⦄ where
  abbrev pub replies_to_all : List Command → Histories → List (Result Response)
  replies_to_all [] h = []
  replies_to_all (c ∷ cs) h = reply_to c h ∷ replies_to_all cs (after c h)

  module _ ⦃folder : Folder disk⦄ where
    -- The replies to some commands, one after the other, and the manager after them.
    unfoldable pub perform_all : List Command → DbManager → List (Result Response) × DbManager
    perform_all [] m = ([], m)
    perform_all (c ∷ cs) m =
        let rest = perform_all cs (perform c m).1 in ((perform c m).0 ∷ rest.0, rest.1)

    module _ (recovers : CanRecover disk) (manages : CanManage disk folder)
        (writes : CanWrite disk) where
      -- The first start, on an empty directory.
      pub init-first :
          (interval queue : ℕ)
          → (m : DbManager) × (init interval queue [] ≡ (ok m, [])) × Represents first m
      unfolding init index_entries with_default contains_key spawn_db_worker encode_all remove
      init-first interval queue =
          let path = log_path default_db_name in
          let (f, opened) = manages.open_works path none in
          let ((r, started, i), left) =
            start_db-opened recovers interval path default_db_name [] [] none f [] (get-nil path)
              opened tt (folder.open-new path f opened) in
          let dbs = insert default_db_name r [] in
          let outcome =
            pair_eq (start_db interval path default_db_name [] []) (ok dbs) [] started left in
          (
            record {
              fsync_interval = interval;
              max_queue_size = queue;
              db_map = dbs;
              directory = [];
            },
            rw (init, manages.works, index_entries, manages.entries_work [])
                (ap (made interval queue) outcome),
            record {
              stands =
                  Stands-insert (λ k. none) [] default_db_name [] r default-IsStem tt i
                    (λ k. get-nil k);
              distinct = insert-IsMap default_db_name r [] tt;
              no_other_files = refl;
            },
          )

      pub perform_all-Represents :
          (cs : List Command) (h : Histories) (m : DbManager)
          → All IsPossible cs
          → Represents h m
          → ((perform_all cs m).0 ≡ replies_to_all cs h)
            × Represents (after_all cs h) (perform_all cs m).1
      unfolding perform_all
      perform_all-Represents [] h m l rep = (refl, rep)
      perform_all-Represents (c ∷ cs) h m l rep =
          let (reply, rep') = perform-Represents recovers manages writes c h m l.0 rep in
          let (replies, rep'') = perform_all-Represents cs (after c h) (perform c m).1 l.1 rep' in
          (rw (reply, replies) refl, rep'')

      -- On a disk that works: a manager starts on an empty directory with the default database alone,
      -- answers any commands, with such names and writes as can be logged, as the histories of its
      -- databases say, and after a shutdown the next start has exactly the histories of these commands.
      pub restart_keeps_histories :
          (interval queue : ℕ) (cs : List Command)
          → All IsPossible cs
          → (m : DbManager) × (init interval queue [] ≡ (ok m, []))
            × ((perform_all cs m).0 ≡ replies_to_all cs first)
            × (m' : DbManager) × (init interval queue
                  (shutdown_all_workers (perform_all cs m).1).directory
                ≡ (ok m', []))
            × Represents (after_all cs first) m'
      restart_keeps_histories interval queue cs l =
          let (m, started, rep) = init-first interval queue in
          let (replies, rep') = perform_all-Represents cs first m l rep in
          let (ws, d) =
            after_all-HasDefault cs first ([], rw (bytes_eq_refl default_db_name) refl) in
          let (m', restarted, rep'') =
            init-shutdown_all_workers writes recovers manages interval queue (after_all cs first)
              (perform_all cs m).1 ws d rep' in
          (m, started, replies, m', restarted, rep'')
