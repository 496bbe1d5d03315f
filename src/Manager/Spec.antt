-- ===== src/Manager/Spec.antt =====
-- What the manager promises: each database is the history of its writes.
use mini_db.Prelude.{
  ◌≡◌, ◌≢◌, Bool, true, false, Option, none, some, List, [], ◌++◌, All, if◌then◌else◌,
}
use mini_db.Prelude.Text.{codes}
use mini_db.Bytes.{Bytes, bytes_eq}
use mini_db.Result.{Result, ok, err, db_missing, queue_closed, reply_lost}
use mini_db.Crc.{Crc32}
use mini_db.Storage.{Storage}
use mini_db.Map.{get}
use mini_db.Map.Keys.{IsMap}
use mini_db.Protocol.{Response, okay, db_not_found, db_already_exists, invalid_request}
use mini_db.Wal.History.{Write, IsLoggable}
use mini_db.Worker.{Query}
use mini_db.Worker.Spec.{logged, reply_after}
use mini_db.Worker.Refines.{InStep}
use mini_db.Server.{found, missing, Asked, refused, answered}
use mini_db.Server.Names.{is_utf8}
use mini_db.Manager.Directory.{Folder}
use mini_db.Manager.{default_db_name, Running, DbManager, create_db, drop_db, get_db_handle, ask}

-- The history of each database that exists.
abbrev pub Histories : Type 0
Histories = Bytes → Option (List Write)

abbrev pub put : Bytes → Option (List Write) → Histories → Histories
put name o h k = if bytes_eq name k then o else h k

-- A name that a log's path gives back.
abbrev pub IsStem : Bytes → Type 0
IsStem name = (name ≢ []) × (is_utf8 name ≡ true)

-- What a connection asks of the manager.
pub data Command : Type 0 where
  create drop : Bytes → Command
  query : Bytes → Query → Command

abbrev pub IsPossible : Command → Type 0
IsPossible (create name) = IsStem name
IsPossible (drop name) = Unit {0}
IsPossible (query name q) = All IsLoggable (logged q)

abbrev pub reply_of : Asked → Result Response
reply_of refused = err queue_closed
reply_of (answered none) = err reply_lost
reply_of (answered (some r)) = r

module _ ⦃crc : Crc32⦄ ⦃disk : Storage⦄ where
  -- A command on the manager, with the reply that the client gets.
  unfoldable pub perform :
      ⦃folder : Folder disk⦄ → Command → DbManager → Result Response × DbManager
  perform (create name) m = create_db name m
  perform (drop name) m = drop_db name m
  perform (query name q) m = elim (get_db_handle name m) [
    | missing response ↦ (ok response, m)
    | found handle ↦ (reply_of (ask handle q m).0, (ask handle q m).1)
  ]

-- The replies, by the history of the database that a command names.
abbrev pub reply_create : Option (List Write) → Result Response
reply_create (some ws) = ok (db_already_exists (codes "Database already exists"))
reply_create none = ok (okay (codes "Database created successfully"))

abbrev pub reply_drop : Bytes → Bool → Option (List Write) → Result Response
reply_drop name true o = ok (invalid_request (codes "Cannot drop the default database"))
reply_drop name false none = err (db_missing name)
reply_drop name false (some ws) = ok (okay (codes "Database dropped successfully"))

module _ ⦃crc : Crc32⦄ where
  abbrev pub reply_query : Query → Option (List Write) → Result Response
  reply_query q none = ok (db_not_found (codes "Database not found"))
  reply_query q (some ws) = ok (reply_after ws q)

  abbrev pub reply_to : Command → Histories → Result Response
  reply_to (create name) h = reply_create (h name)
  reply_to (drop name) h = reply_drop name (bytes_eq name default_db_name) (h name)
  reply_to (query name q) h = reply_query q (h name)

-- The histories after it.
abbrev pub after_create : Bytes → Histories → Option (List Write) → Histories
after_create name h (some ws) = h
after_create name h none = put name (some []) h

abbrev pub after_drop : Bytes → Histories → Bool → Option (List Write) → Histories
after_drop name h true o = h
after_drop name h false none = h
after_drop name h false (some ws) = put name none h

abbrev pub after_query : Bytes → Query → Histories → Option (List Write) → Histories
after_query name q h none = h
after_query name q h (some ws) = put name (some (ws ++ logged q)) h

abbrev pub after : Command → Histories → Histories
after (create name) h = after_create name h (h name)
after (drop name) h = after_drop name h (bytes_eq name default_db_name) (h name)
after (query name q) h = after_query name q h (h name)

module _ ⦃crc : Crc32⦄ ⦃disk : Storage⦄ where
  -- A database runs exactly if it has a history, and its worker is in step with it.
  abbrev pub Stands : Bytes → Option (List Write) → Option Running → Type 0
  Stands name none o = o ≡ none
  Stands name (some ws) o =
      (r : Running) × (o ≡ some r) × IsStem name × All IsLoggable ws × InStep ws r.worker

  -- The manager runs the databases of the histories; its directory holds nothing but their logs.
  pub record Represents (h : Histories) (m : DbManager) : Type 0 where
    pub stands : (k : Bytes) → Stands k (h k) (get k m.db_map)
    pub distinct : IsMap m.db_map
    pub no_other_files : m.directory ≡ []
