-- ===== src/Manager/Directory.antt =====
-- The interface to the directory of the logs: opening a file for reading and writing, which creates it
-- where there is none, and removing one. `create_dir_all`, `read_dir`, `next_entry` and `metadata` matter only by
-- whether they succeed.
use mini_db.Prelude.{◌≡◌, Bool, true, ◌&&◌, Option, none, some, List, []}
use mini_db.Bytes.{Bytes}
use mini_db.Storage.{Storage}

pub record Folder (disk : Storage) : Type 0 where
  pub create_dir_all : Bool
  pub read_dir : Bool
  -- with the entries that are still to come
  pub next_entry : List Bytes → Bool
  pub metadata : Bytes → disk.File → Bool
  pub open_file : Bytes → Option disk.File → Option disk.File
  pub remove_file : Bytes → disk.File → Bool
  -- an open leaves the bytes of the file that is there, and a file that it creates is empty
  pub open-existing :
      (path : Bytes) (f g : disk.File)
      → open_file path (some f) ≡ some g
      → disk.contents g ≡ disk.contents f
  pub open-new :
      (path : Bytes) (g : disk.File) → open_file path none ≡ some g → disk.contents g ≡ []

-- A directory on which no call fails.
pub record CanManage (disk : Storage) (folder : Folder disk) : Type 0 where
  pub works : (folder.create_dir_all && folder.read_dir) ≡ true
  pub entries_work : (entries : List Bytes) → folder.next_entry entries ≡ true
  pub metadata_works : (path : Bytes) (f : disk.File) → folder.metadata path f ≡ true
  pub open_works :
      (path : Bytes) (o : Option disk.File) → (f : disk.File) × (folder.open_file path o ≡ some f)
  pub remove_works : (path : Bytes) (f : disk.File) → folder.remove_file path f ≡ true
