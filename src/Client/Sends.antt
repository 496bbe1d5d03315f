-- ===== src/Client/Sends.antt =====
-- The bytes of each request.
use mini_db.Prelude.{ℕ, ◌%◌, [], ◌∷◌, ◌++◌, length}
use mini_db.Bytes.{Bytes, as_u32, to_le_bytes}
use mini_db.Stream.{Stream}
use mini_db.Stream.Io.{Io, write_all, ◌>>◌}
use mini_db.Stream.Exchange.{Sends, Sends-write_all, Sends-then}
use mini_db.Protocol.{Operation, get, set, delete, to_u8}
use mini_db.Client.{send_db_op, send_get, send_set, send_delete}

abbrev pub name_len : Bytes → ℕ
name_len db_name = length db_name % 256

-- The fields behind the operation's byte.
abbrev pub name_fields : Bytes → Bytes
name_fields db_name = (name_len db_name ∷ []) ++ db_name

abbrev pub key_fields : Bytes → Bytes → Bytes
key_fields db_name key =
    (name_len db_name ∷ []) ++ (to_le_bytes (as_u32 (length key)) ++ (db_name ++ key))

abbrev pub set_fields : Bytes → Bytes → Bytes → Bytes
set_fields db_name key value =
    (name_len db_name ∷ [])
    ++ (to_le_bytes (as_u32 (length key))
        ++ (to_le_bytes (as_u32 (length value)) ++ (db_name ++ (key ++ value))))

module _ ⦃net : Stream⦄ where
  write_then :
      (a : Bytes) (k : Io (Unit {0})) (b : Bytes) → Sends k b → Sends (write_all a >> k) (a ++ b)
  write_then a k b h = Sends-then (write_all a) k a b (Sends-write_all a) h

  pub Sends-send_db_op :
      (op : Operation) (db_name : Bytes)
      → Sends (send_db_op op db_name) (to_u8 op ∷ name_fields db_name)
  unfolding send_db_op
  Sends-send_db_op op db_name =
      write_then (to_u8 op ∷ []) _ _
        (write_then (name_len db_name ∷ []) _ _ (Sends-write_all db_name))

  pub Sends-send_get :
      (db_name key : Bytes) → Sends (send_get db_name key) (to_u8 get ∷ key_fields db_name key)
  unfolding send_get
  Sends-send_get db_name key = write_then (to_u8 get ∷ []) _ _ (
      write_then (name_len db_name ∷ []) _ _ (
        write_then (to_le_bytes (as_u32 (length key))) _ _
          (write_then db_name _ _ (Sends-write_all key))))

  pub Sends-send_delete :
      (db_name key : Bytes)
      → Sends (send_delete db_name key) (to_u8 delete ∷ key_fields db_name key)
  unfolding send_delete
  Sends-send_delete db_name key = write_then (to_u8 delete ∷ []) _ _ (
      write_then (name_len db_name ∷ []) _ _ (
        write_then (to_le_bytes (as_u32 (length key))) _ _
          (write_then db_name _ _ (Sends-write_all key))))

  pub Sends-send_set :
      (db_name key value : Bytes)
      → Sends (send_set db_name key value) (to_u8 set ∷ set_fields db_name key value)
  unfolding send_set
  Sends-send_set db_name key value = write_then (to_u8 set ∷ []) _ _ (
      write_then (name_len db_name ∷ []) _ _ (
        write_then (to_le_bytes (as_u32 (length key))) _ _ (
          write_then (to_le_bytes (as_u32 (length value))) _ _
            (write_then db_name _ _ (write_then key _ _ (Sends-write_all value))))))
