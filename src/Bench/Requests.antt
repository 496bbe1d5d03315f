-- ===== src/Bench/Requests.antt =====
-- A benchmark's client sends what the client sends.
use mini_db.Prelude.{◌≡◌, refl, sym, ap, ◌∙◌, ◌∷◌, ◌++◌, append_assoc}
use mini_db.Bytes.{Bytes}
use mini_db.Result.{ok}
use mini_db.Stream.{Stream}
use mini_db.Client.{send_get, send_set}
use mini_db.Client.Sends.{Sends-send_get, Sends-send_set, key_fields, set_fields}
use mini_db.Protocol.{get, set, to_u8}
use mini_db.Bench.{encode_get, encode_set}

same_get : (db_name key : Bytes) → encode_get db_name key ≡ to_u8 get ∷ key_fields db_name key
unfolding encode_get to_u8
same_get db_name key = refl

same_set :
    (db_name key value : Bytes)
    → encode_set db_name key value ≡ to_u8 set ∷ set_fields db_name key value
unfolding encode_set to_u8
same_set db_name key value = rw (append_assoc db_name key value) refl

module _ ⦃net : Stream⦄ where
  open net use {sent}

  -- The requests that a benchmark's client builds are those that the client's `send_get` and
  -- `send_set` send, where these succeed.
  pub encode_get-send_get :
      (db_name key value : Bytes) (s : net.Socket)
      → (send_get db_name key s).0 ≡ ok tt
      → (send_set db_name key value s).0 ≡ ok tt
      → (sent (send_get db_name key s).1 ≡ sent s ++ encode_get db_name key)
        × (sent (send_set db_name key value s).1 ≡ sent s ++ encode_set db_name key value)
  encode_get-send_get db_name key value s got_out set_out = (
    (Sends-send_get db_name key).sends s got_out
        ∙ ap (λ b. sent s ++ b) (sym (same_get db_name key)),
    (Sends-send_set db_name key value).sends s set_out
        ∙ ap (λ b. sent s ++ b) (sym (same_set db_name key value)),
  )
