-- ===== src/Server/Service/Commands.antt =====
-- What a round of a connection asks of the manager: the command that the bytes which come in stand for,
-- if there is one.
use mini_db.Prelude.{ℕ, ◌≡◌, refl, ap, ◌<◌, ◌^◌, Option, none, some, length, arith}
use mini_db.Bytes.{Bytes}
use mini_db.Result.{Result, ok, err}
use mini_db.Stream.{Stream, Outcome, got, failed}
use mini_db.Stream.Io.{Io}
use mini_db.Stream.Yields.{Yields}
use mini_db.Protocol.{Operation, stats, ping, close, create, info, drop, get, set, delete, from_u8}
use mini_db.Worker.{Query, get_key, set_key, delete_key}
use mini_db.Server.Checks.{read_name, read_name_and_key, read_name_key_and_value}
use mini_db.Server.Names.{is_utf8-all_name_bytes}
use mini_db.Server.Fields.{IsName}
use mini_db.Server.Accepts.{
  read_name-Yields, read_name_and_key-Yields, read_name_key_and_value-Yields,
}
use mini_db.Manager.Spec.{Command, IsStem, IsPossible}

abbrev pub of_ok : {A : Type 0} → (A → Command) → Result A → Option Command
of_ok f (ok a) = some (f a)
of_ok f (err e) = none

pub stem : (name : Bytes) → IsName name → IsStem name
stem name n =
    (λ e. absurd (omega (arith, n.not_empty, ap length e)), is_utf8-all_name_bytes name n.safe)

abbrev pub Possible : Option Command → Type 0
Possible none = Unit {0}
Possible (some c) = IsPossible c

module _ ⦃net : Stream⦄ (max_key_size max_value_size : ℕ) where
  open net use {Socket}

  -- The command of an operation, once its fields have come in and passed the checks.
  unfoldable pub command_of : Operation → Socket → Option Command
  command_of create s = of_ok Command.create (read_name s).0
  command_of drop s = of_ok Command.drop (read_name s).0
  command_of info s = of_ok (λ name. Command.query name Query.info) (read_name s).0
  command_of get s =
      of_ok (λ a. Command.query a.0 (get_key a.1)) (read_name_and_key max_key_size s).0
  command_of set s =
      of_ok (λ a. Command.query a.0 (set_key a.1 a.2))
        (read_name_key_and_value max_key_size max_value_size s).0
  command_of delete s =
      of_ok (λ a. Command.query a.0 (delete_key a.1)) (read_name_and_key max_key_size s).0
  command_of _ s = none

  abbrev pub of_code : Option Operation → Socket → Option Command
  of_code none s = none
  of_code (some op) s = command_of op s

  abbrev pub of_byte : Outcome ℕ → Socket → Option Command
  of_byte (failed e) s = none
  of_byte (got n) s = of_code (from_u8 n) s

  -- The command that comes in next on a socket.
  unfoldable pub command_in : Socket → Option Command
  command_in s = of_byte (net.read_u8 s).0 (net.read_u8 s).1

  of_ok-Possible :
      {A : Type 0} {V : A → Type 0} (io : Io A) (f : A → Command)
      → Yields io V
      → ((a : A) → V a → IsPossible (f a))
      → (s : Socket) → Possible (of_ok f (io s).0)
  of_ok-Possible {A} io f y possible s = by_result (io s).0 refl
    where
      by_result : (r : Result A) → (io s).0 ≡ r → Possible (of_ok f r)
      by_result (ok a) e = possible a (y.yields s a e)
      by_result (err x) e = tt

  module _ (small_keys : max_key_size < 2 ^ 32) (small_values : max_value_size < 2 ^ 32) where
    command_of-Possible : (op : Operation) (s : Socket) → Possible (command_of op s)
    unfolding command_of
    command_of-Possible create s = of_ok-Possible read_name _ read_name-Yields stem s
    command_of-Possible drop s = of_ok-Possible read_name _ read_name-Yields (λ _ _. tt) s
    command_of-Possible info s = of_ok-Possible read_name _ read_name-Yields (λ _ _. tt) s
    command_of-Possible get s =
        of_ok-Possible (read_name_and_key max_key_size) _ (read_name_and_key-Yields max_key_size)
          (λ _ _. tt) s
    command_of-Possible set s =
        of_ok-Possible (read_name_key_and_value max_key_size max_value_size) _
          (read_name_key_and_value-Yields max_key_size max_value_size)
          (λ (a : Bytes × Bytes × Bytes) h. (
            record {
              has_key = h.1.0;
              key_fits = omega (arith, h.1.1);
              value_fits = omega (arith, h.2);
            },
            tt,
          ))
          s
    command_of-Possible delete s =
        of_ok-Possible (read_name_and_key max_key_size) _ (read_name_and_key-Yields max_key_size)
          (λ (a : Bytes × Bytes) h. (
            record { has_key = h.1.0; key_fits = omega (arith, h.1.1); value_fits = omega arith },
            tt,
          ))
          s
    command_of-Possible stats s = tt
    command_of-Possible ping s = tt
    command_of-Possible close s = tt

    pub command_in-Possible : (s : Socket) → Possible (command_in s)
    unfolding command_in
    command_in-Possible s = by_byte (net.read_u8 s).0 (net.read_u8 s).1
      where
        by_code : (o : Option Operation) (t : Socket) → Possible (of_code o t)
        by_code none t = tt
        by_code (some op) t = command_of-Possible op t

        by_byte : (o : Outcome ℕ) (t : Socket) → Possible (of_byte o t)
        by_byte (failed e) t = tt
        by_byte (got n) t = by_code (from_u8 n) t
