-- ===== src/Stream/Does.antt =====
-- Code on a socket on which every write succeeds: its result, what it leaves of what comes in, and what
-- it sends.
use mini_db.Prelude.{◌≡◌, refl, ap, ◌∙◌, List, [], ◌∷◌, ◌++◌, append_assoc}
use mini_db.Bytes.{Bytes}
use mini_db.Result.{Result, ok, err}
use mini_db.Stream.Defs.{Stream, got}
use mini_db.Stream.Io.{Io, pure, write_all, ◌>>◌, ◌>>=◌}

abbrev pub map_ok : {A B : Type 0} → (A → B) → Result A → Result B
map_ok f (ok a) = ok (f a)
map_ok f (err e) = err e

module _ ⦃net : Stream⦄ where
  open net use {Socket, incoming, sent}

  abbrev pub WritesWork : Type 0
  WritesWork = (s : Socket) (b : Bytes) → (net.write_all s b).0 ≡ got tt

  pub record ComesTo {A : Type 0} (io : Io A) (s : Socket) (out rest : Bytes) (r : Result A)
      : Type 0 where
    pub result_is : (io s).0 ≡ r
    pub leaves : incoming (io s).1 ≡ rest
    pub sends : sent (io s).1 ≡ sent s ++ out

  abbrev pub Does : {A : Type 0} → Io A → Socket → Bytes → Bytes → A → Type 0
  Does io s out rest a = ComesTo io s out rest (ok a)

  -- A write, and code that does this on any socket on which the same comes in.
  ComesTo-write :
      {A : Type 0} (b : Bytes) (k : Io A) (s : Socket) (out rest inc : Bytes) (r : Result A)
      → WritesWork
      → incoming s ≡ inc
      → ((t : Socket) → incoming t ≡ inc → ComesTo k t out rest r)
      → ComesTo (write_all b >> k) s (b ++ out) rest r
  ComesTo-write b k s out rest inc r writes arrives again =
      let h = again (net.write_all s b).1 (net.incoming-write_all s b ∙ arrives) in
      record {
        result_is = rw (writes s b) h.result_is;
        leaves = rw (writes s b) h.leaves;
        sends = rw (writes s b) (
            h.sends
            ∙ ap (λ t. t ++ out) (net.sent-write_all s b (writes s b))
            ∙ append_assoc (sent s) b out);
      }

  -- Some writes, one after the other, and what they send together.
  abbrev pub writes_all : {A : Type 0} → List Bytes → Io A → Io A
  writes_all [] k = k
  writes_all (b ∷ bs) k = write_all b >> writes_all bs k

  abbrev pub pieces : List Bytes → Bytes
  pieces [] = []
  pieces (b ∷ bs) = b ++ pieces bs

  pub ComesTo-writes_all :
      {A : Type 0} (bs : List Bytes) (k : Io A) (s : Socket) (rest inc : Bytes) (r : Result A)
      → WritesWork
      → incoming s ≡ inc
      → ((t : Socket) → incoming t ≡ inc → ComesTo k t [] rest r)
      → ComesTo (writes_all bs k) s (pieces bs) rest r
  ComesTo-writes_all [] k s rest inc r writes arrives again = again s arrives
  ComesTo-writes_all (b ∷ bs) k s rest inc r writes arrives again =
      ComesTo-write b (writes_all bs k) s (pieces bs) rest inc r writes arrives
        λ t e. ComesTo-writes_all bs k t rest inc r writes e again

  pub Does-writes_all :
      {A : Type 0} (bs : List Bytes) (k : Io A) (s : Socket) (rest inc : Bytes) (a : A)
      → WritesWork
      → incoming s ≡ inc
      → ((t : Socket) → incoming t ≡ inc → Does k t [] rest a)
      → Does (writes_all bs k) s (pieces bs) rest a
  Does-writes_all bs k s rest inc a = ComesTo-writes_all bs k s rest inc (ok a)

  pub Does-both :
      {A : Type 0} (io : Io (Unit {0})) (k : Io A) (s : Socket) (b out mid rest : Bytes)
      (r : Result A)
      → Does io s b mid tt
      → ComesTo k (io s).1 out rest r
      → ComesTo (io >> k) s (b ++ out) rest r
  Does-both io k s b out mid rest r first h = record {
    result_is = rw first.result_is h.result_is;
    leaves = rw first.result_is h.leaves;
    sends =
        rw first.result_is (h.sends ∙ ap (λ t. t ++ out) first.sends ∙ append_assoc (sent s) b out);
  }

  -- Code whose value is passed on through a function.
  pub ComesTo-map :
      {A B : Type 0} (io : Io A) (f : A → B) (s : Socket) (out rest : Bytes) (r : Result A)
      → ComesTo io s out rest r
      → ComesTo (io >>= λ a. pure (f a)) s out rest (map_ok f r)
  ComesTo-map io f s out rest (ok a) h = record {
    result_is = rw h.result_is refl;
    leaves = rw h.result_is h.leaves;
    sends = rw h.result_is h.sends;
  }
  ComesTo-map io f s out rest (err e) h = record {
    result_is = rw h.result_is refl;
    leaves = rw h.result_is h.leaves;
    sends = rw h.result_is h.sends;
  }
