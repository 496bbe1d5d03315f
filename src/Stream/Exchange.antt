-- ===== src/Stream/Exchange.antt =====
-- What code that writes sends, what code that reads takes off a socket, and how both compose.
use mini_db.Prelude.{
  ℕ, ◌≡◌, refl, sym, ap, ◌∙◌, [], ◌∷◌, ◌++◌, length, append_assoc, ◌<◌, ◌^◌, ◌%◌, ◌/◌, arith,
}
use mathlib.Core.Path.{subst}
use mini_db.Bytes.{Bytes, to_le_bytes}
use mini_db.Result.{Result, ok, err}
use mini_db.Stream.Defs.{Stream, Outcome, got, failed}
use mini_db.Stream.Io.{
  Io, pure, continue, result, ◌>>=◌, ◌>>◌, read_u8, read_u32_le, read_exact, write_all,
}

pub got_of_ok : (o : Outcome (Unit {0})) → result o ≡ ok tt → o ≡ got tt
got_of_ok (got u) h = refl
got_of_ok (failed e) h = cc

module _ ⦃net : Stream⦄ where
  open net use {Socket, incoming, sent}

  -- Where the code succeeds, it has sent these bytes.
  pub record Sends (m : Io (Unit {0})) (b : Bytes) : Type 0 where
    pub sends : (s : Socket) → (m s).0 ≡ ok tt → sent (m s).1 ≡ sent s ++ b

  pub Sends-write_all : (b : Bytes) → Sends (write_all b) b
  Sends-write_all b = record { sends = λ s h. net.sent-write_all s b (got_of_ok _ h) }

  pub Sends-then :
      (m k : Io (Unit {0})) (a b : Bytes) → Sends m a → Sends k b → Sends (m >> k) (a ++ b)
  Sends-then m k a b first second = record { sends = λ s h. both s (m s).0 refl h }
    where
      both :
          (s : Socket) (r : Result (Unit {0}))
          → (m s).0 ≡ r
          → (continue (m s).0 (λ _. k) (m s).1).0 ≡ ok tt
          → sent (continue (m s).0 (λ _. k) (m s).1).1 ≡ sent s ++ (a ++ b)
      both s (ok u) e h =
          let done : (k (m s).1).0 ≡ ok tt = rw e at h in
          rw e (
            second.sends (m s).1 done
            ∙ ap (λ t. t ++ b) (first.sends s e)
            ∙ append_assoc (sent s) a b)
      both s (err x) e h = let failure : err x ≡ ok tt = rw e at h in absurd (cc)

  -- On a socket on which these bytes come in, the code takes them and returns this value, and sends
  -- nothing.
  pub record Reads {A : Type 0} (m : Io A) (b : Bytes) (a : A) : Type 0 where
    pub reads :
        (t : Socket) (rest : Bytes)
        → incoming t ≡ b ++ rest
        → ((m t).0 ≡ ok a) × (incoming (m t).1 ≡ rest) × (sent (m t).1 ≡ sent t)

  pub Reads-pure : {A : Type 0} (a : A) → Reads (pure a) [] a
  Reads-pure a = record { reads = λ t rest h. (refl, h, refl) }

  pub Reads-then :
      {A B : Type 0} (m : Io A) (f : A → Io B) (b c : Bytes) (x : A) (y : B)
      → Reads m b x
      → Reads (f x) c y
      → Reads (m >>= f) (b ++ c) y
  Reads-then m f b c x y first second = record {
    reads = λ t rest h.
        let (r1, i1, s1) = first.reads t (c ++ rest) (h ∙ append_assoc b c rest) in
        let (r2, i2, s2) = second.reads (m t).1 rest i1 in rw r1 (r2, i2, s2 ∙ s1);
  }

  pub Reads-read_u8 : (n : ℕ) → Reads read_u8 (n ∷ []) n
  Reads-read_u8 n = record {
    reads =
        λ t rest h. let (r, i) = net.read_u8-got t n rest h in (ap result r, i, net.sent-read_u8 t);
  }

  pub Reads-read_u32_le : (n : ℕ) → n < 2 ^ 32 → Reads read_u32_le (to_le_bytes n) n
  Reads-read_u32_le n fits = record {
    reads = λ t rest h.
        let (r, i) =
          net.read_u32_le-got t (n % 256) (n / 256 % 256) (n / 65536 % 256) (n / 16777216 % 256)
            rest h in
        (ap result r ∙ ap ok (omega arith), i, net.sent-read_u32_le t);
  }

  pub Reads-read_exact : (b : Bytes) → Reads (read_exact (length b)) b b
  Reads-read_exact b = record {
    reads = λ t rest h.
        let (r, i) = net.read_exact-got t b rest h in
        (ap result r, i, net.sent-read_exact t (length b));
  }

  -- A read whose value is the answer, and a check that passes.
  pub Reads-last :
      {A B : Type 0} (m : Io A) (f : A → Io B) (b : Bytes) (x : A) (y : B)
      → Reads m b x
      → f x ≡ pure y
      → Reads (m >>= f) b y
  Reads-last m f b x y first e = record {
    reads = λ t rest h. let (r, i, s) = first.reads t rest h in rw (r, e) (refl, i, s);
  }

  pub Reads-check :
      {A B : Type 0} (m : Io A) (f : A → Io B) (c : Bytes) (x : A) (y : B)
      → m ≡ pure x
      → Reads (f x) c y
      → Reads (m >>= f) c y
  Reads-check m f c x y e second = subst (λ n. Reads (n >>= f) c y) (sym e) second
