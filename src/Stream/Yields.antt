-- ===== src/Stream/Yields.antt =====
-- What holds of a value that code on a socket gives, whatever comes in.
use mini_db.Prelude.{
  ℕ, ◌≡◌, refl, sym, ap, ◌∙◌, length, take, drop, take-append-drop, length-take, inl, inr, leb,
  Bool-cases, arith,
}
use mathlib.Core.Path.{subst}
use mini_db.Bytes.{Bytes}
use mini_db.Result.{IoError, Result, ok, err}
use mini_db.Stream.Defs.{Stream, Outcome, got, failed}
use mini_db.Stream.Io.{Io, pure, continue, read_exact, result, ◌>>=◌}

module _ ⦃net : Stream⦄ where
  open net use {Socket, incoming}

  pub record Yields {A : Type 0} (io : Io A) (V : A → Type 0) : Type 0 where
    pub yields : (s : Socket) (a : A) → (io s).0 ≡ ok a → V a

  pub continue-ok :
      {A B : Type 0} (r : Result A) (f : A → Io B) (s : Socket) (b : B)
      → (continue r f s).0 ≡ ok b
      → (a : A) × (r ≡ ok a) × ((f a s).0 ≡ ok b)
  continue-ok (ok a) f s b e = (a, refl, e)
  continue-ok (err x) f s b e = cc

  pub Yields-any : {A : Type 0} (io : Io A) → Yields io (λ _. Unit {0})
  Yields-any io = record { yields = λ s a e. tt }

  pub pure-Yields : {A : Type 0} (V : A → Type 0) (a : A) → V a → Yields (pure a) V
  pure-Yields V a v = record { yields = λ s b e. subst V (same a b e) v }
    where
      same : {A : Type 0} (a b : A) → ◌≡◌ {A = Result A} (ok a) (ok b) → a ≡ b
      same a b e = cc

  pub Yields-then :
      {A B : Type 0} {V : A → Type 0} {W : B → Type 0} (io : Io A) (f : A → Io B)
      → Yields io V
      → ((a : A) → V a → Yields (f a) W)
      → Yields (io >>= f) W
  Yields-then io f first second = record {
    yields = λ s b e.
        let (a, e1, e2) = continue-ok (io s).0 f (io s).1 b e in
        (second a (first.yields s a e1)).yields (io s).1 b e2;
  }

  short_fails :
      (n : ℕ) (s : Socket) (b : Bytes) (o : Outcome Bytes) (e : IoError)
      → o ≡ failed e
      → result o ≡ ok b
      → ⊥
  short_fails n s b (got c) e h k = cc
  short_fails n s b (failed x) e h k = cc

  got_same : (b c : Bytes) (o : Outcome Bytes) → o ≡ got c → result o ≡ ok b → b ≡ c
  got_same b c (got x) h k = cc
  got_same b c (failed x) h k = cc

  -- A read gives as many bytes as are asked for.
  pub read_exact-Yields : (n : ℕ) → Yields (read_exact n) (λ b. length b ≡ n)
  read_exact-Yields n = record {
    yields = λ s b e. elim (Bool-cases (leb n (length (incoming s)))) [
      | inl there ↦
          let whole : length (take n (incoming s)) ≡ n =
            ground (arith, length-take n (incoming s), there) in
          let (taken, _) =
            net.read_exact-got s (take n (incoming s)) (drop n (incoming s))
              (sym (take-append-drop n (incoming s))) in
          ap length (
            got_same b (take n (incoming s)) (net.read_exact s n).0
              (subst (λ k. (net.read_exact s k).0 ≡ got (take n (incoming s))) whole taken) e)
          ∙ whole
      | inr short ↦
          let (x, fails) = net.read_exact-end s n (ground (arith, short)) in
          absurd (short_fails n s b (net.read_exact s n).0 x fails e)
    ];
  }
