-- ===== src/Stream/Shrinks.antt =====
-- Reads only ever take bytes off what comes in, and writes leave it alone.
use mini_db.Prelude.{
  ℕ, ◌≤◌, ◌<◌, ◌≡◌, refl, ap, sym, Bool, true, false, inl, inr, Bool-cases, [], ◌∷◌, length, take,
  drop, if◌then◌else◌, ltb, length-take, length-drop, take-append-drop, arith,
}
use mathlib.Core.Path.{subst}
use mini_db.Bytes.{Bytes}
use mini_db.Result.{Error, Result, ok, err}
use mini_db.Stream.Defs.{Stream, Outcome, got, failed}
use mini_db.Stream.Io.{
  Io, pure, raise, continue, result, ◌>>=◌, read_u8, read_u32_le, read_exact, write_all,
}

module _ ⦃net : Stream⦄ where
  open net use {Socket, incoming}

  abbrev pub left : Socket → ℕ
  left s = length (incoming s)

  -- Where the code succeeds, no more comes in behind it than before it.
  pub record Shrinks {A : Type 0} (io : Io A) : Type 0 where
    pub shrinks : (s : Socket) (a : A) → (io s).0 ≡ ok a → left (io s).1 ≤ left s

  pub Shrinks-pure : {A : Type 0} (a : A) → Shrinks (pure a)
  Shrinks-pure a = record { shrinks = λ s b h. omega arith }

  pub Shrinks-raise : {A : Type 0} (e : Error) → Shrinks (raise {A = A} e)
  Shrinks-raise e = record { shrinks = λ s b h. absurd (cc) }

  pub Shrinks-then :
      {A B : Type 0} (m : Io A) (f : A → Io B)
      → Shrinks m
      → ((a : A) → Shrinks (f a))
      → Shrinks (m >>= f)
  Shrinks-then {A} {B} m f first second = record { shrinks = λ s b h. both s b (m s).0 refl h }
    where
      both :
          (s : Socket) (b : B) (r : Result A)
          → (m s).0 ≡ r
          → (continue (m s).0 f (m s).1).0 ≡ ok b
          → left (continue (m s).0 f (m s).1).1 ≤ left s
      both s b (ok a) e h =
          let done : (f a (m s).1).0 ≡ ok b = rw e at h in
          rw e (omega (arith, first.shrinks s a e, (second a).shrinks (m s).1 b done))
      both s b (err x) e h = let failure : err x ≡ ok b = rw e at h in absurd (cc)

  pub Shrinks-if :
      {A : Type 0} (c : Bool) (a b : Io A) → Shrinks a → Shrinks b → Shrinks (if c then a else b)
  Shrinks-if true a b x y = x
  Shrinks-if false a b x y = y

  pub Shrinks-write_all : (b : Bytes) → Shrinks (write_all b)
  Shrinks-write_all b = record {
    shrinks = λ s u h. omega (arith, ap length (net.incoming-write_all s b));
  }

  -- A byte that is read is gone.
  pub read_u8_takes :
      (s : Socket) (n : ℕ) → (net.read_u8 s).0 ≡ got n → left (net.read_u8 s).1 < left s
  read_u8_takes s n h = by_incoming (incoming s) refl
    where
      by_incoming : (b : Bytes) → incoming s ≡ b → left (net.read_u8 s).1 < left s
      by_incoming [] e = let (x, failure) = net.read_u8-end s e in absurd (cc)
      by_incoming (c ∷ rest) e =
          omega (arith, ap length (net.read_u8-got s c rest e).1, ap length e)

  got_of : {A : Type 0} (o : Outcome A) (a : A) → result o ≡ ok a → o ≡ got a
  got_of (got b) a h = cc
  got_of (failed e) a h = absurd (cc)

  pub Shrinks-read_u8 : Shrinks read_u8
  Shrinks-read_u8 = record {
    shrinks = λ s n h. omega (arith, read_u8_takes s n (got_of (net.read_u8 s).0 n h));
  }

  word_taken :
      (s : Socket) (n : ℕ) (b : Bytes)
      → incoming s ≡ b
      → (net.read_u32_le s).0 ≡ got n
      → left (net.read_u32_le s).1 ≤ left s
  word_taken s n (a ∷ b ∷ c ∷ d ∷ rest) e h =
      omega (arith, ap length (net.read_u32_le-got s a b c d rest e).1, ap length e)
  word_taken s n _ e h =
      let (x, failure) = net.read_u32_le-end s (omega (arith, ap length e)) in absurd (cc)

  pub Shrinks-read_u32_le : Shrinks read_u32_le
  Shrinks-read_u32_le = record {
    shrinks = λ s n h. word_taken s n (incoming s) refl (got_of (net.read_u32_le s).0 n h);
  }

  exact_taken : (s : Socket) (n : ℕ) → n ≤ left s → left (net.read_exact s n).1 ≤ left s
  exact_taken s n enough =
      let front = take n (incoming s) in
      let size : length front ≡ n = omega (arith, length-take n (incoming s)) in
      let taken =
        (net.read_exact-got s front (drop n (incoming s))
          (sym (take-append-drop n (incoming s)))).1 in
      let taken' : incoming (net.read_exact s n).1 ≡ drop n (incoming s) =
        subst (λ k. incoming (net.read_exact s k).1 ≡ drop n (incoming s)) size taken in
      omega (arith, ap length taken', length-drop n (incoming s))

  pub Shrinks-read_exact : (n : ℕ) → Shrinks (read_exact n)
  Shrinks-read_exact n = record {
    shrinks = λ s b h. elim (Bool-cases (ltb (left s) n)) [
      | inl short ↦ let (x, failure) = net.read_exact-end s n (ground (arith, short)) in absurd (cc)
      | inr enough ↦ exact_taken s n (ground (arith, enough))
    ];
  }
