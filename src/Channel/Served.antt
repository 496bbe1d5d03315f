-- ===== src/Channel/Served.antt =====
-- Queries with the numbers of their replies, and what a connection that waits, or has its reply, has.
use mini_db.Prelude.{
  ℕ, ◌+◌, ◌≤◌, ◌≡◌, ◌==◌, ==_iff, refl, sym, ap, ◌∙◌, Bool-cases, inl, inr, some, List, [], ◌∷◌,
  ◌++◌, length, length-append, get_elem?, get_elem?-longer, get_elem?-snoc, All, All-append,
  All-split, arith,
}
use mini_db.Result.{Result}
use mini_db.Protocol.{Response}
use mini_db.Worker.{Query}
use mini_db.Channel.{Holder, holding, waiting, replying, deliver, deliver_all}

-- Queries with their numbers.
abbrev pub numbered : ℕ → List Query → List (ℕ × Query)
numbered n [] = []
numbered n (q ∷ qs) = (n, q) ∷ numbered (n + 1) qs

pub numbered-snoc :
    (n : ℕ) (qs : List Query) (q : Query)
    → numbered n (qs ++ q ∷ []) ≡ numbered n qs ++ (n + length qs, q) ∷ []
numbered-snoc n [] q = ap (λ k. (k, q) ∷ []) (omega arith)
numbered-snoc n (x ∷ qs) q =
    ap (λ t. (n, x) ∷ t)
      (numbered-snoc (n + 1) qs q ∙ ap (λ k. numbered (n + 1) qs ++ (k, q) ∷ []) (omega arith))

-- Of the queries sent and the replies given: one that is waited for was sent and has no reply yet,
-- and a reply that a connection has is that of its query.
abbrev pub IsServed : List Query → List (Result Response) → Holder → Type 0
IsServed qs rs (holding q) = Unit {0}
IsServed qs rs (waiting n q) = (get_elem? qs n ≡ some q) × (length rs ≤ n)
IsServed qs rs (replying n q reply) = (get_elem? qs n ≡ some q) × (get_elem? rs n ≡ some reply)

pub IsServed-longer :
    (qs : List Query) (rs : List (Result Response)) (x : Query) (hs : List Holder)
    → All (IsServed qs rs) hs
    → All (IsServed (qs ++ x ∷ []) rs) hs
IsServed-longer qs rs x [] a = tt
IsServed-longer qs rs x (holding q ∷ hs) a = (tt, IsServed-longer qs rs x hs a.1)
IsServed-longer qs rs x (waiting n q ∷ hs) ((sent, later), a) =
    ((get_elem?-longer qs (x ∷ []) n q sent, later), IsServed-longer qs rs x hs a)
IsServed-longer qs rs x (replying n q r ∷ hs) ((sent, given), a) =
    ((get_elem?-longer qs (x ∷ []) n q sent, given), IsServed-longer qs rs x hs a)

pub deliver_all-IsServed :
    (qs : List Query) (rs : List (Result Response)) (n : ℕ) (reply : Result Response)
    (hs : List Holder)
    → length rs ≡ n
    → All (IsServed qs rs) hs
    → All (IsServed qs (rs ++ reply ∷ [])) (deliver_all n reply hs)
deliver_all-IsServed qs rs n reply [] e a = tt
deliver_all-IsServed qs rs n reply (holding q ∷ hs) e a =
    (tt, deliver_all-IsServed qs rs n reply hs e a.1)
deliver_all-IsServed qs rs n reply (replying m q r ∷ hs) e ((sent, given), a) =
    ((sent, get_elem?-longer rs (reply ∷ []) m r given), deliver_all-IsServed qs rs n reply hs e a)
deliver_all-IsServed qs rs n reply (waiting m q ∷ hs) e ((sent, later), a) =
    (delivered, deliver_all-IsServed qs rs n reply hs e a)
  where
    delivered : IsServed qs (rs ++ reply ∷ []) (deliver n reply (waiting m q))
    delivered = elim (Bool-cases (n == m)) [
      | inl same ↦
          let number : length rs ≡ m = e ∙ (==_iff n m).0 same in
          rw same (sent, ap (get_elem? (rs ++ reply ∷ [])) (sym number) ∙ get_elem?-snoc rs reply)
      | inr apart ↦ rw apart (sent, ground (arith, length-append rs (reply ∷ [])))
    ]

pub All-without :
    (qs : List Query) (rs : List (Result Response)) (before : List Holder) (h : Holder)
    (behind : List Holder)
    → All (IsServed qs rs) (before ++ h ∷ behind)
    → All (IsServed qs rs) (before ++ behind)
All-without qs rs before h behind a =
    let (first, rest) = All-split (IsServed qs rs) before (h ∷ behind) a in
    All-append (IsServed qs rs) before behind first rest.1

pub All-swap :
    (qs : List Query) (rs : List (Result Response)) (before : List Holder) (h k : Holder)
    (behind : List Holder)
    → IsServed qs rs k
    → All (IsServed qs rs) (before ++ h ∷ behind)
    → All (IsServed qs rs) (before ++ k ∷ behind)
All-swap qs rs before h k behind new a =
    let (first, rest) = All-split (IsServed qs rs) before (h ∷ behind) a in
    All-append (IsServed qs rs) before (k ∷ behind) first (new, rest.1)

pub someone :
    (before : List Holder) (h : Holder) (behind : List Holder) → before ++ h ∷ behind ≡ [] → ⊥
someone [] h behind e = cc
someone (b ∷ before) h behind e = cc

pub first :
    (k : ℕ) (pending : List Query) (n : ℕ) (q : Query) (rest : List (ℕ × Query))
    → numbered k pending ≡ (n, q) ∷ rest
    → (others : List Query) × (pending ≡ q ∷ others) × (n ≡ k) × (rest ≡ numbered (k + 1) others)
first k [] n q rest e = cc
first k (x ∷ xs) n q rest e = (xs, cc, cc, cc)

pub nothing : (k : ℕ) (pending : List Query) → numbered k pending ≡ [] → pending ≡ []
nothing k [] e = refl
nothing k (x ∷ xs) e = cc
