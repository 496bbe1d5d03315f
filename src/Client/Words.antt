-- ===== src/Client/Words.antt =====
-- The words of a line: `splitn(3, ' ')`, the command word, and the interface to `str::trim` and
-- `str::to_uppercase`.
use mini_db.Prelude.{
  ℕ, zero, suc, ◌-◌, ◌≡◌, refl, Bool, true, false, ◌&&◌, Option, none, some, List, [], ◌∷◌, ◌++◌,
  ◌==◌, ltb, leb, if◌then◌else◌, arith,
}
use mini_db.Prelude.Text.{codes}
use mini_db.Bytes.{Bytes, bytes_eq}

-- A visible ASCII character.
unfoldable pub is_graphic : ℕ → Bool
is_graphic b = leb 33 b && leb b 126

abbrev pub starts_graphic : Bytes → Bool
starts_graphic [] = false
starts_graphic (b ∷ bs) = is_graphic b

unfoldable pub ends_graphic : Bytes → Bool
ends_graphic [] = false
ends_graphic (b ∷ []) = is_graphic b
ends_graphic (b ∷ c ∷ bs) = ends_graphic (c ∷ bs)

abbrev pub all_ascii : Bytes → Bool
all_ascii [] = true
all_ascii (b ∷ bs) = ltb b 128 && all_ascii bs

abbrev pub ascii_upper : ℕ → ℕ
ascii_upper b = if leb 97 b && leb b 122 then b - 32 else b

abbrev pub ascii_uppercase : Bytes → Bytes
ascii_uppercase [] = []
ascii_uppercase (b ∷ bs) = ascii_upper b ∷ ascii_uppercase bs

pub record Text : Type 0 where
  pub trim : Bytes → Bytes
  pub to_uppercase : Bytes → Bytes
  -- `trim` takes the end of a line off, and nothing off a text between two visible characters
  pub trim-empty : trim [] ≡ []
  pub trim-line :
      (b : Bytes) → starts_graphic b ≡ true → ends_graphic b ≡ true → trim (b ++ 10 ∷ []) ≡ b
  pub to_uppercase-ascii : (b : Bytes) → all_ascii b ≡ true → to_uppercase b ≡ ascii_uppercase b

-- What stands before and behind the first space.
unfoldable pub split_once : Bytes → Option (Bytes × Bytes)
split_once [] = none
split_once (b ∷ bs) =
    let rest = split_once bs in
    if b == 32
    then some ([], bs)
    else (elim rest [ none ↦ none | some (word, behind) ↦ some (b ∷ word, behind) ])

-- `input.splitn(n, ' ')`
unfoldable pub splitn : ℕ → Bytes → List Bytes
splitn zero input = []
splitn (suc zero) input = input ∷ []
splitn (suc (suc n)) input = elim (split_once input) [
  | none ↦ input ∷ []
  | some (word, behind) ↦ word ∷ splitn (suc n) behind
]

-- The arms of the loop's `match`.
pub data Word : Type 0 where
  quit ping get set del stats create info drop use_db other : Word

unfoldable pub word_of : Bytes → Word
word_of cmd =
    if bytes_eq cmd (codes "QUIT")
    then quit
    else if bytes_eq cmd (codes "PING")
    then ping
    else if bytes_eq cmd (codes "GET")
    then get
    else if bytes_eq cmd (codes "SET")
    then set
    else if bytes_eq cmd (codes "DEL")
    then del
    else if bytes_eq cmd (codes "STATS")
    then stats
    else if bytes_eq cmd (codes "CREATE")
    then create
    else if bytes_eq cmd (codes "INFO")
    then info
    else if bytes_eq cmd (codes "DROP")
    then drop
    else if bytes_eq cmd (codes "USE")
    then use_db
    else other

abbrev pub has_space : Bytes → Bool
has_space [] = false
has_space (b ∷ bs) = if b == 32 then true else has_space bs

pub split_once_word : (w v : Bytes) → has_space w ≡ false → split_once (w ++ 32 ∷ v) ≡ some (w, v)
unfolding split_once
split_once_word [] v h = refl
split_once_word (b ∷ w) v h = ground (arith, split_once_word w v)

pub split_once-none : (w : Bytes) → has_space w ≡ false → split_once w ≡ none
unfolding split_once
split_once-none [] h = refl
split_once-none (b ∷ w) h = ground (arith, split_once-none w)

pub ends_graphic-append : (a b : Bytes) → ends_graphic b ≡ true → ends_graphic (a ++ b) ≡ true
unfolding ends_graphic
ends_graphic-append [] b h = h
ends_graphic-append (x ∷ []) (y ∷ b) h = h
ends_graphic-append (x ∷ []) [] h = cc
ends_graphic-append (x ∷ y ∷ a) b h = ends_graphic-append (y ∷ a) b h
