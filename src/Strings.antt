-- ===== src/Strings.antt =====
-- What the program uses of Go's `strings` package: `Split` and `Join` on a one-byte separator, and tests on
-- prefixes and suffixes.
use Prim.Native.Nat.{ℕ}
use Prim.Native.Char.{Char, code}
use Prim.Native.String.append
use opendatahub_operator.Prelude.{
  String, ◌<>◌, ◌≡◌, refl, Bool, true, false, ◌&&◌, ◌||◌, ◌==◌, List, [], ◌∷◌, ◌++◌, ◌≢◌, nat_eq,
  if◌then◌else◌, arith,
}

-- A character before the first piece.
abbrev before : Char → List String → List String
before c [] = (String.◌∷◌ c String.[]) ∷ []
before c (piece ∷ pieces) = (String.◌∷◌ c piece) ∷ pieces

-- `strings.Split(s, sep)` for the separator with the given code: a text without it is one piece.
unfoldable pub split : ℕ → String → List String
split sep String.[] = "" ∷ []
split sep (String.◌∷◌ c s) =
    let rest = split sep s in if nat_eq (code c) sep then "" ∷ rest else before c rest

-- `strings.Join(pieces, sep)`
unfoldable pub join : String → List String → String
join sep [] = ""
join sep (s ∷ []) = s
join sep (s ∷ t ∷ rest) = s <> (sep <> join sep (t ∷ rest))

-- `strings.HasPrefix(s, prefix)`
unfoldable pub has_prefix : String → String → Bool
has_prefix s String.[] = true
has_prefix String.[] (String.◌∷◌ c p) = false
has_prefix (String.◌∷◌ d s) (String.◌∷◌ c p) = nat_eq (code d) (code c) && has_prefix s p

-- `strings.TrimPrefix(s, prefix)`
dropped : String → String → String
dropped s String.[] = s
dropped String.[] (String.◌∷◌ c p) = String.[]
dropped (String.◌∷◌ d s) (String.◌∷◌ c p) = dropped s p

unfoldable pub trim_prefix : String → String → String
unfolding dropped has_prefix
trim_prefix s prefix = if has_prefix s prefix then dropped s prefix else s

-- `strings.HasSuffix(s, suffix)`: the text ends in the suffix, whole or after a character.
unfoldable pub has_suffix : String → String → Bool
has_suffix String.[] suffix = String.[] == suffix
has_suffix (String.◌∷◌ c s) suffix = (String.◌∷◌ c s) == suffix || has_suffix s suffix

-- The text has no character with this code.
abbrev pub Lacks : ℕ → String → Type 0
Lacks sep String.[] = Unit {0}
Lacks sep (String.◌∷◌ c s) = (nat_eq (code c) sep ≡ false) × Lacks sep s

-- A text without the separator is not split.
pub split_of_Lacks : (sep : ℕ) (s : String) → Lacks sep s → split sep s ≡ s ∷ []
unfolding split
split_of_Lacks sep String.[] h = refl
split_of_Lacks sep (String.◌∷◌ c s) h = ground (arith, split_of_Lacks sep s h.1)

pub split-nonempty : (sep : ℕ) (s : String) → split sep s ≢ []
unfolding split
split-nonempty sep String.[] = ground arith
split-nonempty sep (String.◌∷◌ c s) = ground (arith, split-nonempty sep s)

before-append : (c : Char) (xs ys : List String) → xs ≢ [] → before c (xs ++ ys) ≡ before c xs ++ ys
before-append c [] ys h = absurd (h refl)
before-append c (x ∷ xs) ys h = refl

-- A separator between two texts separates their pieces.
pub split-append :
    (d : Char) (s t : String)
    → split (code d) (s <> (String.◌∷◌ d t)) ≡ split (code d) s ++ split (code d) t
unfolding split
split-append d String.[] t = rw append.nil (ground arith)
split-append d (String.◌∷◌ c s) t = rw append.cons (
    ground (
      arith,
      split-append d s t,
      split-nonempty (code d) s,
      before-append c (split (code d) s) (split (code d) t),
    ))
