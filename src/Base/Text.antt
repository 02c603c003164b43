-- ===== src/Base/Text.antt =====
-- Go's string helpers that the program calls, over the native text.
use Prim.Native.Nat.{ℕ, ◌+◌, ◌-◌}
use Prim.Native.Char.{Char, code}
use Prim.Native.String.{String, ◌++◌ as ◌<>◌}
use mathlib.Core.Path.{◌≡◌, refl, ap, ap₂, ◌∙◌}
use mathlib.Core.Bool.{Bool, true, false, not, ◌||◌, ◌&&◌}
use mathlib.Core.Logic.{inl, inr}
use native.Mathlib.Omega.{arith}
use text.Mathlib.Text.{◌==◌ as str_eq}
use text.Mathlib.TextEquality.{Char-path}
use text.Mathlib.TextLemmas.{cons-append, nil-append}
use package.tronvent.Base.Tests.{Bool-cases, leb, ◌==◌, if◌then◌else◌}

-- unicode.IsSpace
pub is_space : Char → Bool
is_space c =
    (leb 9 (code c) && leb (code c) 13)
    || code c == 32
    || code c == 0x85
    || code c == 0xa0
    || code c == 0x1680
    || (leb 0x2000 (code c) && leb (code c) 0x200a)
    || code c == 0x2028
    || code c == 0x2029
    || code c == 0x202f
    || code c == 0x205f
    || code c == 0x3000

trim_left : String → String
trim_left String.[] = String.[]
trim_left (String.◌∷◌ c s) = let rest = trim_left s in if is_space c then rest else String.◌∷◌ c s

is_nil : String → Bool
is_nil String.[] = true
is_nil (String.◌∷◌ c s) = false

trim_right : String → String
trim_right String.[] = String.[]
trim_right (String.◌∷◌ c s) =
    let rest = trim_right s in if is_space c && is_nil rest then String.[] else String.◌∷◌ c rest

-- strings.TrimSpace
unfoldable pub trim_space : String → String
unfolding trim_left trim_right is_nil is_space
trim_space s = trim_right (trim_left s)

trims : trim_space "  a b " ≡ "a b"
unfolding trim_space
trims = refl

-- unicode.ToUpper and unicode.ToLower, exact for every character whose image is an ASCII letter.
upper : ℕ → ℕ
upper c =
    if leb b'a' c && leb c b'z'
    then c - 32
    else if c == 0x131
    then b'I'
    else if c == 0x17f
    then b'S'
    else c

lower : ℕ → ℕ
lower c =
    if leb b'A' c && leb c b'Z'
    then c + 32
    else if c == 0x130
    then b'i'
    else if c == 0x212a
    then b'k'
    else c

same_under : (ℕ → ℕ) → String → String → Bool
same_under f String.[] String.[] = true
same_under f String.[] (String.◌∷◌ d t) = false
same_under f (String.◌∷◌ c s) String.[] = false
same_under f (String.◌∷◌ c s) (String.◌∷◌ d t) = f (code c) == code d && same_under f s t

-- strings.ToUpper(s) == t and strings.ToLower(s) == t, for an ASCII text t
unfoldable pub to_upper_is : String → String → Bool
unfolding same_under upper
to_upper_is = same_under upper

unfoldable pub to_lower_is : String → String → Bool
unfolding same_under lower
to_lower_is = same_under lower

-- Whether a text has a given character.
unfoldable pub has_char : ℕ → String → Bool
has_char n String.[] = false
has_char n (String.◌∷◌ c s) = code c == n || has_char n s

has_char-trim_left : (n : ℕ) (s : String) → has_char n s ≡ false → has_char n (trim_left s) ≡ false
unfolding has_char trim_left
has_char-trim_left n String.[] h = refl
has_char-trim_left n (String.◌∷◌ c s) h = ground (arith, has_char-trim_left n s)

has_char-trim_right :
    (n : ℕ) (s : String) → has_char n s ≡ false → has_char n (trim_right s) ≡ false
unfolding has_char trim_right
has_char-trim_right n String.[] h = refl
has_char-trim_right n (String.◌∷◌ c s) h = elim (Bool-cases (is_space c && is_nil (trim_right s))) [
  | inl e ↦ rw e
  | inr e ↦ rw e (ground (arith, has_char-trim_right n s))
]

-- Trimming brings in no character.
pub has_char-trim_space :
    (n : ℕ) (s : String) → has_char n s ≡ false → has_char n (trim_space s) ≡ false
unfolding trim_space
has_char-trim_space n s h = has_char-trim_right n (trim_left s) (has_char-trim_left n s h)

-- strings.HasPrefix
unfoldable pub has_prefix : String → String → Bool
has_prefix String.[] s = true
has_prefix (String.◌∷◌ c p) String.[] = false
has_prefix (String.◌∷◌ c p) (String.◌∷◌ d s) = code c == code d && has_prefix p s

-- strings.TrimPrefix
unfoldable pub trim_prefix : String → String → String
trim_prefix p s = if has_prefix p s then rest_after p s else s
  where
    rest_after : String → String → String
    rest_after String.[] s = s
    rest_after (String.◌∷◌ c p) String.[] = String.[]
    rest_after (String.◌∷◌ c p) (String.◌∷◌ d s) = rest_after p s

same_codes : (m n : ℕ) (b : Bool) → (m == n && b) ≡ true → (m ≡ n) × (b ≡ true)
same_codes m n b h = (ground (arith, h), ground (arith, h))

trim_prefix-cons :
    (c d : Char) (p s : String)
    → code c ≡ code d
    → has_prefix p s ≡ true
    → trim_prefix (String.◌∷◌ c p) (String.◌∷◌ d s) ≡ trim_prefix p s
unfolding trim_prefix has_prefix
trim_prefix-cons c d p s e h = ground (arith, e, h)

-- What is trimmed off stands before the rest.
pub append-trim_prefix : (p s : String) → has_prefix p s ≡ true → p <> trim_prefix p s ≡ s
unfolding trim_prefix has_prefix
append-trim_prefix String.[] s h = nil-append s
append-trim_prefix (String.◌∷◌ c p) String.[] h = absurd (cc h)
append-trim_prefix (String.◌∷◌ c p) (String.◌∷◌ d s) h =
    let both = same_codes (code c) (code d) (has_prefix p s) h in
    ap (λ t. String.◌∷◌ c p <> t) (trim_prefix-cons c d p s both.0 both.1)
    ∙ cons-append c p (trim_prefix p s)
    ∙ ap₂ String.◌∷◌ (Char-path c d both.0) (append-trim_prefix p s both.1)

trims_prefix : trim_prefix "whsec_" "whsec_ab" ≡ "ab"
unfolding trim_prefix has_prefix
trims_prefix = refl

-- The text does not start with a space.
abbrev starts_inside : String → Bool
starts_inside String.[] = true
starts_inside (String.◌∷◌ c s) = not (is_space c)

starts_inside-trim_left : (s : String) → starts_inside (trim_left s) ≡ true
unfolding trim_left
starts_inside-trim_left String.[] = refl
starts_inside-trim_left (String.◌∷◌ c s) = elim (Bool-cases (is_space c)) [
  | inl e ↦ rw e (starts_inside-trim_left s)
  | inr e ↦ rw (e, e)
]

trim_left_same : (s : String) → starts_inside s ≡ true → trim_left s ≡ s
unfolding trim_left
trim_left_same String.[] h = refl
trim_left_same (String.◌∷◌ c s) h = elim (Bool-cases (is_space c)) [
  | inl e ↦ absurd (cc (rw e at h))
  | inr e ↦ rw e
]

starts_inside-trim_right :
    (s : String) → starts_inside s ≡ true → starts_inside (trim_right s) ≡ true
unfolding trim_right
starts_inside-trim_right String.[] h = refl
starts_inside-trim_right (String.◌∷◌ c s) h =
    elim (Bool-cases (is_space c && is_nil (trim_right s))) [ inl e ↦ rw e | inr e ↦ rw e h ]

trim_right_twice : (s : String) → trim_right (trim_right s) ≡ trim_right s
unfolding trim_right
trim_right_twice String.[] = refl
trim_right_twice (String.◌∷◌ c s) = elim (Bool-cases (is_space c && is_nil (trim_right s))) [
  | inl e ↦ rw e
  | inr e ↦ rw (e, trim_right_twice s, e)
]

-- Trimming twice is trimming once.
pub trim_space_twice : (s : String) → trim_space (trim_space s) ≡ trim_space s
unfolding trim_space
trim_space_twice s =
    ap trim_right (
      trim_left_same (trim_right (trim_left s))
        (starts_inside-trim_right (trim_left s) (starts_inside-trim_left s)))
    ∙ trim_right_twice (trim_left s)

-- strings.HasSuffix
unfoldable pub has_suffix : String → String → Bool
has_suffix p String.[] = str_eq String.[] p
has_suffix p (String.◌∷◌ c s) = str_eq (String.◌∷◌ c s) p || has_suffix p s
