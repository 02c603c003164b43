-- ===== src/Retry/Header.antt =====
-- strconv.ParseInt(s, 10, 64), as internal/webhookspec/retry.go uses it: the number where it is
-- read and is not negative.
use Prim.Native.Char.{code}
use tronvent.Base.{
  ℕ, ◌+◌, ◌-◌, ◌*◌, ◌^◌, String, Bool, true, false, ◌&&◌, Option, none, some, ltb, leb, ◌==◌, ◌≡◌,
  refl, if◌then◌else◌,
}

-- The digits so far make `n`; `seen` says that there was one.
unfoldable pub digits : ℕ → Bool → String → Option ℕ
digits n seen String.[] = if seen && ltb n (2 ^ 63) then some n else none
digits n seen (String.◌∷◌ c s) =
    let rest = digits (10 * n + (code c - 48)) true s in
    if leb 48 (code c) && leb (code c) 57 then rest else none

-- A text after '-' is not negative only where it reads 0.
zero_only : Option ℕ → Option ℕ
zero_only none = none
zero_only (some n) = if n == 0 then some 0 else none

unfoldable pub parse_int : String → Option ℕ
unfolding digits zero_only
parse_int String.[] = none
parse_int (String.◌∷◌ c s) =
    if code c == b'+'
    then digits 0 false s
    else if code c == b'-'
    then zero_only (digits 0 false s)
    else digits 0 false (String.◌∷◌ c s)

reads : parse_int "120" ≡ some 120
unfolding parse_int
reads = refl

reads_no_date : parse_int "Wed, 21 Oct" ≡ none
unfolding parse_int
reads_no_date = refl
