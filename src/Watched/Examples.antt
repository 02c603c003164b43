-- ===== src/Watched/Examples.antt =====
-- A history of one watched address (internal/db/scanner.go).
use tronvent.Base.{ℕ, none, List, [], ◌∷◌, ◌≡◌}
use tronvent.Watched.{Addresses, is_watched_address_active}
use tronvent.Watched.Membership.{Change, added, deactivated, changes, wanted, changes-active}

abbrev empty : Addresses
empty a = none

abbrev history : List (ℕ × Change)
history =
    (1, added "id" "Ta" "api")
    ∷ (2, deactivated "Ta")
    ∷ (3, added "x" "Tb" "api")
    ∷ (4, added "y" "Ta" "api")
    ∷ []

changes-active_example :
    is_watched_address_active (changes history empty) "Ta"
    ≡ wanted "Ta" (is_watched_address_active empty "Ta") history
changes-active_example = changes-active history empty "Ta"
