-- ===== src/Watched/Membership.antt =====
-- Which addresses the table scanner_watched_addresses holds active (internal/db/scanner.go).
use tronvent.Base.{
  ℕ, String, Bool, true, false, List, [], ◌∷◌, ◌≡◌, ◌∙◌, refl, arith, str_eq, eq_iff, if◌then◌else◌,
}
use tronvent.Watched.{
  Addresses, add_watched_address, deactivate_watched_address, is_watched_address_active,
}

-- A call of the API or of the start.
pub data Change : Type 0 where
  added : String → String → String → Change
  deactivated : String → Change

unfoldable pub change : ℕ → Change → Addresses → Addresses
change now (added id address source) t = (add_watched_address now id t address source).0
change now (deactivated address) t = (deactivate_watched_address now t address).0

unfoldable pub changes : List (ℕ × Change) → Addresses → Addresses
changes [] t = t
changes ((now, c) ∷ cs) t = changes cs (change now c t)

-- What the last call about the address asked for, if there was one.
unfoldable pub wanted : String → Bool → List (ℕ × Change) → Bool
wanted a before [] = before
wanted a before ((now, added id address source) ∷ cs) =
    wanted a (if str_eq address a then true else before) cs
wanted a before ((now, deactivated address) ∷ cs) =
    wanted a (if str_eq address a then false else before) cs

change-active :
    (now : ℕ) (c : Change) (t : Addresses) (a : String)
    → is_watched_address_active (change now c t) a
      ≡ wanted a (is_watched_address_active t a) ((now, c) ∷ [])
unfolding is_watched_address_active change wanted add_watched_address deactivate_watched_address
change-active now (added id address source) t a = ground (arith, eq_iff address a)
change-active now (deactivated address) t a = ground (arith, eq_iff address a)

wanted_same :
    (a : String) (b b' : Bool) (cs : List (ℕ × Change)) → b ≡ b' → wanted a b cs ≡ wanted a b' cs
wanted_same a b b' cs e = rw e

-- An address is active after any history of additions and deactivations exactly where the last call
-- about it was an addition, or, if there was none, where it was active before.
pub changes-active :
    (cs : List (ℕ × Change)) (t : Addresses) (a : String)
    → is_watched_address_active (changes cs t) a ≡ wanted a (is_watched_address_active t a) cs
unfolding changes wanted
changes-active [] t a = refl
changes-active ((now, added id address source) ∷ cs) t a =
    changes-active cs (change now (added id address source) t) a
    ∙ wanted_same a _ _ cs (change-active now (added id address source) t a)
changes-active ((now, deactivated address) ∷ cs) t a =
    changes-active cs (change now (deactivated address) t) a
    ∙ wanted_same a _ _ cs (change-active now (deactivated address) t a)
