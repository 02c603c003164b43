-- ===== src/Confirm/Examples.antt =====
-- A database that fails twice before it answers (internal/scanner/address_confirm.go).
use tronvent.Base.{ℕ, zero, suc, String, Bool, false, ◌≡◌, ◌≢◌, refl, arith, eq_iff, str_eq}
use tronvent.Confirm.{Answer, answered, failed, Database}
use tronvent.Confirm.FailOpen.{OnAnswer, Truthful}

abbrev pub on_list : String → Bool
on_list a = str_eq a "Tb"

-- The first query fails.
abbrev late : ℕ → String → Answer Bool
late zero a = failed
late (suc n) a = answered (on_list a)

abbrev pub failing : Database
failing = record {
  is_watched_address_active = late;
  active_watched_addresses = λ n names. failed;
  sleep_cancelled = λ n. false;
}

late_true : (n : ℕ) (a : String) → OnAnswer (λ b. b ≡ on_list a) (late n a)
late_true zero a = tt
late_true (suc n) a = refl

pub failing-Truthful : Truthful failing on_list
failing-Truthful = record { one = late_true; many = λ n names. tt }

receiver_named : ◌≢◌ {A = String} "Tb" ""
receiver_named = ground (arith, eq_iff "Tb" "")
