-- ===== src/Scanner/Steps.antt =====
-- Actions of a scan (internal/scanner/poller.go): they change the replica's world, and may return an
-- error, beside which the changed world stays. A loop that runs on fuel may be left `unfinished`.
use tronvent.Base.{Bool, true, false, Option, none, some, ◌≡◌, refl, if◌then◌else◌}

pub data Result {ℓ} (A : Type ℓ) : Type ℓ where
  done : A → Result A
  failed unfinished : Result A

abbrev pub Scan {ℓ} : Type 0 → Type ℓ → Type ℓ
Scan S A = S → S × Result A

module _ {S : Type 0} where
  abbrev pub pure {ℓ} : {A : Type ℓ} → A → Scan S A
  pure a w = (w, done a)

  abbrev pub fail {ℓ} : {A : Type ℓ} → Scan S A
  fail w = (w, failed)

  abbrev pub out_of_fuel {ℓ} : {A : Type ℓ} → Scan S A
  out_of_fuel w = (w, unfinished)

  abbrev pub modify : (S → S) → Scan S (Unit {0})
  modify f w = (f w, done tt)

  pub continue {ℓ κ} : {A : Type ℓ} {B : Type κ} → S × Result A → (A → Scan S B) → S × Result B
  continue (w, done a) f = f a w
  continue (w, failed) f = (w, failed)
  continue (w, unfinished) f = (w, unfinished)

  infixl 5 ◌>>=◌ ◌>>◌
  unfoldable pub ◌>>=◌ {ℓ κ} : {A : Type ℓ} {B : Type κ} → Scan S A → (A → Scan S B) → Scan S B
  unfolding continue
  ◌>>=◌ m f w = continue (m w) f

  abbrev pub ◌>>◌ {ℓ κ} : {A : Type ℓ} {B : Type κ} → Scan S A → Scan S B → Scan S B
  m >> n = m >>= λ _. n

  -- An answer that may be an error, or be missing.
  abbrev pub given {ℓ} : {A : Type ℓ} → Option A → Scan S A
  given none w = (w, failed)
  given (some a) w = (w, done a)

  abbrev pub required : Bool → Scan S (Unit {0})
  required true w = (w, done tt)
  required false w = (w, failed)

  -- What an action ends with: `Q` where it returns; it is never left unfinished.
  abbrev pub Holds {ℓ} : {A : Type ℓ} → (A → S → Type 0) → S × Result A → Type 0
  Holds Q (w, done a) = Q a w
  Holds Q (w, failed) = Unit
  Holds Q (w, unfinished) = ⊥

  pub record Ensures {ℓ} {A : Type ℓ} (P : S → Type 0) (m : Scan S A) (Q : A → S → Type 0)
      : Type 0 where
    pub at : (w : S) → P w → Holds Q (m w)

  continue-Holds {ℓ κ} :
      {A : Type ℓ} {B : Type κ} (R : A → S → Type 0) (Q : B → S → Type 0)
      → (x : S × Result A) (f : A → Scan S B) → Holds R x
      → ((a : A) → Ensures (R a) (f a) Q)
      → Holds Q (continue x f)
  unfolding continue
  continue-Holds R Q (w, done a) f h k = (k a).at w h
  continue-Holds R Q (w, failed) f h k = tt
  continue-Holds R Q (w, unfinished) f h k = h

  -- The rule for one action after another.
  pub bind-Ensures {ℓ κ} :
      {A : Type ℓ} {B : Type κ} {P : S → Type 0} (R : A → S → Type 0)
      → {Q : B → S → Type 0} {m : Scan S A} {f : A → Scan S B} → Ensures P m R
      → ((a : A) → Ensures (R a) (f a) Q)
      → Ensures P (m >>= f) Q
  unfolding ◌>>=◌
  bind-Ensures R {Q} {m} {f} h k = record { at = λ w p. continue-Holds R Q (m w) f (h.at w p) k }

  pub fail-Ensures {ℓ} : {A : Type ℓ} (P : S → Type 0) (Q : A → S → Type 0) → Ensures P fail Q
  fail-Ensures P Q = record { at = λ w p. tt }

  pub if-Ensures {ℓ} :
      {A : Type ℓ} (P : S → Type 0) (Q : A → S → Type 0) (b : Bool) (m n : Scan S A)
      → (b ≡ true → Ensures P m Q)
      → (b ≡ false → Ensures P n Q)
      → Ensures P (if b then m else n) Q
  if-Ensures P Q true m n h k = h refl
  if-Ensures P Q false m n h k = k refl
