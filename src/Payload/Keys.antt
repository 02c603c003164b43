-- ===== src/Payload/Keys.antt =====
-- Keys joined by ':' (internal/webhookpayload/transfer.go, and the dedupe_key of internal/db/scanner.go).
use Prim.Native.Char.{code}
use text.Mathlib.TextLemmas.{
  append_assoc, cons-append, nil-append, head-eq_of_cons-eq, tail-eq_of_cons-eq,
}
use tronvent.Base.{
  String, ◌<>◌, false, ◌≡◌, refl, sym, ◌∙◌, ap, ap₂, arith, has_char, has_char-trim_space,
  trim_space,
}
use tronvent.Payload.{transfer_dedupe_key}

abbrev pub NoColon : String → Type 0
NoColon s = has_char 58 s ≡ false

colon_append : (x : String) → ":" <> x ≡ String.◌∷◌ ":" x
colon_append x = cons-append ":" "" x ∙ ap (String.◌∷◌ ":") (nil-append x)

-- The first ':' ends the first part.
pub split_unique :
    (s t x y : String)
    → NoColon s
    → NoColon t
    → s <> (":" <> x) ≡ t <> (":" <> y)
    → (s ≡ t) × (x ≡ y)
unfolding has_char
split_unique String.[] String.[] x y hs ht e = (
  refl,
  tail-eq_of_cons-eq (sym (nil-append _ ∙ colon_append x) ∙ e ∙ (nil-append _ ∙ colon_append y)),
)
split_unique String.[] (String.◌∷◌ d t) x y hs ht e =
    let p = sym (nil-append _ ∙ colon_append x) ∙ e ∙ cons-append d t (":" <> y) in
    absurd (cc (ap code (head-eq_of_cons-eq p), ht))
split_unique (String.◌∷◌ c s) String.[] x y hs ht e =
    let p = sym (cons-append c s (":" <> x)) ∙ e ∙ (nil-append _ ∙ colon_append y) in
    absurd (cc (ap code (head-eq_of_cons-eq p), hs))
split_unique (String.◌∷◌ c s) (String.◌∷◌ d t) x y hs ht e =
    let p = sym (cons-append c s (":" <> x)) ∙ e ∙ cons-append d t (":" <> y) in
    let (same, rest) = split_unique s t x y (ground arith) (ground arith) (tail-eq_of_cons-eq p) in
    (ap₂ String.◌∷◌ (head-eq_of_cons-eq p) same, rest)

-- The transfer key determines the trimmed parts of the leg, where a ':' ends it.
pub transfer_dedupe_key_unique :
    (f t a f' t' a' x y : String)
    → NoColon f
    → NoColon t
    → NoColon a
    → NoColon f'
    → NoColon t'
    → NoColon a'
    → transfer_dedupe_key f t a <> (":" <> x) ≡ transfer_dedupe_key f' t' a' <> (":" <> y)
    → (trim_space f ≡ trim_space f')
      × (trim_space t ≡ trim_space t')
      × (trim_space a ≡ trim_space a')
      × (x ≡ y)
unfolding transfer_dedupe_key
transfer_dedupe_key_unique f t a f' t' a' x y hf ht ha hf' ht' ha' e =
    let nc = λ (s : String) (h : NoColon s). has_char-trim_space 58 s h in
    let e1 = simp append_assoc at e in
    let (p, e2) = split_unique _ _ _ _ (nc f hf) (nc f' hf') e1 in
    let (q, e3) = split_unique _ _ _ _ (nc t ht) (nc t' ht') e2 in
    let (r, e4) = split_unique _ _ _ _ (nc a ha) (nc a' ha') e3 in (p, q, r, e4)
