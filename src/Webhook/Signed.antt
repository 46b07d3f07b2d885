-- ===== src/Webhook/Signed.antt =====
-- Which requests internal/webhook/verify.go takes for signed.
use Prim.Native.Char.{code}
use Prim.Native.String.{◌++◌}
use mathlib.Core.Option.{some-injective}
use text.Mathlib.TextEquality.{Char-path}
use text.Mathlib.TextLemmas.{nil-append, cons-append}
use signalyard.Common.{
  ◌≡◌, refl, sym, ap, ◌∙◌, ◌↔◌, ◌⊎◌, inl, inr, String, String_eq, Bool, true, false, ◌||◌, Option,
  none, some, List, [], ◌∷◌, cut_prefix, trim_space, ◌==◌, if◌then◌else◌, nat_eq, nat_eq_iff,
  Bool-cases, eq_iff, arith,
}
use signalyard.Platform.Auth.{Crypto}
use signalyard.Webhook.Verify.{
  Tool, github, jira, pagerduty, marble_jar, Headers, cut_equals, check_hmac_header, any_part,
  tool_signature, verify_signature,
}

cut_prefix-append : (p r : String) → cut_prefix p (p ++ r) ≡ some r
unfolding cut_prefix
cut_prefix-append String.[] r = ap some (nil-append r)
cut_prefix-append (String.◌∷◌ c p) r =
    ap (cut_prefix (String.◌∷◌ c p)) (cons-append c p r)
    ∙ rw ((nat_eq_iff (code c) (code c)).1 refl) (cut_prefix-append p r)

append-cut_prefix : (p s r : String) → cut_prefix p s ≡ some r → s ≡ p ++ r
unfolding cut_prefix
append-cut_prefix String.[] s r h = some-injective s r h ∙ sym (nil-append r)
append-cut_prefix (String.◌∷◌ c p) String.[] r h = ground arith
append-cut_prefix (String.◌∷◌ c p) (String.◌∷◌ d s) r h =
    elim (Bool-cases (nat_eq (code c) (code d))) [
      | inl e ↦
          let q = Char-path c d ((nat_eq_iff (code c) (code d)).0 e) in
          ap (λ x. String.◌∷◌ x s) (sym q)
          ∙ ap (λ x. String.◌∷◌ c x) (append-cut_prefix p s r (rw e at h))
          ∙ sym (cons-append c p r)
      | inr e ↦ let k = rw e at h in ground arith
    ]

cut_equals_iff :
    (prefix header want : String)
    → (cut_equals (cut_prefix prefix header) want ≡ true) ↔ (header ≡ prefix ++ want)
cut_equals_iff prefix header want = (sound, complete)
  where
    of_result :
        (o : Option String)
        → cut_prefix prefix header ≡ o
        → cut_equals o want ≡ true
        → header ≡ prefix ++ want
    of_result none e h = ground arith
    of_result (some got) e h =
        append-cut_prefix prefix header got e ∙ ap (λ x. prefix ++ x) ((eq_iff got want).0 h)

    sound : cut_equals (cut_prefix prefix header) want ≡ true → header ≡ prefix ++ want
    sound = of_result (cut_prefix prefix header) refl

    complete : header ≡ prefix ++ want → cut_equals (cut_prefix prefix header) want ≡ true
    complete h = rw (h, cut_prefix-append prefix want) ((eq_iff want want).1 refl)

absurd_at : {b : Bool} → false ≡ true → b ≡ true
absurd_at h = ground arith

module _ {P Q : Type 0} where
  either_iff :
      (a b : Bool) → (a ≡ true) ↔ P → (b ≡ true) ↔ Q → ((if a then true else b) ≡ true) ↔ (P ⊎ Q)
  either_iff true b p q = (λ h. inl (p.0 refl), λ h. refl)
  either_iff false b p q =
      (λ h. inr (q.0 h), λ h. elim h [ inl x ↦ absurd_at (p.1 x) | inr y ↦ q.1 y ])

  or_iff : (a b : Bool) → (a ≡ true) ↔ P → (b ≡ true) ↔ Q → ((a || b) ≡ true) ↔ (P ⊎ Q)
  or_iff true b p q = either_iff true b p q
  or_iff false b p q = either_iff false b p q

guarded_iff :
    {P : Type 0} (c b : Bool)
    → (b ≡ true) ↔ P
    → ((if c then false else b) ≡ true) ↔ ((c ≡ false) × P)
guarded_iff true b p = (λ h. ground arith, λ h. sym (h.0))
guarded_iff false b p = (λ h. (refl, p.0 h), λ h. p.1 (h.1))

-- One of the parts of the header is a signature.
abbrev pub IsPart : String → List String → Type 0
IsPart want [] = ⊥
IsPart want (part ∷ rest) = (trim_space part ≡ "v1=" ++ want) ⊎ IsPart want rest

any_part_iff :
    (want : String) (parts : List String) → (any_part want parts ≡ true) ↔ IsPart want parts
unfolding any_part
any_part_iff want [] = (λ h. ground arith, λ h. elim h [ ])
any_part_iff want (part ∷ rest) =
    either_iff (cut_equals (cut_prefix "v1=" (trim_space part)) want) (any_part want rest)
      (cut_equals_iff "v1=" (trim_space part) want) (any_part_iff want rest)

module _ ⦃crypto : Crypto⦄ where
  -- What a tool is to send: the HMAC of the body under the secret, behind its prefix.
  abbrev pub Carries : Tool → Headers → (body secret : String) → Type 0
  Carries github h body secret =
      (h.hub_signature_256 ≡ "sha256=" ++ crypto.hmac_sha256 secret body)
      ⊎ (h.hub_signature ≡ "sha1=" ++ crypto.hmac_sha1 secret body)
  Carries pagerduty h body secret = IsPart (crypto.hmac_sha256 secret body) h.pager_duty_parts
  Carries jira h body secret = h.signalyard_signature ≡ "sha256=" ++ crypto.hmac_sha256 secret body
  Carries marble_jar h body secret =
      h.signalyard_signature ≡ "sha256=" ++ crypto.hmac_sha256 secret body

  tool_signature_iff :
      (tool : Tool) (h : Headers) (body secret : String)
      → (tool_signature tool h body secret ≡ true) ↔ Carries tool h body secret
  unfolding tool_signature check_hmac_header
  tool_signature_iff github h body secret =
      or_iff _ _ (cut_equals_iff _ h.hub_signature_256 _) (cut_equals_iff _ h.hub_signature _)
  tool_signature_iff pagerduty h body secret = any_part_iff _ h.pager_duty_parts
  tool_signature_iff jira h body secret = cut_equals_iff _ h.signalyard_signature _
  tool_signature_iff marble_jar h body secret = cut_equals_iff _ h.signalyard_signature _

  -- A request is taken for signed exactly if the tool's secret is configured and the tool's header carries
  -- the HMAC of the body under it: for GitHub either of its two headers, for PagerDuty any part of its header.
  pub verify_signature_iff :
      (tool : Tool) (h : Headers) (body secret : String)
      → (verify_signature tool h body secret ≡ true)
        ↔ (((secret == "") ≡ false) × Carries tool h body secret)
  unfolding verify_signature
  verify_signature_iff tool h body secret =
      guarded_iff (secret == "") _ (tool_signature_iff tool h body secret)
