-- ===== src/Gateway/Identity.antt =====
-- main.py: the one identity that the routes work for.
use agent_workload_platform.Prelude.{
  String, ◌≡◌, refl, sym, ap, ◌∙◌, inl, inr, true, false, not, ◌||◌, Option, none, some, List, [],
  ◌∷◌, map, arith, ◌==◌, eq_iff, if◌then◌else◌, Bool-cases, all, any, is_empty, ok, raise,
}
use mathlib.Core.Option.{some-injective}
use agent_workload_platform.Prelude.{http_error}
use agent_workload_platform.Gateway.{Gateway, one_member, normalized, allowed, normalized_identity}

-- Where every image is one text, that of a member is.
all-image :
    (f : String → String) (s v : String) (rest : List String)
    → all (λ t. t == s) (map f rest) ≡ true
    → any (λ t. t == v) rest ≡ true
    → f v ≡ s
all-image f s v [] h found = absurd (ground (arith, found))
all-image f s v (t ∷ rest) h found = elim (Bool-cases (t == v)) [
  | inl e ↦
      let p : t ≡ v = (eq_iff t v).0 e in
      let q : f t ≡ s = (eq_iff (f t) s).0 (ground (arith, h)) in ap f (sym p) ∙ q
  | inr e ↦ all-image f s v rest (ground (arith, h)) (ground (arith, found, e))
]

one_member-image :
    (f : String → String) (u v : String) (users : List String)
    → one_member (map f users) ≡ some u
    → any (λ t. t == v) users ≡ true
    → f v ≡ u
unfolding one_member
one_member-image f u v [] h found = absurd (ground (arith, found))
one_member-image f u v (t ∷ rest) h found =
    (elim (all (λ r. r == f t) (map f rest))
        as (λ b.
          all (λ r. r == f t) (map f rest) ≡ b
          → (if b then some (f t) else none) ≡ some u
          → f v ≡ u) [
            | true ↦ λ e g. elim (Bool-cases (t == v)) [
              | inl k ↦ let p : t ≡ v = (eq_iff t v).0 k in ap f (sym p) ∙ some-injective (f t) u g
              | inr k ↦
                  all-image f (f t) v rest e (ground (arith, found, k)) ∙ some-injective (f t) u g
            ]
            | false ↦ λ e g. cc
          ])
      refl h

module _ (gateway : Gateway) where
  allowed-ok :
      (value result : String) (o : Option String)
      → allowed gateway value o ≡ ok result
      → (o ≡ some result) × (result ≡ value) × (is_empty result ≡ false)
  unfolding allowed
  allowed-ok value result none h = cc
  allowed-ok value result (some user) h =
      (elim (is_empty value || not (value == user))
          as (λ b.
            (is_empty value || not (value == user)) ≡ b
            → (if b then raise (http_error 403 "tailnet identity is not allowed") else ok value)
              ≡ ok result
            → (some user ≡ some result) × (result ≡ value) × (is_empty result ≡ false)) [
              | true ↦ λ e g. cc
              | false ↦ λ e g.
                  let p : value ≡ user = (eq_iff value user).0 (ground (arith, e)) in
                  let q : value ≡ result = cc in
                  (ap some (sym p ∙ q), sym q, ap is_empty (sym q) ∙ ground (arith, e))
            ])
        refl h

  -- An identity that `normalized_identity` returns is not empty, and is the given one without blanks
  -- around it and in lower case, as is every configured user.
  pub normalized_identity-ok :
      (identity value user : String)
      → normalized_identity gateway identity ≡ ok value
      → any (λ t. t == user) gateway.allowed_users ≡ true
      → (value ≡ normalized gateway user)
        × (value ≡ normalized gateway identity)
        × (is_empty value ≡ false)
  unfolding normalized_identity
  normalized_identity-ok identity value user h found =
      let p =
        allowed-ok (normalized gateway identity) value
          (one_member (map (normalized gateway) gateway.allowed_users)) h in
      (
        sym (one_member-image (normalized gateway) value user gateway.allowed_users p.0 found),
        p.1,
        p.2,
      )
