-- ===== src/Auth/Granted.antt =====
-- Who passes the check of a route that writes (app/auth/deps.py).
use e_bank_api.Prelude.{
  ◌∙◌, sym, ap, ◌≡◌, ◌≢◌, ◌⊎◌, refl, true, false, Option, some, if◌then◌else◌, arith, eq_iff,
  Bool-cases, inl, inr,
}
use e_bank_api.Errors.{auth_error}
use e_bank_api.Models.{Outcome, ok, err, ◌then◌}
use e_bank_api.Auth.{
  Principal, has_permission, Oidc, Headers, authenticate, forwarded, effective, built, bearer_token,
  as_http, resolve_effective_principal, require_principal, with_write, require_bank_write, end_user,
  require_authenticated_bank_write,
}

-- The user is the token's own, or the token is a service's whose request brings the shared secret and
-- names the user.
pub data IsFrom (o : Oidc) (h : Headers) (p : Principal) : Type 0 where
  own : authenticate o (bearer_token o h) ≡ ok p → IsFrom o h p
  trusted :
      (q : Principal)
      → authenticate o (bearer_token o h) ≡ ok q
      → q.is_m2m ≡ true
      → o.strip o.m2m_user_forward_secret ≢ ""
      → o.strip h.forward_secret ≡ o.strip o.m2m_user_forward_secret
      → p.subject ≡ o.strip h.user_sub
      → p.subject ≢ ""
      → IsFrom o h p

-- Inversion of a step that has a value.
then-eq-ok :
    {A B : Type 0} (r : Outcome A) (f : A → Outcome B) {b : B}
    → (r then f) ≡ ok b
    → (a : A) × (r ≡ ok a) × (f a ≡ ok b)
then-eq-ok (ok a) f e = (a, refl, e)
then-eq-ok (err x) f e = absurd (cc)

module _ (o : Oidc) (h : Headers) where
  effective-ok :
      (q p : Principal)
      → effective o q h ≡ ok p
      → ((q.is_m2m ≡ false) × (p ≡ q))
        ⊎ ((q.is_m2m ≡ true) × (p ≡ q))
        ⊎ ((q.is_m2m ≡ true)
            × (o.strip o.m2m_user_forward_secret ≢ "")
            × (o.strip h.forward_secret ≡ o.strip o.m2m_user_forward_secret)
            × (p.subject ≡ o.strip h.user_sub)
            × (p.subject ≢ "")
            × (p.is_m2m ≡ false))
  unfolding effective forwarded
  effective-ok q p e = ground (
    arith,
    eq_iff (o.strip o.m2m_user_forward_secret) "",
    eq_iff (o.strip h.forward_secret) (o.strip o.m2m_user_forward_secret),
    eq_iff (o.strip h.user_sub) "",
  )

  resolved-ok :
      (p : Principal)
      → resolve_effective_principal o (bearer_token o h) h ≡ ok p
      → (q : Principal) × (authenticate o (bearer_token o h) ≡ ok q) × (effective o q h ≡ ok p)
  unfolding resolve_effective_principal
  resolved-ok p e = elim (Bool-cases o.enabled) [
    | inl on ↦
        let run : (built o o.failure then λ _.
        authenticate o (bearer_token o h) then λ q. effective o q h)
            ≡ ok p =
          ground arith in
        let (_, _, rest) =
          then-eq-ok (built o o.failure)
            (λ _. authenticate o (bearer_token o h) then λ q. effective o q h) run in
        then-eq-ok (authenticate o (bearer_token o h)) (λ q. effective o q h) rest
    | inr off ↦ absurd (ground arith)
  ]

  as_http-ok :
      (r : Outcome Principal) (found : Option Principal)
      → as_http o r ≡ ok found
      → (p : Principal) × (r ≡ ok p) × (found ≡ some p)
  unfolding as_http
  as_http-ok (ok p) found e = (p, refl, ground arith)
  as_http-ok (err (auth_error x)) found e = absurd (cc)
  as_http-ok (err x) found e = absurd (cc)

  require_principal-ok :
      (found : Option Principal)
      → o.enabled ≡ true
      → require_principal o h ≡ ok found
      → (p : Principal) × (found ≡ some p)
        × (resolve_effective_principal o (bearer_token o h) h ≡ ok p)
  unfolding require_principal
  require_principal-ok found on e =
      let run : (built o o.failure then λ _.
      as_http o (resolve_effective_principal o (bearer_token o h) h))
          ≡ ok found =
        ground arith in
      let (_, _, shown) =
        then-eq-ok (built o o.failure)
          (λ _. as_http o (resolve_effective_principal o (bearer_token o h) h)) run in
      let (p, resolved, same) = as_http-ok _ found shown in (p, same, resolved)

  with_write-ok :
      (p : Principal) (user : Option Principal)
      → with_write o (some p) ≡ ok user
      → (user ≡ some p) × (has_permission p "bank:write" ≡ true)
  unfolding with_write
  with_write-ok p user e = ground arith

  end_user-ok : (p q : Principal) → end_user o (some p) ≡ ok q → (q ≡ p) × (p.is_m2m ≡ false)
  unfolding end_user
  end_user-ok p q e = ground arith

  require_authenticated-ok :
      (p : Principal)
      → o.enabled ≡ true
      → require_authenticated_bank_write o h ≡ ok p
      → (q : Principal) × (authenticate o (bearer_token o h) ≡ ok q)
        × (effective o q h ≡ ok p)
        × (has_permission p "bank:write" ≡ true)
        × (p.is_m2m ≡ false)
  unfolding require_authenticated_bank_write require_bank_write
  require_authenticated-ok p on e =
      let (user, writes, ends) = then-eq-ok (require_bank_write o h) (end_user o) e in
      let (found, principal, allowed) = then-eq-ok (require_principal o h) (with_write o) writes in
      let (first, is_first, resolved) = require_principal-ok found on principal in
      let (is_user, may) = with_write-ok first user (ap (with_write o) (sym is_first) ∙ allowed) in
      let (same, real) = end_user-ok first p (ap (end_user o) (sym is_user) ∙ ends) in
      let (q, known, effected) = resolved-ok first resolved in
      (q, known, effected ∙ ap ok (sym same), rw same may, rw same real)

  -- With OIDC on, whoever passes the check of a writing route has the permission to write and is no
  -- service: either the token is their own, or it is a service's, and the request brings the shared
  -- secret, which is set, and names the user.
  pub require_authenticated-IsFrom :
      (p : Principal)
      → o.enabled ≡ true
      → require_authenticated_bank_write o h ≡ ok p
      → (has_permission p "bank:write" ≡ true) × (p.is_m2m ≡ false) × IsFrom o h p
  require_authenticated-IsFrom p on e =
      let (q, known, effected, may, real) = require_authenticated-ok p on e in
      (
        may,
        real,
        elim (effective-ok q p effected) [
          | inl (user, same) ↦ own (rw same known)
          | inr (inl (service, same)) ↦ absurd (ground arith)
          | inr (inr (service, set, match, named, nonempty, _)) ↦
              trusted q known service set match named nonempty
        ],
      )
