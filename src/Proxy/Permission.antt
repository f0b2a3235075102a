-- ===== src/Proxy/Permission.antt =====
-- Where the proxy of app-egress/app.py connects to.
use shimpz_drivers.Prelude.{
  ◌≡◌, refl, sym, ap, ◌∙◌, subst, arith, true, Option, none, some, List, all, eq_nat, Bool-cases,
  Option-cases, inl, inr,
}
use shimpz_drivers.Prelude.Int.{ℤ, pos, negsuc}
use shimpz_drivers.Proxy.Decide.{
  Text, Outside, Policy, connect, has_text, normal, is_443, allowed, permitted, first,
  resolve_public, extract_token, split_target, route, authorize, first_line, target_of, handle,
  lines, split_on,
}

module _ {Address : Type 0} (x : Outside Address) where
  -- What stands behind a connection.
  pub record Connects (headers : Text) (policy : Policy) (a : Address) : Type 0 where
    pub token : Text
    pub host : Text
    pub target : Text
    pub addresses : List Address
    pub requested : target_of x (split_on 32 (first_line x (lines headers))) ≡ some target
    pub named : extract_token x (lines headers) ≡ some token
    pub asked : split_target x target ≡ (some host, pos 443)
    pub listed : has_text (normal x host) (allowed x token policy) ≡ true
    pub resolved : x.resolve host (pos 443) ≡ some addresses
    pub public_only : all x.is_global addresses ≡ true
    pub chosen : first x addresses ≡ some a

  port_443 : (port : ℤ) → is_443 x port ≡ true → port ≡ pos 443
  port_443 (pos n) h = ap pos (ground (arith, h))
  port_443 (negsuc n) h = absurd (ground (arith, h))

  permitted_lem :
      (token host : Text) (port : ℤ) (policy : Policy)
      → permitted x token host port policy ≡ true
      → (port ≡ pos 443) × (has_text (normal x host) (allowed x token policy) ≡ true)
  unfolding permitted
  permitted_lem token host port policy h = (port_443 port (ground (arith, h)), ground (arith, h))

  resolve_public_lem :
      (host : Text) (port : ℤ) (a : Address)
      → resolve_public x host port ≡ some a
      → (addresses : List Address) × (x.resolve host port ≡ some addresses)
        × (all x.is_global addresses ≡ true)
        × (first x addresses ≡ some a)
  unfolding resolve_public
  resolve_public_lem host port a h = elim (Option-cases (x.resolve host port)) [
    | inl e ↦ absurd (ground (arith, h, e))
    | inr (l, e) ↦ elim (Bool-cases (all x.is_global l)) [
      | inl k ↦ (l, e, k, sym (rw (e, resolve_public) (rw k refl)) ∙ h)
      | inr k ↦ absurd (none_some (sym (rw (e, resolve_public) (rw k refl)) ∙ h))
    ]
  ]
    where
      none_some : {b : Address} → ◌≡◌ {A = Option Address} none (some b) → ⊥
      none_some k = ground (arith, k)

  route_lem :
      (token host : Text) (port : ℤ) (policy : Policy) (a : Address)
      → route x token host port policy ≡ connect a
      → (permitted x token host port policy ≡ true) × (resolve_public x host port ≡ some a)
  unfolding route
  route_lem token host port policy a h = elim (Bool-cases (permitted x token host port policy)) [
    | inr e ↦ absurd (ground (arith, h, e))
    | inl e ↦ elim (Option-cases (resolve_public x host port)) [
      | inl k ↦ absurd (ground (arith, h, e, k))
      | inr (b, k) ↦ (e, k ∙ ap some (ground (arith, h, e, k)))
    ]
  ]

  authorize_lem :
      (headers host : Text) (port : ℤ) (policy : Policy) (a : Address)
      → authorize x headers host port policy ≡ connect a
      → (token : Text) × (extract_token x (lines headers) ≡ some token)
        × (route x token host port policy ≡ connect a)
  unfolding authorize
  authorize_lem headers host port policy a h =
      elim (Option-cases (extract_token x (lines headers))) [
        | inl e ↦ absurd (ground (arith, h, e))
        | inr (token, e) ↦ (token, e, sym (rw (e, authorize) refl) ∙ h)
      ]

  handle_lem :
      (headers : Text) (policy : Policy) (a : Address)
      → handle x headers policy ≡ connect a
      → (target : Text) × (host : Text) × (port : ℤ) × (target_of x
            (split_on 32 (first_line x (lines headers)))
          ≡ some target)
        × (split_target x target ≡ (some host, port))
        × (authorize x headers host port policy ≡ connect a)
  unfolding handle
  handle_lem headers policy a h =
      elim (Option-cases (target_of x (split_on 32 (first_line x (lines headers))))) [
        | inl e ↦ absurd (ground (arith, h, e))
        | inr (target, e) ↦ elim (Option-cases (split_target x target).0) [
          | inl k ↦ absurd (ground (arith, h, e, k))
          | inr (host, k) ↦ (
            target,
            host,
            (split_target x target).1,
            e,
            ap (λ o. (o, (split_target x target).1)) k,
            sym (rw (e, handle) (rw k refl)) ∙ h,
          )
        ]
      ]

  -- If a request makes the proxy connect to an address, then it is a CONNECT, names a token, the host that it
  -- asks for on port 443 is one of those that the policy lists for the token, every address of the
  -- host's one resolution is public, and the connection goes to the first of them.
  pub handle-Connects :
      (headers : Text) (policy : Policy) (a : Address)
      → handle x headers policy ≡ connect a
      → Connects headers policy a
  handle-Connects headers policy a h =
      let (target, host, port, line, s, k) = handle_lem headers policy a h in
      let (token, n, r) = authorize_lem headers host port policy a k in
      let (p, q) = route_lem token host port policy a r in
      let (https, l) = permitted_lem token host port policy p in
      let (addresses, e, g, f) = resolve_public_lem host port a q in
      record {
        token = token;
        host = host;
        target = target;
        addresses = addresses;
        requested = line;
        named = n;
        asked = s ∙ ap (λ z. (some host, z)) https;
        listed = l;
        resolved = subst (λ z. x.resolve host z ≡ some addresses) https e;
        public_only = g;
        chosen = f;
      }
