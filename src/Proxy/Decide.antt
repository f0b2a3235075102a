-- ===== src/Proxy/Decide.antt =====
-- Which CONNECT the proxy of app-egress/app.py forwards: `load_policy`, `permitted`, `resolve_public`,
-- `extract_token`, `_split_target` and the decision of `Handler.handle`. A text is its code points.
-- What Python's `str.lower`, `str.strip`, `int`, `b64decode` and `json.loads`, the DNS and `ipaddress`
-- do is a parameter.
use shimpz_drivers.Prelude.{
  ℕ, Bool, true, false, ◌&&◌, ◌||◌, Option, none, some, List, [], ◌∷◌, if◌then◌else◌, ◌==◌, eq_nat,
  all,
}
use shimpz_drivers.Prelude.Text.{codes}
use shimpz_drivers.Prelude.Int.{ℤ, pos, negsuc}

abbrev pub Text : Type 0
Text = List ℕ

unfoldable pub same_text : Text → Text → Bool
same_text [] [] = true
same_text (c ∷ cs) (d ∷ ds) = c == d && same_text cs ds
same_text _ _ = false

-- `text in texts`
unfoldable pub has_text : Text → List Text → Bool
has_text t [] = false
has_text t (u ∷ us) = same_text u t || has_text t us

-- `text.split(c)`: the first part and the rest; with "\r\n" as one separator in `lines`
abbrev pub put_first : ℕ → List Text → List Text
put_first c [] = (c ∷ []) ∷ []
put_first c (t ∷ ts) = (c ∷ t) ∷ ts

unfoldable pub split_on : ℕ → Text → List Text
split_on sep [] = [] ∷ []
split_on sep (c ∷ cs) =
    let rest = split_on sep cs in if c == sep then [] ∷ rest else put_first c rest

unfoldable pub lines : Text → List Text
lines [] = [] ∷ []
lines (c ∷ []) = (c ∷ []) ∷ []
lines (c ∷ d ∷ cs) =
    let rest = lines cs in
    let next = lines (d ∷ cs) in if c == 13 && d == 10 then [] ∷ rest else put_first c next

-- `text.partition(c)`: none where there is no `c`
abbrev pub with_first : ℕ → Option (Text × Text) → Option (Text × Text)
with_first c none = none
with_first c (some (a, b)) = some (c ∷ a, b)

unfoldable pub partition : ℕ → Text → Option (Text × Text)
partition sep [] = none
partition sep (c ∷ cs) =
    let rest = partition sep cs in if c == sep then some ([], cs) else with_first c rest

-- `text.rpartition(c)`
unfoldable pub rpartition : ℕ → Text → Option (Text × Text)
rpartition sep [] = none
rpartition sep (c ∷ cs) = elim (rpartition sep cs) [
  | some (a, b) ↦ some (c ∷ a, b)
  | none ↦ if c == sep then some ([], cs) else none
]

-- `text.rstrip(".")`
unfoldable pub strip_dots : Text → Text
strip_dots [] = []
strip_dots (c ∷ cs) = elim (strip_dots cs) [
  | [] ↦ if c == b'.' then [] else c ∷ []
  | d ∷ ds ↦ c ∷ d ∷ ds
]

abbrev pub or_none : Text → Option Text
or_none [] = none
or_none (c ∷ cs) = some (c ∷ cs)

-- What is outside: the four first are of Python, `resolve` is `getaddrinfo` with the addresses of the
-- answer parsed, and none where either raises.
pub record Outside (Address : Type 0) : Type 0 where
  pub lower : Text → Text
  pub strip : Text → Text
  pub int_of : Text → Option ℤ
  pub b64decode : Text → Option Text
  pub resolve : Text → ℤ → Option (List Address)
  pub is_global : Address → Bool

-- The files of the policy directory, by their stem; `none` is one that does not read as a JSON list of
-- texts.
abbrev pub Policy : Type 0
Policy = List (Text × List Text)

-- How `handle` ends: with a status, or with a tunnel to an address.
pub data Decision (Address : Type 0) : Type 0 where
  reply : ℕ → Decision Address
  connect : Address → Decision Address

module _ {Address : Type 0} (x : Outside Address) where
  abbrev pub normal : Text → Text
  normal host = strip_dots (x.lower host)

  abbrev pub normal_each : List Text → List Text
  normal_each [] = []
  normal_each (h ∷ hs) = normal h ∷ normal_each hs

  -- load_policy
  unfoldable pub load_policy : List (Text × Option (List Text)) → Policy
  load_policy [] = []
  load_policy ((token, none) ∷ files) = load_policy files
  load_policy ((token, some hosts) ∷ files) = (token, normal_each hosts) ∷ load_policy files

  abbrev pub is_443 : ℤ → Bool
  is_443 (pos n) = n == 443
  is_443 (negsuc n) = false

  unfoldable pub allowed : Text → Policy → List Text
  allowed token [] = []
  allowed token ((t, hosts) ∷ policy) = if same_text t token then hosts else allowed token policy

  -- permitted
  unfoldable pub permitted : Text → Text → ℤ → Policy → Bool
  permitted token host port policy = is_443 port && has_text (normal host) (allowed token policy)

  abbrev pub first : List Address → Option Address
  first [] = none
  first (a ∷ rest) = some a

  -- resolve_public
  unfoldable pub resolve_public : Text → ℤ → Option Address
  resolve_public host port = elim (x.resolve host port) [
    | none ↦ none
    | some addresses ↦ if all x.is_global addresses then first addresses else none
  ]

  abbrev pub username : Option Text → Option Text
  username none = none
  username (some decoded) = elim (partition b':' decoded) [
    | none ↦ or_none decoded
    | some (a, b) ↦ or_none a
  ]

  -- The credentials of a Proxy-Authorization header.
  unfoldable pub token_of : Text → Option Text
  token_of value = elim (partition b' ' (x.strip value)) [
    | none ↦
        if same_text (x.lower (x.strip value)) (codes "basic")
        then username (x.b64decode [])
        else none
    | some (scheme, creds) ↦
        if same_text (x.lower scheme) (codes "basic") then username (x.b64decode creds) else none
  ]

  -- extract_token
  unfoldable pub extract_token : List Text → Option Text
  extract_token [] = none
  extract_token (line ∷ rest) =
      let others = extract_token rest in
      elim (partition b':' line) [
        | none ↦ others
        | some (name, value) ↦
            if same_text (x.lower (x.strip name)) (codes "proxy-authorization")
            then token_of value
            else others
      ]

  -- _split_target: the host, or none, and the port
  unfoldable pub split_target : Text → Option Text × ℤ
  split_target target = elim (rpartition b':' target) [
    | none ↦ (or_none target, pos 443)
    | some (host, port) ↦ elim (x.int_of port) [ none ↦ (none, pos 0) | some n ↦ (or_none host, n) ]
  ]

  -- `handle` once the token, the host and the port are known
  unfoldable pub route : Text → Text → ℤ → Policy → Decision Address
  route token host port policy =
      if permitted token host port policy
      then elim (resolve_public host port) [ none ↦ reply 403 | some a ↦ connect a ]
      else reply 403

  unfoldable pub authorize : Text → Text → ℤ → Policy → Decision Address
  authorize headers host port policy = elim (extract_token (lines headers)) [
    | none ↦ reply 407
    | some token ↦ route token host port policy
  ]

  abbrev pub first_line : List Text → Text
  first_line [] = []
  first_line (t ∷ ts) = t

  -- The target of a request line that is a CONNECT.
  abbrev pub target_of : List Text → Option Text
  target_of (method ∷ target ∷ rest) =
      if same_text method (codes "CONNECT") then some target else none
  target_of _ = none

  -- Handler.handle, from the headers to the decision
  unfoldable pub handle : Text → Policy → Decision Address
  handle headers policy = elim (target_of (split_on b' ' (first_line (lines headers)))) [
    | none ↦ reply 405
    | some target ↦
        let (host, port) = split_target target in
        elim host [ none ↦ reply 400 | some h ↦ authorize headers h port policy ]
  ]
