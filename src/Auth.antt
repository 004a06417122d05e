-- ===== src/Auth.antt =====
-- youmi/security/auth.py: tokens and the principals that they stand for.
--
-- Texts are lists of code points. The hash of a token is an argument. `hmac.compare_digest` compares
-- two `str` only if both are ASCII, and raises a `TypeError` otherwise.
pub mod Accepted
pub mod Environment
pub mod Examples
use you_mi_agent.Prelude.{
  ℕ, ◌+◌, Bool, true, false, ◌&&◌, not, Option, none, some, List, [], ◌∷◌, ◌++◌, leb, ltb, any,
  length, if◌then◌else◌,
}
use you_mi_agent.Text.{Text, text_eq, strip, lower, split, codes}

pub data AuthRole : Type 0 where
  admin agent viewer : AuthRole

unfoldable pub value : AuthRole → Text
value admin = codes "admin"
value agent = codes "agent"
value viewer = codes "viewer"

pub record AuthToken : Type 0 where
  pub token : Text
  pub role : AuthRole
  pub name : Text
  pub tenant : Text

pub record Principal : Type 0 where
  pub role : AuthRole
  pub name : Text
  pub tenant : Text
  pub token_fingerprint : Text

pub record AuthManager : Type 0 where
  pub tokens : List AuthToken
  pub token_map : List (Text × AuthToken)

-- `d[t] = entry`: a key that is there keeps its place.
unfoldable pub put_token : Text → AuthToken → List (Text × AuthToken) → List (Text × AuthToken)
unfolding text_eq
put_token t entry [] = (t, entry) ∷ []
put_token t entry ((k, e) ∷ d) =
    let rest = put_token t entry d in if text_eq k t then (k, entry) ∷ d else (k, e) ∷ rest

-- `{t.token: t for t in self._tokens}`
unfoldable pub map_of : List AuthToken → List (Text × AuthToken) → List (Text × AuthToken)
unfolding put_token
map_of [] d = d
map_of (t ∷ ts) d = map_of ts (put_token t.token t d)

unfoldable pub init : List AuthToken → AuthManager
unfolding map_of
init ts = record { tokens = ts; token_map = map_of ts [] }

unfoldable pub is_empty : {A : Type 0} → List A → Bool
is_empty [] = true
is_empty (x ∷ xs) = false

unfoldable pub enabled : AuthManager → Bool
enabled m = ltb 0 (length m.tokens)

unfoldable pub token_count : AuthManager → ℕ
token_count m = length m.tokens

unfoldable pub is_ascii : Text → Bool
is_ascii t = not (any (λ c. leb 128 c) t)

-- `hmac.compare_digest(a, b)`: `none` for its `TypeError`
unfoldable pub compare_digest : Text → Text → Option Bool
unfolding is_ascii text_eq
compare_digest a b = if is_ascii a && is_ascii b then some (text_eq a b) else none

pub data Validation : Type 0 where
  accepted : Principal → Validation
  refused : Validation
  type_error : Validation

module _ (fingerprint : Text → Text) where
  unfoldable pub principal_of : Text → AuthToken → Principal
  principal_of token entry = record {
    role = entry.role;
    name = entry.name;
    tenant = entry.tenant;
    token_fingerprint = fingerprint token;
  }

  -- The loop over the known tokens.
  unfoldable pub search : Text → List (Text × AuthToken) → Validation
  unfolding compare_digest principal_of
  search token [] = refused
  search token ((known, entry) ∷ d) =
      let rest = search token d in
      elim (compare_digest token known) [
        | none ↦ type_error
        | some true ↦ accepted (principal_of token entry)
        | some false ↦ rest
      ]

  abbrev pub anonymous : Principal
  anonymous = record {
    role = admin;
    name = codes "anonymous";
    tenant = codes "default";
    token_fingerprint = [];
  }

  -- A token that is given, where authentication is enabled.
  unfoldable pub validate_given : Option Text → AuthManager → Validation
  unfolding search is_empty
  validate_given none m = refused
  validate_given (some t) m = if is_empty t then refused else search t m.token_map

  unfoldable pub validate : Option Text → AuthManager → Validation
  unfolding validate_given enabled
  validate token m = if enabled m then validate_given token m else accepted anonymous

unfoldable pub same_role : AuthRole → AuthRole → Bool
unfolding value text_eq
same_role r s = text_eq (value r) (value s)

unfoldable pub has_role : Option Principal → List AuthRole → Bool
unfolding same_role is_empty
has_role none roles = false
has_role (some p) roles = if is_empty roles then true else any (λ r. same_role r p.role) roles

-- `AuthRole(...)`, and AGENT for a `ValueError`
unfoldable pub role_of : Text → AuthRole
unfolding value text_eq
role_of t =
    if text_eq t (value admin) then admin else if text_eq t (value viewer) then viewer else agent

unfoldable pub parse_role : Text → AuthRole
unfolding role_of lower strip
parse_role raw = role_of (lower (strip raw))

-- `tenant or "default"`
unfoldable pub or_default : Text → Text
or_default [] = codes "default"
or_default (c ∷ t) = c ∷ t

-- The fields of an item after its token.
unfoldable pub entry_of : Text → List Text → AuthToken
unfolding parse_role strip or_default
entry_of t [] = record { token = t; role = agent; name = []; tenant = codes "default" }
entry_of t (r ∷ []) = record { token = t; role = parse_role r; name = []; tenant = codes "default" }
entry_of t (r ∷ (n ∷ [])) = record {
  token = t;
  role = parse_role r;
  name = strip n;
  tenant = codes "default";
}
entry_of t (r ∷ (n ∷ (tenant ∷ more))) = record {
  token = t;
  role = parse_role r;
  name = strip n;
  tenant = or_default (strip tenant);
}

-- The parts of an item: `none` where its token is empty.
unfoldable pub of_parts : List Text → Option AuthToken
unfolding strip is_empty entry_of
of_parts [] = none
of_parts (t ∷ parts) = if is_empty (strip t) then none else some (entry_of (strip t) parts)

unfoldable pub of_item : Text → Option AuthToken
unfolding strip split is_empty of_parts
of_item item = if is_empty (strip item) then none else of_parts (split b':' (strip item))

unfoldable pub of_items : List Text → List AuthToken
unfolding of_item
of_items [] = []
of_items (item ∷ items) =
    let rest = of_items items in elim (of_item item) [ none ↦ rest | some t ↦ t ∷ rest ]

-- The `YOUMI_AUTH_*` variables, empty where they are not set.
pub record Environ : Type 0 where
  pub auth_tokens : Text
  pub auth_token : Text
  pub auth_role : Text
  pub auth_tenant : Text

unfoldable pub multi_tokens : Text → List AuthToken
unfolding is_empty of_items split
multi_tokens multi = if is_empty multi then [] else of_items (split b';' multi)

unfoldable pub with_single : Environ → Text → List AuthToken → List AuthToken
unfolding is_empty text_eq parse_role strip or_default
with_single env single tokens =
    if not (is_empty single) && not (any (λ (t : AuthToken). text_eq t.token single) tokens)
    then tokens
      ++ (record {
        token = single;
        role = parse_role env.auth_role;
        name = [];
        tenant = or_default (strip env.auth_tenant);
      }
          ∷ [])
    else tokens

unfoldable pub auth_from_env : Environ → AuthManager
unfolding init multi_tokens with_single strip
auth_from_env env =
    init (with_single env (strip env.auth_token) (multi_tokens (strip env.auth_tokens)))

-- The manager of the process: made from the environment where there is none yet.
unfoldable pub get_auth_manager : Environ → Option AuthManager → AuthManager × Option AuthManager
unfolding auth_from_env
get_auth_manager env none = (auth_from_env env, some (auth_from_env env))
get_auth_manager env (some m) = (m, some m)

unfoldable pub configure_auth_manager : AuthManager → Option AuthManager → Option AuthManager
configure_auth_manager m default = some m

unfoldable pub reset_auth_manager : Option AuthManager → Option AuthManager
reset_auth_manager default = none
