-- ===== src/Auth/Accepted.antt =====
-- Which tokens `validate` accepts.
use you_mi_agent.Prelude.{
  ◌≡◌, refl, true, false, Option, none, some, List, [], ◌∷◌, arith, All, Bool-cases, inl, inr,
  ==_iff, if◌then◌else◌,
}
use you_mi_agent.Text.{Text, text_eq}
use you_mi_agent.Auth.{
  AuthToken, Principal, put_token, map_of, init, is_empty, enabled, is_ascii, compare_digest,
  Validation, accepted, refused, type_error, principal_of, search, validate_given, validate,
}

text_eq-≡ : (s t : Text) → text_eq s t ≡ true → s ≡ t
unfolding text_eq
text_eq-≡ [] [] h = refl
text_eq-≡ [] (d ∷ t) h = absurd (ground arith)
text_eq-≡ (c ∷ s) [] h = absurd (ground arith)
text_eq-≡ (c ∷ s) (d ∷ t) h = ground (arith, text_eq-≡ s t, ==_iff c d)

pub text_eq_refl : (s : Text) → text_eq s s ≡ true
unfolding text_eq
text_eq_refl [] = refl
text_eq_refl (c ∷ s) = ground (arith, text_eq_refl s)

-- What the dict holds for a token.
abbrev pub lookup_token : Text → List (Text × AuthToken) → Option AuthToken
lookup_token t [] = none
lookup_token t ((k, e) ∷ d) = if text_eq t k then some e else lookup_token t d

abbrev last_or : Text → AuthToken → Option AuthToken → Option AuthToken
last_or t e (some e') = some e'
last_or t e none = if text_eq t e.token then some e else none

-- The last of the configured entries that has this token.
abbrev pub last_entry : Text → List AuthToken → Option AuthToken
last_entry t [] = none
last_entry t (e ∷ es) = last_or t e (last_entry t es)

text_eq_sym : (s t : Text) → text_eq s t ≡ text_eq t s
text_eq_sym s t = ground (arith, text_eq-≡ s t, text_eq-≡ t s, text_eq_refl s, text_eq_refl t)

lookup-put_token :
    (t k : Text) (e : AuthToken) (d : List (Text × AuthToken))
    → lookup_token t (put_token k e d) ≡ (if text_eq t k then some e else lookup_token t d)
unfolding put_token
lookup-put_token t k e [] = refl
lookup-put_token t k e ((j, f) ∷ d) =
    ground (
      arith,
      lookup-put_token t k e d,
      text_eq-≡ j k,
      text_eq-≡ t k,
      text_eq-≡ t j,
      text_eq_sym t j,
    )

lookup-map_of :
    (t : Text) (ts : List AuthToken) (d : List (Text × AuthToken))
    → lookup_token t (map_of ts d)
      ≡ elim (last_entry t ts) [ none ↦ lookup_token t d | some e ↦ some e ]
unfolding map_of
lookup-map_of t [] d = refl
lookup-map_of t (e ∷ ts) d =
    ground (arith, lookup-map_of t ts (put_token e.token e d), lookup-put_token t e.token e d)

AllAscii : List (Text × AuthToken) → Type 0
AllAscii d = All (λ (p : Text × AuthToken). is_ascii p.0 ≡ true) d

put_token-AllAscii :
    (t : Text) (e : AuthToken) (d : List (Text × AuthToken))
    → is_ascii t ≡ true
    → AllAscii d
    → AllAscii (put_token t e d)
unfolding put_token AllAscii
put_token-AllAscii t e [] a h = (a, tt)
put_token-AllAscii t e ((k, f) ∷ d) a h = elim (Bool-cases (text_eq k t)) [
  | inl same ↦ rw same h
  | inr other ↦ rw other (h.0, put_token-AllAscii t e d a h.1)
]

map_of-AllAscii :
    (ts : List AuthToken) (d : List (Text × AuthToken))
    → All (λ (e : AuthToken). is_ascii e.token ≡ true) ts
    → AllAscii d
    → AllAscii (map_of ts d)
unfolding map_of
map_of-AllAscii [] d a h = h
map_of-AllAscii (e ∷ ts) d a h =
    map_of-AllAscii ts (put_token e.token e d) a.1 (put_token-AllAscii e.token e d a.0 h)

module _ (fingerprint : Text → Text) where
  -- What becomes of a token that stands for this entry, if for any.
  abbrev pub outcome : Text → Option AuthToken → Validation
  outcome t none = refused
  outcome t (some e) = accepted (record {
    role = e.role;
    name = e.name;
    tenant = e.tenant;
    token_fingerprint = fingerprint t;
  })

  search-AllAscii :
      (t : Text) (d : List (Text × AuthToken))
      → is_ascii t ≡ true
      → AllAscii d
      → search fingerprint t d ≡ outcome t (lookup_token t d)
  unfolding search compare_digest AllAscii principal_of
  search-AllAscii t [] a h = refl
  search-AllAscii t ((k, e) ∷ d) a h = ground (arith, a, h.0, search-AllAscii t d a h.1)

  search-accepted :
      (t : Text) (d : List (Text × AuthToken)) (p : Principal)
      → search fingerprint t d ≡ accepted p
      → outcome t (lookup_token t d) ≡ accepted p
  unfolding search compare_digest principal_of
  search-accepted t [] p h = h
  search-accepted t ((k, e) ∷ d) p h = ground (arith, search-accepted t d p)

  put_token-nonempty :
      (t : Text) (e : AuthToken) (d : List (Text × AuthToken)) → is_empty (put_token t e d) ≡ false
  unfolding put_token is_empty
  put_token-nonempty t e [] = refl
  put_token-nonempty t e ((k, f) ∷ d) = ground arith

  map_of-nonempty :
      (ts : List AuthToken) (d : List (Text × AuthToken))
      → is_empty d ≡ false
      → is_empty (map_of ts d) ≡ false
  unfolding map_of
  map_of-nonempty [] d h = h
  map_of-nonempty (e ∷ ts) d h =
      map_of-nonempty ts (put_token e.token e d) (put_token-nonempty e.token e d)

  search-type_error :
      (t : Text) (d : List (Text × AuthToken))
      → is_empty d ≡ false
      → is_ascii t ≡ false
      → search fingerprint t d ≡ type_error
  unfolding search compare_digest is_empty
  search-type_error t [] h a = absurd (ground arith)
  search-type_error t ((k, e) ∷ d) h a = ground (arith, a)

  -- A token that `validate` accepts while authentication is enabled is the token of an entry, and the
  -- principal has the role, the name and the tenant of the last such entry.
  pub accepted_is_last :
      (ts : List AuthToken) (t : Text) (p : Principal)
      → enabled (init ts) ≡ true
      → validate fingerprint (some t) (init ts) ≡ accepted p
      → outcome t (last_entry t ts) ≡ accepted p
  unfolding validate validate_given init
  accepted_is_last ts t p on h =
      ground (arith, on, search-accepted t (map_of ts []) p, lookup-map_of t ts [])

  -- With authentication enabled and tokens of ASCII alone, a token of ASCII that is not empty is
  -- accepted, as the last entry that has it, if there is one, and refused otherwise.
  pub validate_ascii :
      (ts : List AuthToken) (t : Text)
      → enabled (init ts) ≡ true
      → All (λ (e : AuthToken). is_ascii e.token ≡ true) ts
      → is_ascii t ≡ true
      → is_empty t ≡ false
      → validate fingerprint (some t) (init ts) ≡ outcome t (last_entry t ts)
  unfolding validate validate_given init AllAscii
  validate_ascii ts t on all a n = ground (
    arith,
    on,
    n,
    search-AllAscii t (map_of ts []) a (map_of-AllAscii ts [] all tt),
    lookup-map_of t ts [],
  )

  -- With authentication enabled, a token with a character beyond ASCII is not refused: the comparison
  -- raises a `TypeError`.
  pub non_ascii_raises :
      (ts : List AuthToken) (t : Text)
      → enabled (init ts) ≡ true
      → is_ascii t ≡ false
      → validate fingerprint (some t) (init ts) ≡ type_error
  unfolding validate validate_given init
  non_ascii_raises [] t on a = absurd (unfold enabled init in ground (arith, on))
  non_ascii_raises (e ∷ ts) t on a =
      let there = map_of-nonempty ts (put_token e.token e []) (put_token-nonempty e.token e []) in
      ground
        (arith, on, nonempty t a, search-type_error t (map_of ts (put_token e.token e [])) there a)
    where
      nonempty : (t : Text) → is_ascii t ≡ false → is_empty t ≡ false
      nonempty [] h = absurd (unfold is_ascii in ground (arith, h))
      nonempty (x ∷ t) h = unfold is_empty in refl
