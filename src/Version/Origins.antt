-- ===== src/Version/Origins.antt =====
-- Which version a new tool starts from.
use you_mi_agent.Prelude.{
  ◌≡◌, refl, true, false, ◌⊎◌, inl, inr, none, some, Option, [], ◌∷◌, arith, Bool-cases, ◌&&◌,
}
use you_mi_agent.Text.{Text, split, strip, int_of, text_eq}
use you_mi_agent.Version.{
  ToolOrigin, external, generated, OriginArg, normalize_origin, is_external, is_placeholder,
  initial_version_of, resolve_initial_version, declared_or_initial, is_valid_semver, parse_semver,
  stable_initial_version, stable, stage_of, generated_initial_version,
}

initial_version_of-valid : (o : ToolOrigin) → is_valid_semver (initial_version_of o) ≡ true
unfolding is_valid_semver initial_version_of parse_semver split strip int_of
initial_version_of-valid external = refl
initial_version_of-valid generated = refl

declared_or_initial-valid :
    (d : Option Text) (o : ToolOrigin) → is_valid_semver (declared_or_initial d o) ≡ true
unfolding declared_or_initial
declared_or_initial-valid none o = initial_version_of-valid o
declared_or_initial-valid (some []) o = initial_version_of-valid o
declared_or_initial-valid (some (c ∷ s)) o = elim (Bool-cases (is_valid_semver (c ∷ s))) [
  | inl good ↦ rw good good
  | inr bad ↦ rw bad (initial_version_of-valid o)
]

-- Whatever is declared and whatever the origin, a tool starts from a valid version.
pub resolve_initial_version-valid :
    (declared : Option Text) (origin : OriginArg)
    → is_valid_semver (resolve_initial_version declared origin) ≡ true
unfolding resolve_initial_version
resolve_initial_version-valid declared origin =
    elim (Bool-cases (is_external (normalize_origin origin) && is_placeholder declared)) [
      | inl now ↦ rw now (initial_version_of-valid external)
      | inr later ↦ rw later (declared_or_initial-valid declared (normalize_origin origin))
    ]

declared_or_initial-kept :
    (s : Text) (o : ToolOrigin) → is_valid_semver s ≡ true → declared_or_initial (some s) o ≡ s
unfolding declared_or_initial is_valid_semver parse_semver split strip
declared_or_initial-kept [] o h = cc
declared_or_initial-kept (c ∷ s) o h = rw h

text_eq-nil : (s : Text) → is_valid_semver s ≡ true → text_eq s [] ≡ false
unfolding text_eq is_valid_semver parse_semver split strip
text_eq-nil [] h = cc
text_eq-nil (c ∷ s) h = refl

-- A declared version that is valid, and is not the placeholder 0.0.1, is kept as it is.
pub resolve_initial_version-kept :
    (s : Text) (origin : OriginArg)
    → is_valid_semver s ≡ true
    → text_eq s generated_initial_version ≡ false
    → resolve_initial_version (some s) origin ≡ s
unfolding resolve_initial_version
resolve_initial_version-kept s origin h k =
    ground (arith, text_eq-nil s h, declared_or_initial-kept s (normalize_origin origin) h)

placeholder :
    (d : Option Text)
    → (d ≡ none) ⊎ (d ≡ some []) ⊎ (d ≡ some generated_initial_version)
    → is_placeholder d ≡ true
unfolding is_placeholder text_eq
placeholder d (inl e) = rw e
placeholder d (inr (inl e)) = rw e
placeholder d (inr (inr e)) = rw e

stable_initial_is_stable : stage_of stable_initial_version ≡ stable
unfolding stage_of parse_semver split strip int_of
stable_initial_is_stable = refl

-- An external tool that declares nothing, an empty text or the placeholder 0.0.1 starts at 1.0.0, in
-- the stable stage.
pub resolve_initial_version-external :
    (declared : Option Text) (origin : OriginArg)
    → normalize_origin origin ≡ external
    → (declared ≡ none) ⊎ (declared ≡ some []) ⊎ (declared ≡ some generated_initial_version)
    → (resolve_initial_version declared origin ≡ stable_initial_version)
      × (stage_of (resolve_initial_version declared origin) ≡ stable)
unfolding resolve_initial_version
resolve_initial_version-external declared origin h k =
    rw (h, placeholder declared k) (refl, stable_initial_is_stable)
