-- ===== src/Version.antt =====
-- youmi/core/versioning.py: the version numbers of tools, `MAJOR.MINOR.PATCH`.
pub mod RoundTrip
pub mod Order
pub mod Bump
pub mod Origins
mod Examples
use you_mi_agent.Prelude.{
  ℕ, ◌+◌, ◌≤◌, String, ◌≡◌, Bool, true, false, not, ◌&&◌, ◌||◌, Option, none, some, List, [], ◌∷◌,
  ◌++◌, leb, ltb, ◌==◌, str_eq, if◌then◌else◌, is_some,
}
use you_mi_agent.Text.{Text, codes, strip, split, Signed, int_of, decimal, text_eq}

pub data ToolOrigin : Type 0 where
  external generated : ToolOrigin

pub data VersionStage : Type 0 where
  candidate stable : VersionStage

pub data ChangeKind : Type 0 where
  breaking feature fix : ChangeKind

-- The second words of `_CHANGE_TO_BUMP`.
pub data BumpType : Type 0 where
  major minor patch : BumpType

abbrev pub generated_initial_version : Text
generated_initial_version = codes "0.0.1"

abbrev pub stable_initial_version : Text
stable_initial_version = codes "1.0.0"

pub record Semver : Type 0 where
  pub major_part : ℕ
  pub minor_part : ℕ
  pub patch_part : ℕ

-- `f"{major}.{minor}.{patch}"`
unfoldable pub render : Semver → Text
render v = decimal v.major_part ++ (b'.' ∷ (decimal v.minor_part ++ (b'.' ∷ decimal v.patch_part)))

-- The three `int` calls, and the test that no part is below zero.
from_parts : Option Signed → Option Signed → Option Signed → Option Semver
from_parts (some (false, a)) (some (false, b)) (some (false, c)) =
    some (record { major_part = a; minor_part = b; patch_part = c })
from_parts _ _ _ = none

parse_parts : List Text → Option Semver
unfolding from_parts
parse_parts (a ∷ b ∷ c ∷ []) = from_parts (int_of a) (int_of b) (int_of c)
parse_parts _ = none

unfoldable pub parse_semver : Text → Option Semver
unfolding parse_parts
parse_semver version = parse_parts (split b'.' (strip version))

unfoldable pub is_valid_semver : Text → Bool
is_valid_semver version = is_some (parse_semver version)

-- The numbers -1, 0 and 1 of `compare_versions`.
pub data Comparison : Type 0 where
  less same greater : Comparison

-- `l > r` for tuples
semver_lt : Semver → Semver → Bool
semver_lt l r =
    ltb l.major_part r.major_part
    || l.major_part == r.major_part
      && (ltb l.minor_part r.minor_part
          || l.minor_part == r.minor_part && ltb l.patch_part r.patch_part)

-- `(l > r) - (l < r)`
compare_parsed : Option Semver → Option Semver → Comparison
unfolding semver_lt
compare_parsed none none = same
compare_parsed none (some r) = less
compare_parsed (some l) none = greater
compare_parsed (some l) (some r) =
    if semver_lt r l then greater else if semver_lt l r then less else same

unfoldable pub compare_versions : Text → Text → Comparison
unfolding compare_parsed
compare_versions left right = compare_parsed (parse_semver left) (parse_semver right)

-- `str | ToolOrigin | None`
pub data OriginArg : Type 0 where
  origin_enum : ToolOrigin → OriginArg
  origin_text : String → OriginArg
  origin_none : OriginArg

unfoldable pub normalize_origin : OriginArg → ToolOrigin
normalize_origin (origin_enum o) = o
normalize_origin (origin_text s) = if str_eq s "external" then external else generated
normalize_origin origin_none = generated

initial_version_of : ToolOrigin → Text
initial_version_of external = stable_initial_version
initial_version_of generated = generated_initial_version

unfoldable pub initial_version : OriginArg → Text
unfolding initial_version_of normalize_origin
initial_version origin = initial_version_of (normalize_origin origin)

-- The second part of `resolve_initial_version`, for an origin that was not decided at once.
declared_or_initial : Option Text → ToolOrigin → Text
unfolding initial_version_of
declared_or_initial none origin = initial_version_of origin
declared_or_initial (some []) origin = initial_version_of origin
declared_or_initial (some (c ∷ s)) origin =
    if is_valid_semver (c ∷ s) then c ∷ s else initial_version_of origin

-- `declared in (None, "", GENERATED_INITIAL_VERSION)`
is_placeholder : Option Text → Bool
is_placeholder none = true
is_placeholder (some s) = text_eq s [] || text_eq s generated_initial_version

is_external : ToolOrigin → Bool
is_external external = true
is_external generated = false

unfoldable pub resolve_initial_version : Option Text → OriginArg → Text
unfolding declared_or_initial is_placeholder is_external
resolve_initial_version declared origin =
    let o = normalize_origin origin in
    if is_external o && is_placeholder declared
    then stable_initial_version
    else declared_or_initial declared o

stage_of_parsed : Option Semver → VersionStage
stage_of_parsed none = candidate
stage_of_parsed (some v) = if leb 1 v.major_part then stable else candidate

unfoldable pub stage_of : Text → VersionStage
unfolding stage_of_parsed
stage_of version = stage_of_parsed (parse_semver version)

-- `str | ChangeKind | None`
pub data ChangeArg : Type 0 where
  change_enum : ChangeKind → ChangeArg
  change_text : String → ChangeArg
  change_none : ChangeArg

change_to_bump : ChangeKind → BumpType
change_to_bump breaking = major
change_to_bump feature = minor
change_to_bump fix = patch

unfoldable pub bump_type_for : ChangeArg → BumpType
unfolding change_to_bump
bump_type_for (change_enum k) = change_to_bump k
bump_type_for (change_text s) =
    if str_eq s "breaking" then major else if str_eq s "feature" then minor else patch
bump_type_for change_none = patch

-- `if bump_type == "major" and major == 0: bump_type = "minor"`
capped : BumpType → ℕ → BumpType
capped major n = if n == 0 then minor else major
capped k n = k

bump_semver : BumpType → Semver → Semver
bump_semver major v = record { major_part = v.major_part + 1; minor_part = 0; patch_part = 0 }
bump_semver minor v = record v { minor_part = v.minor_part + 1; patch_part = 0 }
bump_semver patch v = record v { patch_part = v.patch_part + 1 }

bump_parsed : Option Semver → BumpType → Text
unfolding capped bump_semver
bump_parsed none kind = generated_initial_version
bump_parsed (some v) kind = render (bump_semver (capped kind v.major_part) v)

unfoldable pub bump_for : Text → ChangeArg → Text
unfolding bump_parsed
bump_for current change = bump_parsed (parse_semver current) (bump_type_for change)

unfoldable pub is_promotion_eligible : ℕ → ℕ → ℕ → ℕ → Bool
is_promotion_eligible successes failures min_successes max_failures =
    leb min_successes successes && leb failures max_failures
