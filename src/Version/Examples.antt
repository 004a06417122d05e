-- ===== src/Version/Examples.antt =====
-- The theorems on versions at concrete texts.
use you_mi_agent.Prelude.{◌≡◌, ◌≢◌, ◌↔◌, refl, some, none}
use you_mi_agent.Text.{codes, split, strip, int_of, decimal, text_eq}
use you_mi_agent.Version.{
  Semver, render, parse_semver, is_valid_semver, compare_versions, less, same, greater, change_enum,
  breaking, bump_for, stage_of, origin_text, resolve_initial_version,
}
use you_mi_agent.Version.RoundTrip.{parse_semver-render}
use you_mi_agent.Version.Order.{compare_versions-same_iff}
use you_mi_agent.Version.Bump.{bump_for-greater, stage_of-bump_for}
use you_mi_agent.Version.Origins.{resolve_initial_version-kept}

abbrev v1210 : Semver
v1210 = record { major_part = 1; minor_part = 2; patch_part = 10 }

render-v1210 : render v1210 ≡ codes "1.2.10"
unfolding render decimal
render-v1210 = refl

-- What `int` lets through: spaces, a plus sign, leading zeros and `_` between digits.
parse_lenient : parse_semver (codes " 1. +02.1_0 ") ≡ some v1210
unfolding parse_semver split strip int_of
parse_lenient = refl

parse_rejects :
    (parse_semver (codes "1.2") ≡ none)
    × (parse_semver (codes "1.-2.3") ≡ none)
    × (parse_semver (codes "1.2.x") ≡ none)
unfolding parse_semver split strip int_of
parse_rejects = (refl, refl, refl)

parse_semver-render_example : parse_semver (render v1210) ≡ some v1210
parse_semver-render_example = parse_semver-render v1210

compare_versions-same_iff_example :
    (compare_versions (codes "1.2.3") (codes "01.2.3") ≡ same)
    ↔ (parse_semver (codes "1.2.3") ≡ parse_semver (codes "01.2.3"))
compare_versions-same_iff_example = compare_versions-same_iff (codes "1.2.3") (codes "01.2.3")

two_comparisons :
    (compare_versions (codes "0.9.0") (codes "1.0.0") ≡ less)
    × (compare_versions (codes "1.0.0") (codes "1.0.1") ≡ less)
unfolding compare_versions parse_semver split strip int_of
two_comparisons = (refl, refl)

less≢greater : less ≢ greater
less≢greater e = cc

bump_for-greater_example :
    compare_versions (bump_for (codes "1.2.10") (change_enum breaking)) (codes "1.2.10") ≡ greater
unfolding parse_semver split strip int_of
bump_for-greater_example = bump_for-greater (codes "1.2.10") (change_enum breaking) v1210 refl

stage_of-bump_for_example :
    stage_of (bump_for (codes "0.2.10") (change_enum breaking)) ≡ stage_of (codes "0.2.10")
stage_of-bump_for_example = stage_of-bump_for (codes "0.2.10") (change_enum breaking)

resolve_initial_version-kept_example :
    resolve_initial_version (some (codes "2.0.0")) (origin_text "external") ≡ codes "2.0.0"
unfolding is_valid_semver parse_semver split strip int_of text_eq
resolve_initial_version-kept_example =
    resolve_initial_version-kept (codes "2.0.0") (origin_text "external") refl refl
