-- ===== src/Version/Bump.antt =====
-- `bump_for` goes up, and never leaves its stage.
use you_mi_agent.Prelude.{◌≡◌, refl, ap, ◌∙◌, none, some, Option, arith}
use you_mi_agent.Text.{Text, split, strip, int_of}
use you_mi_agent.Version.{
  Semver, parse_semver, greater, compare_parsed, compare_versions, BumpType, major, minor, patch,
  ChangeArg, bump_type_for, capped, bump_semver, bump_parsed, bump_for, candidate, stage_of,
  stage_of_parsed,
}
use you_mi_agent.Version.RoundTrip.{parse_semver-render}

bump_semver-greater :
    (k : BumpType) (v : Semver) → compare_parsed (some (bump_semver k v)) (some v) ≡ greater
unfolding compare_parsed bump_semver
bump_semver-greater major v = ground arith
bump_semver-greater minor v = ground arith
bump_semver-greater patch v = ground arith

stage_of-capped :
    (k : BumpType) (v : Semver)
    → stage_of_parsed (some (bump_semver (capped k v.major_part) v)) ≡ stage_of_parsed (some v)
unfolding stage_of_parsed capped bump_semver
stage_of-capped major v = ground arith
stage_of-capped minor v = ground arith
stage_of-capped patch v = ground arith

bump_parsed-some :
    (p : Option Semver) (k : BumpType) (v : Semver)
    → p ≡ some v
    → parse_semver (bump_parsed p k) ≡ some (bump_semver (capped k v.major_part) v)
unfolding bump_parsed
bump_parsed-some none k v h = cc
bump_parsed-some (some w) k v h =
    let h' : w ≡ v = cc in
    parse_semver-render (bump_semver (capped k w.major_part) w)
    ∙ ap (λ x. some (bump_semver (capped k x.major_part) x)) h'

initial_is_candidate : stage_of_parsed (parse_semver (bump_parsed none patch)) ≡ candidate
unfolding stage_of_parsed parse_semver bump_parsed split strip int_of
initial_is_candidate = refl

stage_of-bump_parsed :
    (p : Option Semver) (k : BumpType)
    → stage_of_parsed (parse_semver (bump_parsed p k)) ≡ stage_of_parsed p
stage_of-bump_parsed none k = unfold bump_parsed stage_of_parsed in initial_is_candidate
stage_of-bump_parsed (some v) k =
    ap stage_of_parsed (bump_parsed-some (some v) k v refl) ∙ stage_of-capped k v

-- From a valid version, whatever the change, the bumped version is valid and compares as greater.
pub bump_for-greater :
    (current : Text) (change : ChangeArg) (v : Semver)
    → parse_semver current ≡ some v
    → compare_versions (bump_for current change) current ≡ greater
unfolding compare_versions bump_for
bump_for-greater current change v h =
    let k = bump_type_for change in
    rw (bump_parsed-some (parse_semver current) k v h, h)
      (bump_semver-greater (capped k v.major_part) v)

-- No change crosses 1.0.0 by a bump: the bumped version has the stage of the current one, and from
-- a text that is no version it is a candidate, as that text is.
pub stage_of-bump_for :
    (current : Text) (change : ChangeArg) → stage_of (bump_for current change) ≡ stage_of current
unfolding stage_of bump_for
stage_of-bump_for current change =
    stage_of-bump_parsed (parse_semver current) (bump_type_for change)
