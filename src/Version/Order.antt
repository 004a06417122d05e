-- ===== src/Version/Order.antt =====
-- `compare_versions` is a total order on what the two texts are read as.
use you_mi_agent.Prelude.{◌≡◌, ◌≢◌, ◌↔◌, refl, none, some, Option, arith}
use you_mi_agent.Text.{Text}
use you_mi_agent.Version.{
  Semver, parse_semver, Comparison, less, same, greater, compare_parsed, compare_versions,
}

-- The comparison of the arguments the other way round.
abbrev pub flipped : Comparison → Comparison
flipped less = greater
flipped same = same
flipped greater = less

compare_parsed-flipped : (l r : Option Semver) → compare_parsed r l ≡ flipped (compare_parsed l r)
unfolding compare_parsed
compare_parsed-flipped none none = refl
compare_parsed-flipped none (some r) = refl
compare_parsed-flipped (some l) none = refl
compare_parsed-flipped (some l) (some r) = ground arith

compare_parsed-same : (l r : Option Semver) → compare_parsed l r ≡ same → l ≡ r
unfolding compare_parsed
compare_parsed-same none none h = refl
compare_parsed-same none (some r) h = cc
compare_parsed-same (some l) none h = cc
compare_parsed-same (some l) (some r) h = ground arith

compare_parsed_refl : (l : Option Semver) → compare_parsed l l ≡ same
unfolding compare_parsed
compare_parsed_refl none = refl
compare_parsed_refl (some l) = ground arith

compare_parsed_trans :
    (l m r : Option Semver)
    → compare_parsed l m ≡ less
    → compare_parsed m r ≢ greater
    → compare_parsed l r ≡ less
unfolding compare_parsed
compare_parsed_trans none (some m) none h k = absurd (k refl)
compare_parsed_trans none (some m) (some r) h k = refl
compare_parsed_trans (some l) (some m) none h k = absurd (k refl)
compare_parsed_trans (some l) (some m) (some r) h k = ground arith
compare_parsed_trans none none r h k = cc
compare_parsed_trans (some l) none r h k = cc

-- Two texts compare as equal exactly when they are read as the same version, or both as none.
pub compare_versions-same_iff :
    (l r : Text) → (compare_versions l r ≡ same) ↔ (parse_semver l ≡ parse_semver r)
unfolding compare_versions
compare_versions-same_iff l r = (
  compare_parsed-same (parse_semver l) (parse_semver r),
  λ e. rw e (compare_parsed_refl (parse_semver r)),
)

-- Exchanging the two texts turns the comparison round.
pub compare_versions-flipped : (l r : Text) → compare_versions r l ≡ flipped (compare_versions l r)
unfolding compare_versions
compare_versions-flipped l r = compare_parsed-flipped (parse_semver l) (parse_semver r)

-- A version that is less than a second one is less than every third one that the second one is not
-- greater than.
pub compare_versions_trans :
    (l m r : Text)
    → compare_versions l m ≡ less
    → compare_versions m r ≢ greater
    → compare_versions l r ≡ less
unfolding compare_versions
compare_versions_trans l m r =
    compare_parsed_trans (parse_semver l) (parse_semver m) (parse_semver r)
