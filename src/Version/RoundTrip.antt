-- ===== src/Version/RoundTrip.antt =====
-- `parse_semver` reads back what `bump_for` writes.
use you_mi_agent.Prelude.{All-append, All-map, ℕ, ◌≡◌, refl, some, [], ◌∷◌, All, arith}
use you_mi_agent.Text.{split}
use you_mi_agent.Text.Decimal.{
  IsDigit, NotSpace, IsDigit-NotSpace, decimal-digits, strip-clean, int_of-decimal,
}
use you_mi_agent.Text.Split.{Lacks, split-whole, split-first}
use you_mi_agent.Text.{decimal, is_space}
use you_mi_agent.Version.{Semver, render, parse_semver}

dot_free : (c : ℕ) → IsDigit c → Lacks b'.' c
dot_free c h = ground arith

decimal-NotSpace : (n : ℕ) → All NotSpace (decimal n)
decimal-NotSpace n = All-map IsDigit NotSpace (decimal n) IsDigit-NotSpace (decimal-digits n)

decimal-Lacks : (n : ℕ) → All (Lacks b'.') (decimal n)
decimal-Lacks n = All-map IsDigit (Lacks b'.') (decimal n) dot_free (decimal-digits n)

dot-NotSpace : NotSpace b'.'
unfolding is_space
dot-NotSpace = refl

render-NotSpace : (v : Semver) → All NotSpace (render v)
unfolding render
render-NotSpace v = All-append NotSpace (decimal v.major_part) _ (decimal-NotSpace v.major_part) (
  dot-NotSpace,
  All-append NotSpace (decimal v.minor_part) _ (decimal-NotSpace v.minor_part)
      (dot-NotSpace, decimal-NotSpace v.patch_part),
)

split-render :
    (v : Semver)
    → split b'.' (render v)
      ≡ decimal v.major_part ∷ decimal v.minor_part ∷ decimal v.patch_part ∷ []
unfolding render
split-render v = rw (
  split-first b'.' (decimal v.major_part) _ (decimal-Lacks v.major_part),
  split-first b'.' (decimal v.minor_part) _ (decimal-Lacks v.minor_part),
  split-whole b'.' (decimal v.patch_part) (decimal-Lacks v.patch_part),
)

-- Every version number that the program writes is read back as the same three numbers.
pub parse_semver-render : (v : Semver) → parse_semver (render v) ≡ some v
unfolding parse_semver
parse_semver-render v = rw (
  strip-clean (render v) (render-NotSpace v),
  split-render v,
  int_of-decimal v.major_part,
  int_of-decimal v.minor_part,
  int_of-decimal v.patch_part,
)
