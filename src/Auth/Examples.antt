-- ===== src/Auth/Examples.antt =====
-- The theorems on authentication at two entries that share a token, and at one environment.
use you_mi_agent.Prelude.{◌≡◌, refl, some, List, [], ◌∷◌}
use you_mi_agent.Text.{Text, codes, strip, split}
use you_mi_agent.Auth.{
  AuthToken, admin, agent, viewer, Environ, Principal, accepted, type_error, enabled, init,
  is_ascii, is_empty, validate, auth_from_env, of_items, parse_role,
}
use you_mi_agent.Auth.Accepted.{
  outcome, last_entry, accepted_is_last, validate_ascii, non_ascii_raises,
}

abbrev first_letter : Text → Text
first_letter [] = []
first_letter (c ∷ t) = c ∷ []

abbrev entries : List AuthToken
entries =
    record { token = codes "k1"; role = admin; name = codes "ops"; tenant = codes "acme" }
    ∷ record { token = codes "k2"; role = viewer; name = codes "eye"; tenant = codes "acme" }
    ∷ record { token = codes "k1"; role = agent; name = codes "bot"; tenant = codes "umbra" }
    ∷ []

abbrev bot : Principal
bot = record {
  role = agent;
  name = codes "bot";
  tenant = codes "umbra";
  token_fingerprint = codes "k";
}

bot_accepted : validate first_letter (some (codes "k1")) (init entries) ≡ accepted bot
unfolding validate init
bot_accepted = refl

accepted_is_last_example :
    outcome first_letter (codes "k1") (last_entry (codes "k1") entries) ≡ accepted bot
unfolding enabled init
accepted_is_last_example = accepted_is_last first_letter entries (codes "k1") bot refl bot_accepted

validate_ascii_example :
    validate first_letter (some (codes "k3")) (init entries)
    ≡ outcome first_letter (codes "k3") (last_entry (codes "k3") entries)
unfolding enabled init is_ascii is_empty
validate_ascii_example =
    validate_ascii first_letter entries (codes "k3") refl (refl, (refl, (refl, tt))) refl refl

non_ascii_raises_example : validate first_letter (some (codes "é")) (init entries) ≡ type_error
unfolding enabled init is_ascii
non_ascii_raises_example = non_ascii_raises first_letter entries (codes "é") refl refl

abbrev environ : Environ
environ = record {
  auth_tokens = codes " k1:ADMIN:ops:acme ; :viewer;k2 ";
  auth_token = codes "k3 ";
  auth_role = codes "viewer";
  auth_tenant = [];
}

configured :
    (auth_from_env environ).tokens
    ≡ record { token = codes "k1"; role = admin; name = codes "ops"; tenant = codes "acme" }
      ∷ record { token = codes "k2"; role = agent; name = []; tenant = codes "default" }
      ∷ record { token = codes "k3"; role = viewer; name = []; tenant = codes "default" }
      ∷ []
unfolding auth_from_env strip split of_items parse_role
configured = refl
