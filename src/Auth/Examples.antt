-- ===== src/Auth/Examples.antt =====
-- Tests of packages/auth/src/index.ts, with a verifier that knows one token.
use Prim.Native.String.{String}
use vr_poker.Prelude.{ℕ, ◌≡◌, refl, false, Option, none, some, List, [], ◌∷◌, ◌++◌}
use vr_poker.Auth.Bearer.{bearer_from_header, bearer_prefix}
use vr_poker.Auth.Subject.{
  AuthVerifyOptions, Key, Payload, SpeaksFor, verify_access_token, require_auth_header,
  resolve_subject, resolved, granted, denied, header_speaks, other_subject, bad_token,
}

-- a token of two characters is the one of player 7
abbrev knows_one : List ℕ → Key → Option String → Option String → Option Payload
knows_one (a ∷ b ∷ []) key issuer audience = some record { sub = some 7; email = none }
knows_one _ key issuer audience = none

abbrev with_secret : AuthVerifyOptions
with_secret = record { jwks_url = none; issuer = none; audience = none; secret = some "dev" }

-- the header with the token, and a space at its end
abbrev header : Option (List ℕ)
header = some (bearer_prefix ++ (111 ∷ 107 ∷ 32 ∷ []))

trimmed : bearer_from_header header ≡ some (111 ∷ 107 ∷ [])
unfolding bearer_from_header
trimmed = refl

no_bearer : bearer_from_header (some (111 ∷ 107 ∷ [])) ≡ none
unfolding bearer_from_header
no_bearer = refl

other_claim :
    resolved false (some 8) (require_auth_header knows_one false with_secret header)
    ≡ denied other_subject
unfolding require_auth_header verify_access_token bearer_from_header resolve_subject
other_claim = refl

unknown_token :
    require_auth_header knows_one false with_secret (some (bearer_prefix ++ (111 ∷ [])))
    ≡ denied bad_token
unfolding require_auth_header verify_access_token bearer_from_header
unknown_token = refl

player_seven :
    resolved false (some 7) (require_auth_header knows_one false with_secret header) ≡ granted 7
unfolding require_auth_header verify_access_token bearer_from_header resolve_subject
player_seven = refl

header_speaks_example : SpeaksFor knows_one with_secret (bearer_from_header header) (some 7) 7
header_speaks_example = header_speaks knows_one with_secret header (some 7) 7 player_seven
