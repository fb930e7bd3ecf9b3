-- ===== src/Auth/Subject.antt =====
-- packages/auth/src/index.ts: `verifyAccessToken`, `requireAuthHeader`, `resolveSubject` and
-- `verifyWsAuth`.
use Prim.Native.String.{String}
use vr_poker.Prelude.{
  ℕ, ◌≡◌, refl, Bool, true, false, Option, none, some, List, [], ◌∷◌, ◌==◌, sym, if◌then◌else◌,
  Bool-cases, inl, inr,
}
use vr_poker.Auth.Bearer.{bearer_from_header}

-- The messages of `AuthError`; `bad_token` is what jose throws, which is no `AuthError`.
pub data AuthError : Type 0 where
  not_configured missing_sub missing_bearer_token player_id_required other_subject : AuthError
  bad_token : AuthError

pub data Verdict (A : Type 0) : Type 0 where
  granted : A → Verdict A
  denied : AuthError → Verdict A

-- A text of the environment that is empty counts as absent.
pub record AuthVerifyOptions : Type 0 where
  pub jwks_url : Option String
  pub issuer : Option String
  pub audience : Option String
  pub secret : Option String

pub record AuthUser : Type 0 where
  pub subject : ℕ
  pub email : Option String

pub record Payload : Type 0 where
  pub sub : Option ℕ
  pub email : Option String

-- the key that `jwtVerify` is given
pub data Key : Type 0 where
  secret_key remote_key_set : String → Key

abbrev pub user_of : Payload → Verdict AuthUser
user_of payload = elim payload.sub [
  | none ↦ denied missing_sub
  | some sub ↦ granted record { subject = sub; email = payload.email }
]

-- a payload, or jose's error
abbrev pub user_or_bad : Option Payload → Verdict AuthUser
user_or_bad none = denied bad_token
user_or_bad (some payload) = user_of payload

module _ (jwt_verify : List ℕ → Key → Option String → Option String → Option Payload) where
  unfoldable pub verify_access_token : List ℕ → AuthVerifyOptions → Verdict AuthUser
  verify_access_token token opts = elim opts.secret [
    | some s ↦ user_or_bad (jwt_verify token (secret_key s) opts.issuer opts.audience)
    | none ↦ elim opts.jwks_url [
      | some url ↦ user_or_bad (jwt_verify token (remote_key_set url) opts.issuer opts.audience)
      | none ↦ denied not_configured
    ]
  ]

  -- a user for a verified token; an empty token counts as none
  abbrev pub user_for : Option (List ℕ) → AuthVerifyOptions → Verdict (Option AuthUser)
  user_for none opts = denied missing_bearer_token
  user_for (some []) opts = denied missing_bearer_token
  user_for (some (c ∷ cs)) opts = elim (verify_access_token (c ∷ cs) opts) [
    | granted user ↦ granted (some user)
    | denied e ↦ denied e
  ]

  -- `disabled` is whether `AUTH_DISABLED` is "1", and `config` what `authConfigFromEnv` reads.
  module _ (disabled : Bool) (config : AuthVerifyOptions) where
    unfoldable pub require_auth_header : Option (List ℕ) → Verdict (Option AuthUser)
    unfolding verify_access_token bearer_from_header
    require_auth_header authorization =
        if disabled then granted none else user_for (bearer_from_header authorization) config

    unfoldable pub verify_ws_auth : Option (List ℕ) → Option (List ℕ) → Verdict (Option AuthUser)
    unfolding verify_access_token bearer_from_header
    verify_ws_auth token authorization =
        if disabled
        then granted none
        else user_for (elim token [ some t ↦ some t | none ↦ bearer_from_header authorization ])
            config

abbrev pub same_claim : Option ℕ → ℕ → Bool
same_claim none subject = true
same_claim (some c) subject = c == subject

unfoldable pub resolve_subject : Bool → Option AuthUser → Option ℕ → Verdict ℕ
resolve_subject disabled user claimed =
    if disabled
    then elim claimed [ none ↦ denied player_id_required | some id ↦ granted id ]
    else elim user [
      | none ↦ denied missing_bearer_token
      | some u ↦ if same_claim claimed u.subject then granted u.subject else denied other_subject
    ]

-- a handler's two calls: who the token names, and whom the request then acts for
abbrev pub resolved : Bool → Option ℕ → Verdict (Option AuthUser) → Verdict ℕ
resolved disabled claimed (granted user) = resolve_subject disabled user claimed
resolved disabled claimed (denied e) = denied e

-- A token that jose verifies for the player, in a request that claims to be no one else.
abbrev pub SpeaksFor :
    (List ℕ → Key → Option String → Option String → Option Payload)
    → AuthVerifyOptions
    → Option (List ℕ)
    → Option ℕ
    → ℕ
    → Type 0
SpeaksFor jwt_verify opts token claimed player =
    (text : List ℕ) × (email : Option String) × (token ≡ some text)
    × (verify_access_token jwt_verify text opts
        ≡ granted record { subject = player; email = email })
    × (same_claim claimed player ≡ true)

granted_subject :
    (u : AuthUser) (claimed : Option ℕ) (player : ℕ)
    → resolve_subject false (some u) claimed ≡ granted player
    → (u.subject ≡ player) × (same_claim claimed u.subject ≡ true)
unfolding resolve_subject
granted_subject u claimed player e = elim (Bool-cases (same_claim claimed u.subject)) [
  | inl y ↦ let e' = rw y at e in (cc, y)
  | inr n ↦ let e' = rw n at e in absurd cc
]

module _ (jwt_verify : List ℕ → Key → Option String → Option String → Option Payload)
    (config : AuthVerifyOptions) (claimed : Option ℕ) (player : ℕ) where
  user_speaks :
      (text : List ℕ) (v : Verdict AuthUser)
      → verify_access_token jwt_verify text config ≡ v
      → resolved false claimed (elim v [ granted user ↦ granted (some user) | denied e ↦ denied e ])
        ≡ granted player
      → SpeaksFor jwt_verify config (some text) claimed player
  user_speaks text (granted u) v e =
      let (same, fits) = granted_subject u claimed player e in
      (text, u.email, refl, rw (sym same) v, rw (sym same) fits)
  user_speaks text (denied x) v e = absurd cc

  token_speaks :
      (token : Option (List ℕ))
      → resolved false claimed (user_for jwt_verify token config) ≡ granted player
      → SpeaksFor jwt_verify config token claimed player
  token_speaks none e = absurd cc
  token_speaks (some []) e = absurd cc
  token_speaks (some (c ∷ cs)) e =
      user_speaks (c ∷ cs) (verify_access_token jwt_verify (c ∷ cs) config) refl e

-- Where auth is on, a request acts for a player only with a bearer token in its header that jose
-- verifies for the player, and where it does not claim to be another player.
pub header_speaks :
    (jwt_verify : List ℕ → Key → Option String → Option String → Option Payload)
    (config : AuthVerifyOptions) (header : Option (List ℕ)) (claimed : Option ℕ) (player : ℕ)
    → resolved false claimed (require_auth_header jwt_verify false config header) ≡ granted player
    → SpeaksFor jwt_verify config (bearer_from_header header) claimed player
unfolding require_auth_header
header_speaks jwt_verify config header claimed player e =
    token_speaks jwt_verify config claimed player (bearer_from_header header) e
