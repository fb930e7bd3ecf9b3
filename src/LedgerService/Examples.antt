-- ===== src/LedgerService/Examples.antt =====
-- Tests of services/ledger, and the theorems for a token of the player 7.
use Prim.Native.String.{String}
use vr_poker.Prelude.{ℕ, suc, ◌≡◌, refl, true, false, Option, none, some, List, [], ◌∷◌, ◌/◌}
use vr_poker.Prelude.Int.{pos, ◌+ℤ◌}
use vr_poker.Ledger.Chips.{balance}
use vr_poker.Ledger.Clubs.{Percent}
use vr_poker.Ledger.Store.{MemoryLedgerStore, empty_store}
use vr_poker.Auth.Bearer.{bearer_from_header}
use vr_poker.Auth.Subject.{
  AuthUser, AuthVerifyOptions, Key, Payload, require_auth_header, verify_access_token,
}
use vr_poker.LedgerService.{Route, post_buy_in}
use vr_poker.LedgerService.Handle.{handle}
use vr_poker.LedgerService.Grown.{Grown}
use vr_poker.LedgerService.Tokens.{IsAllowed, entries-IsAllowed}
use vr_poker.LedgerService.Remote.{remote_buy_in, remote_cash_out}
use vr_poker.LedgerService.Serviced.{service_token_posts_own, cash_out_credits, post_cash_out_route}

-- every token is one of the user 7
abbrev jose : List ℕ → Key → Option String → Option String → Option Payload
jose token key issuer audience = some record { sub = some 7; email = none }

abbrev config : AuthVerifyOptions
config = record { jwks_url = none; issuer = none; audience = none; secret = some "secret" }

abbrev user : AuthUser
user = record { subject = 7; email = none }

-- "Bearer t"
abbrev header : Option (List ℕ)
header = some (66 ∷ 101 ∷ 97 ∷ 114 ∷ 101 ∷ 114 ∷ 32 ∷ 116 ∷ [])

abbrev default_rake : Percent
default_rake = record {
  rate = record { positive = true; floor_of = λ n. n / 20 };
  below_zero = false;
  above_limit = false;
}

abbrev buying : Route
buying = post_buy_in (some record { claimed = some 8; amount = some (pos 500); ref = none })

abbrev store : MemoryLedgerStore
store = empty_store

-- a token of the user 7 does not buy in for the user 8
entries-IsAllowed_example :
    Grown
      (IsAllowed jose config header store)
      store
      (handle jose false config "now" 1 default_rake (λ id. "Ann") 0 header buying store).1
entries-IsAllowed_example =
    entries-IsAllowed jose config header store "now" 1 default_rake (λ id. "Ann") 0 buying

service_token_posts_own_example :
    (balance 8
        (remote_buy_in jose false config "now" 1 default_rake
          (λ id. "Ann")
          0
          (λ id. "table")
          (some (116 ∷ []))
          none
          8
          (pos 500)
          3
          store).1.chips
      ≡ balance 8 store.chips)
    × (balance 8
          (remote_cash_out jose false config "now" 1 default_rake
            (λ id. "Ann")
            0
            (λ id. "table")
            (some (116 ∷ []))
            none
            8
            (pos 500)
            3
            store).1.chips
        ≡ balance 8 store.chips)
    × (balance 7
          (remote_cash_out jose false config "now" 1 default_rake
            (λ id. "Ann")
            0
            (λ id. "table")
            (some (116 ∷ []))
            none
            8
            (pos (suc 299))
            3
            store).1.chips
        ≡ balance 7 store.chips +ℤ pos (suc 299))
unfolding require_auth_header bearer_from_header verify_access_token
service_token_posts_own_example =
    service_token_posts_own jose false config "now" 1 default_rake (λ id. "Ann") 0 (λ id. "table")
      (some (116 ∷ [])) none 8 3 299 (pos 500) user store refl refl

-- a user without chips has a million of them
cash_out_credits_example :
    balance 7
      (handle jose false config "now" 1 default_rake
        (λ id. "Ann")
        0
        header
        (post_cash_out_route none (some (pos (suc 999_999))) none)
        store).1.chips
    ≡ balance 7 store.chips +ℤ pos (suc 999_999)
unfolding require_auth_header bearer_from_header verify_access_token
cash_out_credits_example =
    cash_out_credits jose false config "now" 1 default_rake (λ id. "Ann") 0 header none none 999_999
      user store refl
