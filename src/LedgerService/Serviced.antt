-- ===== src/LedgerService/Serviced.antt =====
-- services/game-server/src/remote-ledger.ts and services/ledger/src/index.ts: whose chips a game server
-- with a token of its own moves.
use Prim.Native.String.{String}
use vr_poker.Prelude.{
  ℕ, suc, arith, ◌≡◌, inl, inr, refl, ap, ◌∙◌, Bool, false, Option, none, some, List, [], ◌∷◌, ◌++◌,
  ◌==◌, Bool-cases, Option-cases, ◌&&◌,
}
use vr_poker.Prelude.Int.{ℤ, pos, ◌+ℤ◌}
use vr_poker.Prelude.Maps.{lookup_in, write_in}
use vr_poker.Ledger.Entries.{
  LedgerEntry, LedgerReason, Fallible, done, failed, After, seed, buy_in, cash_out,
}
use vr_poker.Ledger.Chips.{
  ChipLedger, Amount, negated, append, balance, history, is_negative, is_zero, pushed, post_buy_in,
  post_cash_out,
}
use vr_poker.Ledger.Balances.{append_balances}
use vr_poker.Ledger.Clubs.{Percent}
use vr_poker.Ledger.Store.{
  MemoryLedgerStore, UserAccount, Answer, named, seeded, welcome_seed, is_empty_list, ensure_user,
  get_user, with_chips, after_ensure, store_buy_in, store_cash_out,
}
use vr_poker.Auth.Subject.{AuthUser, AuthVerifyOptions, Key, Payload, granted, require_auth_header}
use vr_poker.LedgerService.{Response, Route, post_cash_out as out_route}
use vr_poker.LedgerService.Handle.{handle, with_balance, with_subject, id_or, text_or}
use vr_poker.LedgerService.Grown.{named-chips}
use vr_poker.LedgerService.Remote.{posted, auth_header, remote_buy_in, remote_cash_out}

module _ (now : String) (subject other : ℕ) (apart : (subject == other) ≡ false) where
  -- The balance of the other player is the same.
  abbrev Spared : {A : Type 0} → MemoryLedgerStore → A × MemoryLedgerStore → Type 0
  Spared s r = balance other r.1.chips ≡ balance other s.chips

  append-other :
      (amount : Amount) (reason : LedgerReason) (ref : Option String) (l : ChipLedger)
      → After (λ r. balance other r.1 ≡ balance other l) (append now subject amount reason ref l)
  unfolding append
  append-other none reason ref l = tt
  append-other (some amount) reason ref l =
      third (append now subject (some amount) reason ref l)
        (append_balances now subject other amount reason ref l apart)
    where
      third :
          (r : Fallible (LedgerEntry × ChipLedger))
          → After
              (λ r.
                (r.1.entries ≡ l.entries ++ (r.0 ∷ []))
                × (balance subject r.1 ≡ balance subject l +ℤ amount)
                × (balance other r.1 ≡ balance other l)
                × ((is_negative amount && is_negative (balance subject r.1)) ≡ false))
              r
          → After (λ r. balance other r.1 ≡ balance other l) r
      third (done r) h = h.2
      third (failed e) h = tt

  seeded-Spared :
      (s t : MemoryLedgerStore) (r : Fallible (LedgerEntry × ChipLedger))
      → t.chips ≡ s.chips
      → After (λ r. balance other r.1 ≡ balance other t.chips) r
      → Spared {A = Fallible UserAccount} s (elim r [
        | failed e ↦ (failed e, t)
        | done r ↦ let u = record t { chips = r.1 } in (get_user subject u, u)
      ])
  seeded-Spared s t (failed e) same h = ap (balance other) same
  seeded-Spared s t (done r) same h = h ∙ ap (balance other) same

  ensure_user-Spared :
      (name : Option String) (s : MemoryLedgerStore) → Spared s (ensure_user now subject name s)
  unfolding ensure_user
  ensure_user-Spared name s =
      let s1 = named subject name s in
      let same = named-chips subject name s in
      elim (Option-cases (lookup_in subject s1.created)) [
        | inr (at, e) ↦ rw (ensure_user, e) (ap (balance other) same)
        | inl e ↦
            let s2 : MemoryLedgerStore = record s1 { created = write_in subject now s1.created } in
            elim (Bool-cases (is_empty_list (history subject s2.chips))) [
              | inr n ↦ rw (ensure_user, e, n) (ap (balance other) same)
              | inl y ↦
                  rw (ensure_user, e, y)
                    (seeded-Spared s s2 (seeded now subject s2.chips) same
                      (append-other (some welcome_seed) seed (some "welcome") s2.chips))
            ]
      ]

  with_chips-Spared :
      (s : MemoryLedgerStore) (r : Fallible (LedgerEntry × ChipLedger))
      → After (λ r. balance other r.1 ≡ balance other s.chips) r
      → Spared s (with_chips s r)
  with_chips-Spared s (done r) h = h
  with_chips-Spared s (failed e) h = refl

  ensured-Spared :
      (s : MemoryLedgerStore) (k : MemoryLedgerStore → Answer LedgerEntry) (r : Answer UserAccount)
      → Spared s r
      → ((t : MemoryLedgerStore) → Spared t (k t))
      → Spared s (after_ensure k r)
  ensured-Spared s k (failed e, t) h g = h
  ensured-Spared s k (done u, t) h g = g t ∙ h

  store_buy_in-Spared :
      (amount : Amount) (ref : String) (s : MemoryLedgerStore)
      → Spared s (store_buy_in now subject amount ref s)
  unfolding store_buy_in post_buy_in
  store_buy_in-Spared amount ref s =
      ensured-Spared s _ (ensure_user now subject none s) (ensure_user-Spared none s)
        (λ t. with_chips-Spared t _ (append-other (negated amount) buy_in (some ref) t.chips))

  store_cash_out-Spared :
      (amount : Amount) (ref : String) (s : MemoryLedgerStore)
      → Spared s (store_cash_out now subject amount ref s)
  unfolding store_cash_out post_cash_out
  store_cash_out-Spared amount ref s =
      with_chips-Spared s _ (append-other amount cash_out (some ref) s.chips)

  answered-Spared :
      (s : MemoryLedgerStore) (r : Fallible LedgerEntry × MemoryLedgerStore)
      → Spared s r
      → Spared s (posted (with_balance subject r))
  answered-Spared s (done e, t) h = h
  answered-Spared s (failed e, t) h = h

recorded :
    (now : String) (user chips : ℕ) (ref : Option String) (l : ChipLedger)
    → append now user (some (pos (suc chips))) cash_out ref l
      ≡ done (pushed now user (pos (suc chips)) cash_out ref l)
unfolding append
recorded now user chips ref l =
    let whole : is_zero (pos (suc chips)) ≡ false = ground arith in
    let credit : is_negative (pos (suc chips)) ≡ false = ground arith in rw (whole, credit) refl

credited-balance :
    (now : String) (user : ℕ) (s : MemoryLedgerStore) (ref : Option String) (chips : ℕ)
    → balance user
        (with_chips s (append now user (some (pos (suc chips))) cash_out ref s.chips)).1.chips
      ≡ balance user s.chips +ℤ pos (suc chips)
credited-balance now user s ref chips =
    let amount = pos (suc chips) in
    let apart : (user == suc user) ≡ false = ground arith in
    let e = recorded now user chips ref s.chips in
    let r = pushed now user amount cash_out ref s.chips in
    let good : (r.1.entries ≡ s.chips.entries ++ (r.0 ∷ []))
        × (balance user r.1 ≡ balance user s.chips +ℤ amount)
        × (balance (suc user) r.1 ≡ balance (suc user) s.chips)
        × ((is_negative amount && is_negative (balance user r.1)) ≡ false) =
      rw e at (append_balances now user (suc user) amount cash_out ref s.chips apart) in
    rw e good.1

posted-chips :
    (user subject : ℕ) (r : Fallible LedgerEntry × MemoryLedgerStore)
    → balance user (posted (with_balance subject r)).1.chips ≡ balance user r.1.chips
posted-chips user subject (done e, t) = refl
posted-chips user subject (failed e, t) = refl

-- the route of a cash-out with this body
abbrev pub post_cash_out_route : Option ℕ → Amount → Option String → Route
post_cash_out_route claimed amount ref =
    out_route (some record { claimed = claimed; amount = amount; ref = ref })

module _ (jwt_verify : List ℕ → Key → Option String → Option String → Option Payload)
    (disabled : Bool) (config : AuthVerifyOptions) (now : String) (uuid : ℕ)
    (default_rake : Percent) (text_of : ℕ → String) (empty : ℕ) where
  for_user :
      (header : Option (List ℕ)) (claimed : Option ℕ) (u : AuthUser) (s : MemoryLedgerStore)
      (k : Option ℕ → Response × MemoryLedgerStore)
      → require_auth_header jwt_verify disabled config header ≡ granted (some u)
      → with_subject jwt_verify disabled config header claimed s k ≡ k (some u.subject)
  for_user header claimed u s k e = rw (with_subject, e) refl

  -- Where the game server sends a token that is verified for a user of the ledger service, a buy-in or
  -- a cash-out that it asks for another player, of any amount, leaves the balance of this player at the
  -- ledger as it was, and a cash-out of some chips for this player adds them to the balance of the user
  -- of the token.
  pub service_token_posts_own :
      (ref_of : ℕ → String) (service own : Option (List ℕ)) (player table chips : ℕ) (amount : ℤ)
      (u : AuthUser) (s : MemoryLedgerStore)
      → require_auth_header jwt_verify disabled config (auth_header service own) ≡ granted (some u)
      → (u.subject == player) ≡ false
      → (balance player
            (remote_buy_in jwt_verify disabled config now uuid default_rake text_of empty ref_of
              service own player amount table s).1.chips
          ≡ balance player s.chips)
        × (balance player
              (remote_cash_out jwt_verify disabled config now uuid default_rake text_of empty ref_of
                service own player amount table s).1.chips
            ≡ balance player s.chips)
        × (balance u.subject
              (remote_cash_out jwt_verify disabled config now uuid default_rake text_of empty ref_of
                service own player
                (pos (suc chips))
                table
                s).1.chips
            ≡ balance u.subject s.chips +ℤ pos (suc chips))
  unfolding remote_buy_in remote_cash_out handle store_cash_out post_cash_out append
  service_token_posts_own ref_of service own player table chips amount u s let_in apart =
      let header = auth_header service own in
      let buys : Option ℕ → Response × MemoryLedgerStore = λ who.
        with_balance (id_or empty who)
          (store_buy_in now (id_or empty who) (some amount) (ref_of table) s) in
      let pays : ℤ → Option ℕ → Response × MemoryLedgerStore = λ a who.
        with_balance (id_or empty who)
          (store_cash_out now (id_or empty who) (some a) (ref_of table) s) in
      (
        ap (λ r. balance player (posted r).1.chips) (for_user header (some player) u s buys let_in)
            ∙ answered-Spared now u.subject player apart s
                (store_buy_in now u.subject (some amount) (ref_of table) s)
                (store_buy_in-Spared now u.subject player apart (some amount) (ref_of table) s),
        ap (λ r. balance player (posted r).1.chips)
              (for_user header (some player) u s (pays amount) let_in)
            ∙ answered-Spared now u.subject player apart s
                (store_cash_out now u.subject (some amount) (ref_of table) s)
                (store_cash_out-Spared now u.subject player apart (some amount) (ref_of table) s),
        ap (λ r. balance u.subject (posted r).1.chips)
              (for_user header (some player) u s (pays (pos (suc chips))) let_in)
            ∙ posted-chips u.subject u.subject
                (store_cash_out now u.subject (some (pos (suc chips))) (ref_of table) s)
            ∙ credited-balance now u.subject s (some (ref_of table)) chips,
      )

  -- Whoever has a token that is verified for a user can have any number of chips: a cash-out that the
  -- user asks the service for is credited in full, with nothing that it is taken from.
  pub cash_out_credits :
      (header : Option (List ℕ)) (claimed : Option ℕ) (ref : Option String) (chips : ℕ)
      (u : AuthUser) (s : MemoryLedgerStore)
      → require_auth_header jwt_verify disabled config header ≡ granted (some u)
      → balance u.subject
          (handle jwt_verify disabled config now uuid default_rake text_of empty header
            (post_cash_out_route claimed (some (pos (suc chips))) ref)
            s).1.chips
        ≡ balance u.subject s.chips +ℤ pos (suc chips)
  unfolding handle store_cash_out post_cash_out append
  cash_out_credits header claimed ref chips u s let_in =
      let cashes : Option ℕ → Response × MemoryLedgerStore = λ who.
        with_balance (id_or empty who)
          (store_cash_out now (id_or empty who) (some (pos (suc chips))) (text_or "table" ref) s) in
      ap (λ r. balance u.subject r.1.chips) (for_user header claimed u s cashes let_in)
      ∙ credited-balance now u.subject s (some (text_or "table" ref)) chips
