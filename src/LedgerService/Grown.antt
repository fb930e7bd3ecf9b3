-- ===== src/LedgerService/Grown.antt =====
-- packages/ledger/src/memory-store.ts: what the calls of the store append to the entries.
use Prim.Native.String.{String}
use vr_poker.Prelude.{
  ℕ, ◌≡◌, ◌⊎◌, inl, inr, refl, sym, ap, ◌∙◌, true, Option, none, some, List, [], ◌∷◌, ◌++◌, All,
  All-append, Bool-cases, Option-cases, ◌&&◌,
}
use vr_poker.Prelude.Int.{ℤ, ◌+ℤ◌}
use vr_poker.Prelude.Maps.{lookup_in, write_in}
use vr_poker.Ledger.Entries.{
  LedgerEntry, LedgerReason, Fallible, done, failed, After, seed, buy_in, cash_out,
}
use vr_poker.Ledger.Chips.{
  ChipLedger, Amount, negated, append, pushed, balance, history, is_zero, is_negative, post_buy_in,
  post_cash_out,
}
use vr_poker.Ledger.Balances.{guarded}
use vr_poker.Ledger.Clubs.{ClubPatch, ClubRole, Percent}
use vr_poker.Ledger.Store.{
  MemoryLedgerStore, UserAccount, Answer, named, seeded, welcome_seed, is_empty_list, ensure_user,
  get_user, with_chips, after_ensure, store_buy_in, store_cash_out, store_create_club,
  store_list_clubs, store_add_member,
}

-- The entries are those from before, in their order, and then some for each of which `P` holds.
abbrev pub Grown : (LedgerEntry → Type 0) → MemoryLedgerStore → MemoryLedgerStore → Type 0
Grown P s s' = (new : List LedgerEntry) × (s'.chips.entries ≡ s.chips.entries ++ new) × All P new

-- The chips that a new user is given, who had no entry in the ledger before.
abbrev pub IsWelcome : MemoryLedgerStore → LedgerEntry → Type 0
IsWelcome s e =
    (e.reason ≡ seed)
    × (e.amount ≡ welcome_seed)
    × (is_empty_list (history e.user_id s.chips) ≡ true)

-- An entry for the player, or a welcome.
abbrev pub IsFor : MemoryLedgerStore → ℕ → LedgerEntry → Type 0
IsFor s id e = IsWelcome s e ⊎ (e.user_id ≡ id)

append_nil : (xs : List LedgerEntry) → xs ++ [] ≡ xs
append_nil [] = refl
append_nil (x ∷ xs) = ap (λ t. x ∷ t) (append_nil xs)

append_assoc : (xs ys zs : List LedgerEntry) → (xs ++ ys) ++ zs ≡ xs ++ (ys ++ zs)
append_assoc [] ys zs = refl
append_assoc (x ∷ xs) ys zs = ap (λ t. x ∷ t) (append_assoc xs ys zs)

module _ (P : LedgerEntry → Type 0) where
  pub Grown-same : (s s' : MemoryLedgerStore) → s'.chips ≡ s.chips → Grown P s s'
  Grown-same s s' e = ([], ap (λ c. c.entries) e ∙ sym (append_nil s.chips.entries), tt)

  Grown-trans : (s t u : MemoryLedgerStore) → Grown P s t → Grown P t u → Grown P s u
  Grown-trans s t u (new, e, h) (more, f, k) =
      (new ++ more, rw (f, e) (append_assoc s.chips.entries new more), All-append P new more h k)

All-map :
    {P Q : LedgerEntry → Type 0} (xs : List LedgerEntry)
    → ((e : LedgerEntry) → P e → Q e)
    → All P xs
    → All Q xs
All-map [] f h = tt
All-map (x ∷ xs) f h = (f x h.0, All-map xs f h.1)

pub Grown-weaken :
    {P Q : LedgerEntry → Type 0} (s s' : MemoryLedgerStore)
    → ((e : LedgerEntry) → P e → Q e)
    → Grown P s s'
    → Grown Q s s'
Grown-weaken s s' f (new, e, h) = (new, e, All-map new f h)

append_entry :
    (now : String) (user : ℕ) (amount : ℤ) (reason : LedgerReason) (ref : Option String)
    (l : ChipLedger)
    → After
        (λ r.
          (r.1.entries ≡ l.entries ++ (r.0 ∷ []))
          × (r.0.user_id ≡ user)
          × (r.0.reason ≡ reason)
          × (r.0.amount ≡ amount))
        (append now user (some amount) reason ref l)
unfolding append
append_entry now user amount reason ref l =
    guarded _ (is_zero amount) (is_negative amount && is_negative (balance user l +ℤ amount)) _
      (pushed now user amount reason ref l) (λ fine. (refl, refl, refl, refl))

pub named-chips :
    (subject : ℕ) (name : Option String) (s : MemoryLedgerStore)
    → (named subject name s).chips ≡ s.chips
named-chips subject none s = refl
named-chips subject (some n) s = refl

abbrev GrewTo : {A : Type 0} → (LedgerEntry → Type 0) → MemoryLedgerStore → Answer A → Type 0
GrewTo P s r = Grown P s r.1

welcomed :
    (subject : ℕ) (s t : MemoryLedgerStore) (r : Fallible (LedgerEntry × ChipLedger))
    → t.chips ≡ s.chips
    → After
        (λ r.
          (r.1.entries ≡ t.chips.entries ++ (r.0 ∷ []))
          × (r.0.user_id ≡ subject)
          × (r.0.reason ≡ seed)
          × (r.0.amount ≡ welcome_seed))
        r
    → is_empty_list (history subject t.chips) ≡ true
    → GrewTo (IsWelcome s) s (elim r [
      | failed e ↦ (failed e, t)
      | done r ↦ let u = record t { chips = r.1 } in (get_user subject u, u)
    ])
welcomed subject s t (failed e) same h new = Grown-same (IsWelcome s) s t same
welcomed subject s t (done r) same h new =
    let was_new : is_empty_list (history r.0.user_id s.chips) ≡ true =
      ap (λ u. is_empty_list (history u s.chips)) h.1
      ∙ ap (λ c. is_empty_list (history subject c)) (sym same)
      ∙ new in
    (r.0 ∷ [], h.0 ∙ ap (λ c. c.entries ++ (r.0 ∷ [])) same, ((h.2, h.3, was_new), tt))

-- `ensureUser` appends nothing or one welcome.
pub ensure_user-Grown :
    (now : String) (subject : ℕ) (name : Option String) (s : MemoryLedgerStore)
    → Grown (IsWelcome s) s (ensure_user now subject name s).1
unfolding ensure_user
ensure_user-Grown now subject name s =
    let s1 = named subject name s in
    let same = named-chips subject name s in
    elim (Option-cases (lookup_in subject s1.created)) [
      | inr (at, e) ↦ rw (ensure_user, e) (Grown-same (IsWelcome s) s s1 same)
      | inl e ↦
          let s2 : MemoryLedgerStore = record s1 { created = write_in subject now s1.created } in
          elim (Bool-cases (is_empty_list (history subject s2.chips))) [
            | inr n ↦ rw (ensure_user, e, n) (Grown-same (IsWelcome s) s s2 same)
            | inl y ↦
                rw (ensure_user, e, y)
                  (welcomed subject s s2 (seeded now subject s2.chips) same
                    (append_entry now subject welcome_seed seed (some "welcome") s2.chips) y)
          ]
    ]

-- what `with_chips` keeps of an entry
posted-Grown :
    (before : MemoryLedgerStore) (id : ℕ) (s : MemoryLedgerStore)
    (r : Fallible (LedgerEntry × ChipLedger))
    → After (λ r. (r.1.entries ≡ s.chips.entries ++ (r.0 ∷ [])) × (r.0.user_id ≡ id)) r
    → Grown (IsFor before id) s (with_chips s r).1
posted-Grown before id s (failed e) h = Grown-same (IsFor before id) s s refl
posted-Grown before id s (done r) h = (r.0 ∷ [], h.0, (inr h.1, tt))

appended :
    (now : String) (user : ℕ) (amount : Amount) (reason : LedgerReason) (ref : Option String)
    (l : ChipLedger)
    → After
        (λ r. (r.1.entries ≡ l.entries ++ (r.0 ∷ [])) × (r.0.user_id ≡ user))
        (append now user amount reason ref l)
unfolding append
appended now user none reason ref l = tt
appended now user (some amount) reason ref l =
    guarded _ (is_zero amount) (is_negative amount && is_negative (balance user l +ℤ amount)) _
      (pushed now user amount reason ref l) (λ fine. (refl, refl))

ensured-Grown :
    {A : Type 0} (P : LedgerEntry → Type 0) (s : MemoryLedgerStore)
    (k : MemoryLedgerStore → Answer A) (r : Answer UserAccount)
    → ((e : LedgerEntry) → IsWelcome s e → P e)
    → Grown (IsWelcome s) s r.1
    → ((t : MemoryLedgerStore) → Grown P t (k t).1)
    → Grown P s (after_ensure k r).1
ensured-Grown P s k (failed e, t) w g h = Grown-weaken s t w g
ensured-Grown P s k (done u, t) w g h = Grown-trans P s t (k t).1 (Grown-weaken s t w g) (h t)

module _ (now : String) (id : ℕ) (s : MemoryLedgerStore) where
  pub store_buy_in-Grown :
      (amount : Amount) (ref : String) → Grown (IsFor s id) s (store_buy_in now id amount ref s).1
  unfolding store_buy_in post_buy_in
  store_buy_in-Grown amount ref =
      ensured-Grown (IsFor s id) s _ (ensure_user now id none s) (λ e w. inl w)
        (ensure_user-Grown now id none s)
        (λ t. posted-Grown s id t _ (appended now id (negated amount) buy_in (some ref) t.chips))

  pub store_cash_out-Grown :
      (amount : Amount) (ref : String) → Grown (IsFor s id) s (store_cash_out now id amount ref s).1
  unfolding store_cash_out post_cash_out
  store_cash_out-Grown amount ref =
      posted-Grown s id s _ (appended now id amount cash_out (some ref) s.chips)

  pub store_create_club-Grown :
      (uuid : ℕ) (rake : Percent) (name : String) (settings : ClubPatch)
      → Grown (IsWelcome s) s (store_create_club now id uuid rake name settings s).1
  unfolding store_create_club
  store_create_club-Grown uuid rake name settings =
      ensured-Grown (IsWelcome s) s _ (ensure_user now id none s) (λ e w. w)
        (ensure_user-Grown now id none s) (λ t. ([], sym (append_nil t.chips.entries), tt))

  pub store_list_clubs-Grown : Grown (IsWelcome s) s (store_list_clubs now id s).1
  unfolding store_list_clubs
  store_list_clubs-Grown =
      ensured-Grown (IsWelcome s) s _ (ensure_user now id none s) (λ e w. w)
        (ensure_user-Grown now id none s) (λ t. ([], sym (append_nil t.chips.entries), tt))

  pub store_add_member-Grown :
      (club actor : ℕ) (role : Option ClubRole)
      → Grown (IsWelcome s) s (store_add_member now id club actor role s).1
  unfolding store_add_member
  store_add_member-Grown club actor role =
      ensured-Grown (IsWelcome s) s _ (ensure_user now id none s) (λ e w. w)
        (ensure_user-Grown now id none s) (λ t. ([], sym (append_nil t.chips.entries), tt))
