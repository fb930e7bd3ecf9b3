-- ===== src/Ledger/Clubs.antt =====
-- packages/ledger/src/clubs.ts and types.ts: the clubs and their members.
-- A method returns what it gives or throws, beside the registry it leaves. The id of a new club and
-- the time are what the platform gives, arguments of the operations.
use Prim.Native.String.{String}
use vr_poker.Prelude.{
  ℕ, Bool, true, false, not, Option, none, some, List, [], ◌∷◌, ◌++◌, ◌||◌, if◌then◌else◌, ◌==◌,
  find, some_of,
}
use vr_poker.Prelude.Maps.{lookup_in, write_in, erase_in}
use vr_poker.Pots.{Rate}
use vr_poker.Ledger.Entries.{
  LedgerError, Fallible, done, failed, club_not_found, rake_percent_out_of_range,
  only_owner_may_delete, cannot_add_owner, already_member, cannot_remove_owner, member_not_found,
  forbidden,
}

pub data ClubRole : Type 0 where
  owner admin member_role : ClubRole

-- A rake percentage, by what the code asks of it: its products, and how it compares to 0 and 0.2.
pub record Percent : Type 0 where
  pub rate : Rate
  pub below_zero : Bool
  pub above_limit : Bool

pub record Club : Type 0 where
  pub id : ℕ
  pub name : String
  pub owner_user_id : ℕ
  pub rake_percent : Percent
  pub rake_cap : ℕ
  pub no_flop_no_rake : Bool
  pub min_buy_in : ℕ
  pub max_buy_in : ℕ
  pub created_at : String

pub record ClubMember : Type 0 where
  pub club_id : ℕ
  pub user_id : ℕ
  pub role : ClubRole
  pub joined_at : String

pub record ClubTableConfig : Type 0 where
  pub club_id : ℕ
  pub rake_percent : Percent
  pub rake_cap : ℕ
  pub no_flop_no_rake : Bool
  pub min_buy_in : ℕ
  pub max_buy_in : ℕ

-- `Partial<Pick<Club, …>>`
pub record ClubPatch : Type 0 where
  pub name : Option String
  pub rake_percent : Option Percent
  pub rake_cap : Option ℕ
  pub no_flop_no_rake : Option Bool
  pub min_buy_in : Option ℕ
  pub max_buy_in : Option ℕ

pub record ClubRegistry : Type 0 where
  pub clubs : List (ℕ × Club)
  pub members : List (ℕ × List ClubMember)

-- `a ?? b`
abbrev pub or_else : {A : Type 0} → Option A → A → A
or_else none b = b
or_else (some a) b = a

abbrev pub Outcome : Type 0 → Type 0
Outcome A = Fallible A × ClubRegistry

-- `settings` gives no name.
unfoldable pub create_club :
    ℕ → String → Percent → ℕ → String → ClubPatch → ClubRegistry → Club × ClubRegistry
create_club uuid now default_rake owner_id name settings r =
    let club : Club = record {
      id = uuid;
      name = name;
      owner_user_id = owner_id;
      rake_percent = or_else settings.rake_percent default_rake;
      rake_cap = or_else settings.rake_cap 300;
      no_flop_no_rake = or_else settings.no_flop_no_rake true;
      min_buy_in = or_else settings.min_buy_in 4000;
      max_buy_in = or_else settings.max_buy_in 20_000;
      created_at = now;
    } in
    let first : ClubMember = record {
      club_id = uuid;
      user_id = owner_id;
      role = owner;
      joined_at = now;
    } in
    (
      club,
      record { clubs = write_in uuid club r.clubs; members = write_in uuid (first ∷ []) r.members },
    )

abbrev pub or_failed : {A : Type 0} → Option A → LedgerError → Fallible A
or_failed none e = failed e
or_failed (some a) e = done a

unfoldable pub get_club : ℕ → ClubRegistry → Fallible Club
get_club club_id r = or_failed (lookup_in club_id r.clubs) club_not_found

abbrev pub is_user : ℕ → ClubMember → Bool
is_user user m = m.user_id == user

-- `memberList` puts an empty list in place of a missing one.
unfoldable pub member_list : ℕ → ClubRegistry → List ClubMember × ClubRegistry
member_list club_id r = elim (lookup_in club_id r.members) [
  | none ↦ ([], record r { members = write_in club_id [] r.members })
  | some ms ↦ (ms, r)
]

abbrev pub same_role : ClubRole → ClubRole → Bool
same_role owner owner = true
same_role admin admin = true
same_role member_role member_role = true
same_role _ _ = false

abbrev pub has_role : ℕ → List ClubRole → List ClubMember → Bool
has_role user roles ms = elim (find (is_user user) ms) [
  | none ↦ false
  | some m ↦ some_of (same_role m.role) roles
]

-- `requireRole`, which throws where this is false
unfoldable pub require_role : ℕ → ℕ → List ClubRole → ClubRegistry → Bool × ClubRegistry
unfolding member_list
require_role club_id user roles r =
    let (ms, r') = member_list club_id r in (has_role user roles ms, r')

abbrev pub managers : List ClubRole
managers = owner ∷ admin ∷ []

-- the clubs of the ids that have the user among their members
abbrev pub clubs_of : ℕ → List (ℕ × List ClubMember) → ClubRegistry → Fallible (List Club)
clubs_of user [] r = done []
clubs_of user ((id, ms) ∷ rest) r =
    let later = clubs_of user rest r in
    if some_of (is_user user) ms
    then elim (lookup_in id r.clubs) [
      | none ↦ failed club_not_found
      | some c ↦ elim later [ done cs ↦ done (c ∷ cs) | failed e ↦ failed e ]
    ]
    else later

unfoldable pub list_clubs_for_user : ℕ → ClubRegistry → Fallible (List Club)
list_clubs_for_user user r = clubs_of user r.members r

abbrev pub bad_rake : Option Percent → Bool
bad_rake none = false
bad_rake (some p) = p.below_zero || p.above_limit

-- `Object.assign(club, patch)`
abbrev pub assign : ClubPatch → Club → Club
assign patch c = record c {
  name = or_else patch.name c.name;
  rake_percent = or_else patch.rake_percent c.rake_percent;
  rake_cap = or_else patch.rake_cap c.rake_cap;
  no_flop_no_rake = or_else patch.no_flop_no_rake c.no_flop_no_rake;
  min_buy_in = or_else patch.min_buy_in c.min_buy_in;
  max_buy_in = or_else patch.max_buy_in c.max_buy_in;
}

unfoldable pub update_club : ℕ → ℕ → ClubPatch → ClubRegistry → Outcome Club
unfolding require_role
update_club club_id actor patch r = elim (lookup_in club_id r.clubs) [
  | none ↦ (failed club_not_found, r)
  | some club ↦
      let (allowed, r') = require_role club_id actor managers r in
      if not allowed
      then (failed forbidden, r')
      else if bad_rake patch.rake_percent
      then (failed rake_percent_out_of_range, r')
      else (
        done (assign patch club),
        record r' { clubs = write_in club_id (assign patch club) r'.clubs },
      )
]

unfoldable pub delete_club : ℕ → ℕ → ClubRegistry → Outcome (Unit {0})
delete_club club_id actor r = elim (lookup_in club_id r.clubs) [
  | none ↦ (failed club_not_found, r)
  | some club ↦ if not (club.owner_user_id == actor) then (failed only_owner_may_delete, r) else (
    done tt,
    record { clubs = erase_in club_id r.clubs; members = erase_in club_id r.members },
  )
]

abbrev pub new_member : String → ℕ → ℕ → ClubRole → ClubMember
new_member now club_id user role = record {
  club_id = club_id;
  user_id = user;
  role = role;
  joined_at = now;
}

unfoldable pub add_member : String → ℕ → ℕ → ℕ → Option ClubRole → ClubRegistry → Outcome ClubMember
unfolding require_role member_list
add_member now club_id actor user given r =
    let role = or_else given member_role in
    let (allowed, r') = require_role club_id actor managers r in
    let (ms, r'') = member_list club_id r' in
    if not allowed
    then (failed forbidden, r')
    else if same_role role owner
    then (failed cannot_add_owner, r')
    else if some_of (is_user user) ms
    then (failed already_member, r'')
    else let m = new_member now club_id user role in
      (done m, record r'' { members = write_in club_id (ms ++ (m ∷ [])) r''.members })

-- The first member with this id goes; `none` where there is none.
abbrev pub without_user : ℕ → List ClubMember → Option (List ClubMember)
without_user user [] = none
without_user user (m ∷ ms) =
    let rest = without_user user ms in
    if is_user user m then some ms else elim rest [ none ↦ none | some l ↦ some (m ∷ l) ]

unfoldable pub remove_member : ℕ → ℕ → ℕ → ClubRegistry → Outcome (Unit {0})
unfolding require_role member_list
remove_member club_id actor target r = elim (lookup_in club_id r.clubs) [
  | none ↦ (failed club_not_found, r)
  | some club ↦
      let (allowed, r') = require_role club_id actor managers r in
      let (ms, r'') = member_list club_id r' in
      if target == club.owner_user_id
      then (failed cannot_remove_owner, r)
      else if not allowed
      then (failed forbidden, r')
      else elim (without_user target ms) [
        | none ↦ (failed member_not_found, r'')
        | some l ↦ (done tt, record r'' { members = write_in club_id l r''.members })
      ]
]

unfoldable pub list_members : ℕ → ClubRegistry → List ClubMember × ClubRegistry
unfolding member_list
list_members club_id r = member_list club_id r

abbrev pub config_of_club : Club → ClubTableConfig
config_of_club c = record {
  club_id = c.id;
  rake_percent = c.rake_percent;
  rake_cap = c.rake_cap;
  no_flop_no_rake = c.no_flop_no_rake;
  min_buy_in = c.min_buy_in;
  max_buy_in = c.max_buy_in;
}

unfoldable pub table_config_for_club : ℕ → ClubRegistry → Fallible ClubTableConfig
table_config_for_club club_id r = elim (lookup_in club_id r.clubs) [
  | none ↦ failed club_not_found
  | some c ↦ done (config_of_club c)
]
