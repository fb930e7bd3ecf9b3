-- ===== src/Ledger/Roles.antt =====
-- packages/ledger/src/clubs.ts: who may change a club.
use Prim.Native.String.{String}
use vr_poker.Prelude.{
  ℕ, ◌≡◌, ap, refl, false, Option, some, List, ◌==◌, Option-cases, Bool-cases, inl, inr,
}
use vr_poker.Prelude.Maps.{lookup_in}
use vr_poker.Ledger.Entries.{failed, forbidden}
use vr_poker.Ledger.Clubs.{
  ClubRegistry, ClubPatch, ClubRole, ClubMember, has_role, managers, update_club, add_member,
  remove_member, require_role, member_list,
}

module _ (r : ClubRegistry) (club_id actor : ℕ) (ms : List ClubMember)
    (listed : lookup_in club_id r.members ≡ some ms)
    (outsider : has_role actor managers ms ≡ false) where
  members_listed : member_list club_id r ≡ (ms, r)
  unfolding member_list
  members_listed = rw (listed, member_list) refl

  refused : require_role club_id actor managers r ≡ (false, r)
  unfolding require_role
  refused =
      rw (ap (λ p. p.0) members_listed, ap (λ p. p.1) members_listed, outsider, require_role) refl

  not_allowed : (require_role club_id actor managers r).0 ≡ false
  not_allowed = ap (λ p. p.0) refused

  unchanged : (require_role club_id actor managers r).1 ≡ r
  unchanged = ap (λ p. p.1) refused

  outsider_update : (patch : ClubPatch) → (update_club club_id actor patch r).1 ≡ r
  unfolding update_club
  outsider_update patch = elim (Option-cases (lookup_in club_id r.clubs)) [
    | inl e ↦ rw (e, update_club) refl
    | inr (c, e) ↦ rw (e, not_allowed, unchanged, update_club) refl
  ]

  outsider_remove : (target : ℕ) → (remove_member club_id actor target r).1 ≡ r
  unfolding remove_member
  outsider_remove target = elim (Option-cases (lookup_in club_id r.clubs)) [
    | inl e ↦ rw (e, remove_member) refl
    | inr (c, e) ↦ elim (Bool-cases (target == c.owner_user_id)) [
      | inl y ↦ rw (e, y, remove_member) refl
      | inr n ↦ rw (e, n, not_allowed, unchanged, remove_member) refl
    ]
  ]

  outsider_add :
      (now : String) (user : ℕ) (role : Option ClubRole)
      → add_member now club_id actor user role r ≡ (failed forbidden, r)
  unfolding add_member
  outsider_add now user role = rw (not_allowed, unchanged, add_member) refl

  -- A user who is not listed as owner or admin of a club changes nothing: an update, a new member
  -- and a removal all leave the registry as it was, and the new member is refused.
  pub outsider_changes_nothing :
      (now : String) (patch : ClubPatch) (user : ℕ) (role : Option ClubRole)
      → ((update_club club_id actor patch r).1 ≡ r)
        × ((remove_member club_id actor user r).1 ≡ r)
        × (add_member now club_id actor user role r ≡ (failed forbidden, r))
  outsider_changes_nothing now patch user role =
      (outsider_update patch, outsider_remove user, outsider_add now user role)
