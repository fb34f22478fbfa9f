-- ===== src/Accounts/Logins.antt =====
-- What an invited user can do after the first login.
use spark_pilot.Prelude.{
  ◌≡◌, refl, sym, subst, ap, ◌∙◌, inl, inr, String, false, ◌==◌, Option, none, some, List, [], ◌∷◌,
  ◌++◌, find, str_eq, eq_refl, Bool-cases, Option-cases, some-injective, arith,
}
use spark_pilot.Prelude.Table.{get_row, get_row-key, modify_row}
use spark_pilot.Models.{
  Uuid, Time, User, MemberRole, UserIdentity, IdentityRole, TeamEnvironmentScope,
}
use spark_pilot.Errors.{ok}
use spark_pilot.Accounts.Tables.{Directory, identity_key, user_key, has_actor, has_user}
use spark_pilot.Accounts.Access.{
  AccessContext, Allowed, allowed, forbidden, is_active_actor, check_identity,
  resolve_access_context,
}
use spark_pilot.Accounts.Callback.{
  mapped_role, take_over, new_identity, map_identity, apply_invite_identity_mapping,
}

-- What an invited user signs in as: an admin of any environment, or nothing yet.
abbrev pub first_access : (actor : String) → User → MemberRole → Allowed AccessContext
first_access actor user MemberRole.admin = allowed (record {
  actor = actor;
  role = IdentityRole.admin;
  tenant_id = some user.tenant_id;
  team_id = none;
  scoped_environment_ids = [];
})
first_access actor user MemberRole.member = forbidden "Actor is missing tenant/team assignment."

module _ (actor : String) (user : User) (scopes : List TeamEnvironmentScope) where
  -- The columns by which the access is decided.
  abbrev IsFirst : UserIdentity → Type 0
  IsFirst i =
      (i.role ≡ mapped_role user.role) × (i.tenant_id ≡ some user.tenant_id) × (i.team_id ≡ none)

  first-check :
      (i : UserIdentity) (r : MemberRole)
      → user.role ≡ r
      → IsFirst i
      → check_identity actor (some i) scopes ≡ first_access actor user r
  first-check i MemberRole.admin e (role, tenant, team) = rw (role, tenant, team, e) refl
  first-check i MemberRole.member e (role, tenant, team) = rw (role, tenant, team, e) refl

  new-found :
      (new_id : Uuid) (is : List UserIdentity)
      → find (has_actor actor) is ≡ none
      → find (is_active_actor actor) (is ++ new_identity new_id actor user ∷ [])
        ≡ some (new_identity new_id actor user)
  new-found new_id [] h = rw (eq_refl actor) refl
  new-found new_id (i ∷ is) h = ground (arith, new-found new_id is)

  taken-found :
      (row : UserIdentity) (is : List UserIdentity)
      → find (has_actor actor) is ≡ some row
      → (i : UserIdentity) × (find
            (is_active_actor actor)
            (modify_row identity_key row.id (take_over actor user) is)
          ≡ some i)
        × IsFirst i
  unfolding modify_row
  taken-found row [] h = absurd (ground arith)
  taken-found row (i ∷ is) h = elim (Bool-cases (i.id == row.id)) [
    | inl e ↦ (take_over actor user i, rw (e, eq_refl actor) refl, (refl, refl, refl))
    | inr e ↦ elim (Bool-cases (str_eq i.actor actor)) [
      | inl same ↦ absurd (clash e (some-injective i row (rw same at h)))
      | inr differs ↦
          let (j, found, first) = taken-found row is (rw differs at h) in
          (j, rw (e, differs) found, first)
    ]
  ]
    where
      clash : (i.id == row.id) ≡ false → i ≡ row → ⊥
      clash e same = ground (arith, ap (λ (x : UserIdentity). x.id) same)

  mapped-IsFirst :
      (new_id : Uuid) (row : UserIdentity) (is is' : List UserIdentity)
      (for_actor : Option UserIdentity)
      → find (has_actor actor) is ≡ for_actor
      → map_identity new_id actor user none for_actor is ≡ ok (row, is')
      → (i : UserIdentity) × (find (is_active_actor actor) is' ≡ some i) × IsFirst i
  unfolding map_identity
  mapped-IsFirst new_id row is is' none e h =
      let same : is ++ new_identity new_id actor user ∷ [] ≡ is' = ground arith in
      (new_identity new_id actor user, rw (sym same) (new-found new_id is e), (refl, refl, refl))
  mapped-IsFirst new_id row is is' (some old) e h =
      let same : modify_row identity_key old.id (take_over actor user) is ≡ is' = ground arith in
      rw (sym same) (taken-found old is e)

module _ (new_id : Uuid) (now : Time) (tenant_id user_id : Uuid) (actor : String)
    (source_ip : Option String) (row : UserIdentity) (d d' : Directory) where
  mapping_parts :
      apply_invite_identity_mapping new_id now tenant_id user_id actor source_ip d ≡ ok (row, d')
      → (user : User) × (get_row user_key user_id d.users ≡ some user)
        × (d'.scopes ≡ d.scopes)
        × (map_identity new_id actor user
              (find (has_user user.id) d.identities)
              (find (has_actor actor) d.identities)
              d.identities
            ≡ ok (row, d'.identities))
  unfolding apply_invite_identity_mapping
  mapping_parts h = elim (Option-cases (get_row user_key user_id d.users)) [
    | inl e ↦ absurd (ground arith)
    | inr (user, e) ↦ (user, e, ground arith, ground arith)
  ]

  -- Where the invite of a user without an identity is mapped to an actor, the actor is known from then
  -- on: as an admin of the user's tenant with no team if the user's role is admin, and if it is member
  -- every request is refused, since a team is missing.
  pub first_login_lem :
      (user : User)
      → get_row user_key user_id d.users ≡ some user
      → find (has_user user_id) d.identities ≡ none
      → apply_invite_identity_mapping new_id now tenant_id user_id actor source_ip d ≡ ok (row, d')
      → resolve_access_context d' actor ≡ first_access actor user user.role
  unfolding resolve_access_context
  first_login_lem user stored unknown h =
      let (u, found, scopes, mapping) = mapping_parts h in
      let same = some-injective u user (sym found ∙ stored) in
      let own = get_row-key user_key user_id d.users user stored in
      known user
        (subst
          (λ (x : User).
            map_identity new_id actor x (find (has_user x.id) d.identities)
              (find (has_actor actor) d.identities) d.identities
            ≡ ok (row, d'.identities))
          same mapping)
        (rw own unknown)
    where
      known :
          (u : User)
          → map_identity new_id actor u
              (find (has_user u.id) d.identities)
              (find (has_actor actor) d.identities)
              d.identities
            ≡ ok (row, d'.identities)
          → find (has_user u.id) d.identities ≡ none
          → check_identity actor (find (is_active_actor actor) d'.identities) d'.scopes
            ≡ first_access actor u u.role
      known u mapping unknown =
          let (i, e, first) =
            mapped-IsFirst actor u d'.scopes new_id row d.identities d'.identities _ refl
              (rw unknown at mapping) in
          rw e (first-check actor u d'.scopes i u.role refl first)
