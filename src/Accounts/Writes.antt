-- ===== src/Accounts/Writes.antt =====
-- What each step writes to the tables of teams, scopes, identities and tokens.
use spark_pilot.Prelude.{
  ◌≡◌, refl, sym, subst, String, Bool, false, none, some, List, [], ◌∷◌, ◌++◌, any, find, filter,
  append-nil,
}
use spark_pilot.Prelude.Table.{update_where, modify_row, get_row}
use spark_pilot.Models.{
  Uuid, Time, Team, User, UserIdentity, MagicLinkToken, TeamEnvironmentScope, Environment,
}
use spark_pilot.Database.{environment_key}
use spark_pilot.Accounts.Tables.{Directory, team_key, identity_key, has_actor, has_user, binds}
use spark_pilot.Accounts.Tenants.{set_identity, new_scope}
use spark_pilot.Accounts.Invites.{Draw, magic_link_token, consume, consume_callback}
use spark_pilot.Accounts.Callback.{mapped, take_over, new_identity}
use spark_pilot.Accounts.Steps.{takes_draw, KeepsTenants}

pub data TokenWrite : List MagicLinkToken → List MagicLinkToken → Type 0 where
  kept : {ts : List MagicLinkToken} → TokenWrite ts ts
  issued :
      {ts : List MagicLinkToken} (draw : Draw) (user_id tenant_id : Uuid) (created_by : String)
      (expires_at : Time)
      → any (takes_draw draw) ts ≡ false
      → TokenWrite ts (ts ++ magic_link_token draw user_id tenant_id created_by expires_at ∷ [])
  consumed :
      {ts : List MagicLinkToken} (test : MagicLinkToken → Bool) (now : Time)
      → TokenWrite ts (update_where test (consume now) ts)
  called_back :
      {ts : List MagicLinkToken} (test : MagicLinkToken → Bool) (now : Time)
      → TokenWrite ts (update_where test (consume_callback now) ts)
  both : {ts us vs : List MagicLinkToken} → TokenWrite ts us → TokenWrite us vs → TokenWrite ts vs

pub data ScopeWrite (d : Directory)
    : List TeamEnvironmentScope → List TeamEnvironmentScope → Type 0 where
  kept : {ss : List TeamEnvironmentScope} → ScopeWrite d ss ss
  bound :
      {ss : List TeamEnvironmentScope} (new_id : Uuid) (team : Team) (env : Environment)
      (team_id environment_id : Uuid)
      → get_row team_key team_id d.teams ≡ some team
      → get_row environment_key environment_id d.environments ≡ some env
      → team.tenant_id ≡ env.tenant_id
      → find (binds team_id environment_id) ss ≡ none
      → ScopeWrite d ss (ss ++ new_scope new_id team_id environment_id ∷ [])
  removed :
      {ss : List TeamEnvironmentScope} (keep : TeamEnvironmentScope → Bool)
      → ScopeWrite d ss (filter keep ss)

pub data IdentityWrite : List UserIdentity → List UserIdentity → Type 0 where
  kept : {is : List UserIdentity} → IdentityWrite is is
  created :
      {is : List UserIdentity} (row : UserIdentity)
      → get_row identity_key row.id is ≡ none
      → find (has_actor row.actor) is ≡ none
      → row.user_id ≡ none
      → IdentityWrite is (is ++ row ∷ [])
  updated :
      {is : List UserIdentity} (req : UserIdentity) (id : Uuid)
      → IdentityWrite is (modify_row identity_key id (set_identity req) is)
  invited :
      {is : List UserIdentity} (new_id : Uuid) (actor : String) (user : User)
      → get_row identity_key new_id is ≡ none
      → find (has_user user.id) is ≡ none
      → find (has_actor actor) is ≡ none
      → IdentityWrite is (is ++ new_identity new_id actor user ∷ [])
  refreshed :
      {is : List UserIdentity} (row : UserIdentity) (user : User)
      → find (has_user user.id) is ≡ some row
      → IdentityWrite is (modify_row identity_key row.id (mapped user) is)
  taken_over :
      {is : List UserIdentity} (row : UserIdentity) (actor : String) (user : User)
      → find (has_user user.id) is ≡ none
      → find (has_actor actor) is ≡ some row
      → IdentityWrite is (modify_row identity_key row.id (take_over actor user) is)

pub record Writes (d d' : Directory) : Type 0 where
  pub teams : (extra : List Team) × (d'.teams ≡ d.teams ++ extra)
  pub scopes : ScopeWrite d d.scopes d'.scopes
  pub identities : IdentityWrite d.identities d'.identities
  pub tokens : TokenWrite d.tokens d'.tokens
  pub environments : KeepsTenants d.environments d'.environments

-- The tables that a step leaves alone.
abbrev pub Untouched : Directory → Directory → Type 0
Untouched d d' =
    (d'.teams ≡ d.teams)
    × (d'.scopes ≡ d.scopes)
    × (d'.identities ≡ d.identities)
    × (d'.environments ≡ d.environments)

pub same_environments :
    (d d' : Directory)
    → d'.environments ≡ d.environments
    → KeepsTenants d.environments d'.environments
same_environments d d' e id env h = (env, rw e h, refl)

pub no_teams :
    (d d' : Directory) → d'.teams ≡ d.teams → (extra : List Team) × (d'.teams ≡ d.teams ++ extra)
no_teams d d' e = ([], rw e (sym (append-nil d.teams)))

pub kept_scopes : (d d' : Directory) → d'.scopes ≡ d.scopes → ScopeWrite d d.scopes d'.scopes
kept_scopes d d' e = subst (ScopeWrite d d.scopes) (sym e) ScopeWrite.kept

pub kept_identities :
    (d d' : Directory) → d'.identities ≡ d.identities → IdentityWrite d.identities d'.identities
kept_identities d d' e = subst (IdentityWrite d.identities) (sym e) IdentityWrite.kept

pub kept_tokens : (d d' : Directory) → d'.tokens ≡ d.tokens → TokenWrite d.tokens d'.tokens
kept_tokens d d' e = subst (TokenWrite d.tokens) (sym e) TokenWrite.kept

-- A step that writes tokens, or nothing of these tables.
pub tokens_written :
    (d d' : Directory) → Untouched d d' → TokenWrite d.tokens d'.tokens → Writes d d'
tokens_written d d' u w = record {
  teams = no_teams d d' u.0;
  scopes = kept_scopes d d' u.1;
  identities = kept_identities d d' u.2;
  tokens = w;
  environments = same_environments d d' u.3;
}

pub identities_written :
    (d d' : Directory)
    → (d'.teams ≡ d.teams)
      × (d'.scopes ≡ d.scopes)
      × (d'.tokens ≡ d.tokens)
      × (d'.environments ≡ d.environments)
    → IdentityWrite d.identities d'.identities
    → Writes d d'
identities_written d d' u w = record {
  teams = no_teams d d' u.0;
  scopes = kept_scopes d d' u.1;
  identities = w;
  tokens = kept_tokens d d' u.2;
  environments = same_environments d d' u.3;
}

pub scopes_written :
    (d d' : Directory)
    → (d'.teams ≡ d.teams)
      × (d'.identities ≡ d.identities)
      × (d'.tokens ≡ d.tokens)
      × (d'.environments ≡ d.environments)
    → ScopeWrite d d.scopes d'.scopes
    → Writes d d'
scopes_written d d' u w = record {
  teams = no_teams d d' u.0;
  scopes = w;
  identities = kept_identities d d' u.1;
  tokens = kept_tokens d d' u.2;
  environments = same_environments d d' u.3;
}
