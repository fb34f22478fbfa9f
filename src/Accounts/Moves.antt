-- ===== src/Accounts/Moves.antt =====
-- What any step writes.
use spark_pilot.Prelude.{[], sym, append-nil}
use spark_pilot.Accounts.Tables.{Directory}
use spark_pilot.Accounts.Steps.{Step}
use spark_pilot.Accounts.Writes.{Writes, TokenWrite, ScopeWrite, IdentityWrite}
use spark_pilot.Accounts.Calls.{
  create_tenant-Writes, create_team-Writes, identity-Writes, scope-Writes, unscope-Writes,
}
use spark_pilot.Accounts.InviteCalls.{provision-Writes, regenerate-Writes, accept-Writes}
use spark_pilot.Accounts.CallbackCalls.{auth_callback-Writes}

pub Step-Writes : {d d' : Directory} → Step d d' → Writes d d'
Step-Writes (Step.tenant actor ip id name federation made h) =
    create_tenant-Writes actor ip _ _ id name federation made h
Step-Writes (Step.team actor ip id tenant_id name made h) =
    create_team-Writes actor ip _ _ id tenant_id name made h
Step-Writes (Step.identity actor ip req id made fresh h) =
    identity-Writes actor ip _ _ req id made fresh h
Step-Writes (Step.scope actor ip id team env made h) = scope-Writes actor ip _ _ team env id made h
Step-Writes (Step.unscope actor ip team env h) = unscope-Writes actor ip _ _ team env h
Step-Writes
      (Step.provision actor ip ttl normalize tenant user draw now name federation email made fresh
        h) =
    provision-Writes actor ip ttl draw now _ _ normalize tenant user name federation email made
      fresh h
Step-Writes (Step.regenerate actor ip ttl draw now tenant user made fresh h) =
    regenerate-Writes actor ip ttl draw now _ _ tenant user made fresh h
Step-Writes (Step.accept hash now accepted h) = accept-Writes now _ _ hash accepted h
Step-Writes (Step.callback normalize id now actor ip email payload row fresh h) =
    auth_callback-Writes normalize id now actor ip email payload row _ _ fresh h
Step-Writes (Step.elsewhere {d} environments keeps) = record {
  teams = ([], sym (append-nil d.teams));
  scopes = ScopeWrite.kept;
  identities = IdentityWrite.kept;
  tokens = TokenWrite.kept;
  environments = keeps;
}
