-- ===== src/Idempotency.antt =====
-- src/sparkpilot/idempotency.py: `with_idempotency`. The handler that a request runs, the hash of a
-- payload and the JSON text of a body are parameters. The rest of the database is a state that the
-- handler may change; what a raise rolls back is the state and the reservation, so it returns none.
pub mod Replay
mod Tests
use spark_pilot.Prelude.{
  ℕ, String, Bool, true, false, ◌&&◌, Option, none, some, List, [], ◌∷◌, ◌++◌, str_eq,
  if◌then◌else◌,
}

-- `models.IdempotencyRecord`
pub record IdempotencyRecord : Type 0 where
  pub scope : String
  pub key : String
  pub fingerprint : String
  pub response_json : String
  pub status_code : ℕ
  pub resource_type : Option String
  pub resource_id : Option String

-- What a handler returns.
pub record Reply (Body : Type 0) : Type 0 where
  pub status_code : ℕ
  pub body : Body
  pub resource_type : Option String
  pub resource_id : Option String

pub record IdempotentResult (Body : Type 0) : Type 0 where
  pub status_code : ℕ
  pub body : Body
  pub replayed : Bool

-- The 409, an exception of the handler, or a result with the two parts of the database.
pub data Answer (Body S : Type 0) : Type 0 where
  conflict failed : Answer Body S
  replied : IdempotentResult Body → List IdempotencyRecord → S → Answer Body S

abbrev pub is_for : (scope key : String) → IdempotencyRecord → Bool
is_for scope key r = str_eq r.scope scope && str_eq r.key key

-- `_load_idempotency_record`
unfoldable pub load_idempotency_record :
    (scope key : String) → List IdempotencyRecord → Option IdempotencyRecord
load_idempotency_record scope key [] = none
load_idempotency_record scope key (r ∷ records) =
    let rest = load_idempotency_record scope key records in
    if is_for scope key r then some r else rest

-- The reservation, once the handler has returned.
abbrev pub reservation :
    {Body : Type 0} (dumps : Body → String) (scope key fingerprint : String)
    → Reply Body
    → IdempotencyRecord
reservation dumps scope key fingerprint reply = record {
  scope = scope;
  key = key;
  fingerprint = fingerprint;
  response_json = dumps reply.body;
  status_code = reply.status_code;
  resource_type = reply.resource_type;
  resource_id = reply.resource_id;
}

abbrev pub first_result : {Body : Type 0} → Reply Body → IdempotentResult Body
first_result reply = record { status_code = reply.status_code; body = reply.body; replayed = false }

module _ {Payload Body S : Type 0} (hash : Payload → String) (dumps : Body → String)
    (loads : String → Body) where
  -- `_replay_or_conflict`
  unfoldable pub replay_or_conflict :
      IdempotencyRecord → (fingerprint : String) → List IdempotencyRecord → S → Answer Body S
  replay_or_conflict existing fingerprint records s =
      if str_eq existing.fingerprint fingerprint
      then Answer.replied
          (record {
            status_code = existing.status_code;
            body = loads existing.response_json;
            replayed = true;
          })
          records s
      else Answer.conflict

  abbrev pub finish :
      (scope key fingerprint : String)
      → Option (Reply Body × S)
      → List IdempotencyRecord
      → Answer Body S
  finish scope key fingerprint none records = Answer.failed
  finish scope key fingerprint (some (reply, s)) records =
      Answer.replied (first_result reply)
        (records ++ reservation dumps scope key fingerprint reply ∷ []) s

  module _ (scope key : String) (payload : Payload) (execute : S → Option (Reply Body × S)) where
    -- The flush of the reservation fails where the table has its scope and key by then.
    abbrev pub reserve : Option IdempotencyRecord → List IdempotencyRecord → S → Answer Body S
    reserve (some existing) current s = replay_or_conflict existing (hash payload) current s
    reserve none current s = finish scope key (hash payload) (execute s) current

    abbrev pub first_look : Option IdempotencyRecord → List IdempotencyRecord → S → Answer Body S
    first_look (some existing) current s = replay_or_conflict existing (hash payload) current s
    first_look none current s = reserve (load_idempotency_record scope key current) current s

    -- `seen` is the table at the first query, `current` the one at the flush, to which other requests
    -- may have committed.
    unfoldable pub with_idempotency : (seen current : List IdempotencyRecord) → S → Answer Body S
    with_idempotency seen current s = first_look (load_idempotency_record scope key seen) current s
