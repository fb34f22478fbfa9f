-- ===== src/Idempotency/Replay.antt =====
-- A request runs its handler once for a scope and a key.
use spark_pilot.Prelude.{
  ℕ, ◌≡◌, refl, sym, subst, String, true, false, Option, none, some, List, [], ◌∷◌, ◌++◌, str_eq,
  eq_iff, Option-cases, inl, inr, if◌then◌else◌, arith,
}
use spark_pilot.Idempotency.{
  IdempotencyRecord, Reply, IdempotentResult, Answer, load_idempotency_record, replay_or_conflict,
  reservation, first_result, finish, with_idempotency,
}

load-append_own :
    (scope key : String) (records : List IdempotencyRecord) (r : IdempotencyRecord)
    → load_idempotency_record scope key records ≡ none
    → r.scope ≡ scope
    → r.key ≡ key
    → load_idempotency_record scope key (records ++ r ∷ []) ≡ some r
unfolding load_idempotency_record
load-append_own scope key [] r absent s k = ground (arith, eq_iff r.scope scope, eq_iff r.key key)
load-append_own scope key (x ∷ records) r absent s k =
    ground (arith, load-append_own scope key records r)

module _ {Payload Body S : Type 0} (hash : Payload → String) (dumps : Body → String)
    (loads : String → Body) (scope key : String) where
  -- What a request under a scope and key in use is answered, by the one that used them.
  abbrev pub repeated :
      (fingerprint fingerprint' : String) → ℕ → Body → List IdempotencyRecord → S → Answer Body S
  repeated fingerprint fingerprint' status body records s =
      if str_eq fingerprint fingerprint'
      then Answer.replied
          (record { status_code = status; body = loads (dumps body); replayed = true }) records s
      else Answer.conflict

  replied-injective :
      {result result' : IdempotentResult Body} {records records' : List IdempotencyRecord}
      {s s' : S}
      → Answer.replied result records s ≡ Answer.replied result' records' s'
      → (result ≡ result') × (records ≡ records')
  replied-injective h = (cc, cc)

  -- Such an answer, where the first request's reservation is in the table.
  stored-repeated :
      (payload later : Payload) (other : S → Option (Reply Body × S)) (reply : Reply Body)
      (records : List IdempotencyRecord) (t : S)
      → load_idempotency_record scope key records
        ≡ some (reservation dumps scope key (hash payload) reply)
      → with_idempotency hash dumps loads scope key later other records records t
        ≡ repeated (hash payload) (hash later) reply.status_code reply.body records t
  unfolding with_idempotency replay_or_conflict
  stored-repeated payload later other reply records t stored = rw stored refl

  replay-replayed :
      (existing : IdempotencyRecord) (fingerprint : String)
      (current records : List IdempotencyRecord) (s s' : S) (result : IdempotentResult Body)
      → replay_or_conflict hash dumps loads existing fingerprint current s
        ≡ Answer.replied result records s'
      → result.replayed ≡ false
      → ⊥
  unfolding replay_or_conflict
  replay-replayed existing fingerprint current records s s' result h first = ground arith

  finish-stored :
      (payload : Payload) (current records : List IdempotencyRecord) (s' : S)
      (result : IdempotentResult Body) (o : Option (Reply Body × S))
      → load_idempotency_record scope key current ≡ none
      → finish hash dumps loads scope key (hash payload) o current
        ≡ Answer.replied result records s'
      → (reply : Reply Body) × (result ≡ first_result reply)
        × (load_idempotency_record scope key records
            ≡ some (reservation dumps scope key (hash payload) reply))
  finish-stored payload current records s' result none absent done = absurd (cc)
  finish-stored payload current records s' result (some (reply, s1)) absent done =
      let (same, grown) = replied-injective done in
      (
        reply,
        sym same,
        subst
            (λ (rs : List IdempotencyRecord).
              load_idempotency_record scope key rs
              ≡ some (reservation dumps scope key (hash payload) reply))
            grown
            (load-append_own scope key current (reservation dumps scope key (hash payload) reply)
              absent refl refl),
      )

  -- Where a request has run its handler and returned, any later request of its scope and key is
  -- answered without running a handler and without a change: with the first one's status and its
  -- body, through its JSON text and back, if the payloads have the same hash, and with a conflict
  -- if not.
  pub request_runs_once :
      (payload later : Payload) (execute other : S → Option (Reply Body × S))
      (seen current records : List IdempotencyRecord) (s s' t : S) (result : IdempotentResult Body)
      → with_idempotency hash dumps loads scope key payload execute seen current s
        ≡ Answer.replied result records s'
      → result.replayed ≡ false
      → with_idempotency hash dumps loads scope key later other records records t
        ≡ repeated (hash payload) (hash later) result.status_code result.body records t
  unfolding with_idempotency replay_or_conflict
  request_runs_once payload later execute other seen current records s s' t result done first =
      elim (Option-cases (load_idempotency_record scope key seen)) [
        | inr (existing, present) ↦ absurd (
            replay-replayed existing (hash payload) current records s s' result (rw present at done)
              first)
        | inl unseen ↦ elim (Option-cases (load_idempotency_record scope key current)) [
          | inr (existing, present) ↦ absurd (
              replay-replayed existing (hash payload) current records s s' result
                (rw (unseen, present) at done) first)
          | inl absent ↦
              let (reply, same, stored) =
                finish-stored payload current records s' result (execute s) absent
                  (rw (unseen, absent) at done) in
              rw same (stored-repeated payload later other reply records t stored)
        ]
      ]

  -- Where another request has taken the scope and key by the time of the reservation, the answer is
  -- the same whatever the handler would do: it is not run.
  pub lost_race_runs_nothing :
      (payload : Payload) (execute other : S → Option (Reply Body × S))
      (seen current : List IdempotencyRecord) (s : S) (taken : IdempotencyRecord)
      → load_idempotency_record scope key current ≡ some taken
      → with_idempotency hash dumps loads scope key payload execute seen current s
        ≡ with_idempotency hash dumps loads scope key payload other seen current s
  unfolding with_idempotency
  lost_race_runs_nothing payload execute other seen current s taken found =
      elim (Option-cases (load_idempotency_record scope key seen)) [
        | inl absent ↦ rw absent (rw found refl)
        | inr (existing, present) ↦ rw present refl
      ]
