-- ===== src/Idempotency/Tests.antt =====
-- A request and its repetition, on a state that counts the runs of a handler.
use spark_pilot.Prelude.{ℕ, ◌+◌, ◌≡◌, refl, String, Option, none, some, List, [], ◌∷◌}
use spark_pilot.Idempotency.{
  IdempotencyRecord, Reply, Answer, load_idempotency_record, reservation, first_result,
  replay_or_conflict, with_idempotency,
}
use spark_pilot.Idempotency.Replay.{repeated, request_runs_once}

abbrev same_text : String → String
same_text s = s

abbrev reply : Reply String
reply = record {
  status_code = 201;
  body = "run 8";
  resource_type = some "run";
  resource_id = some "8";
}

abbrev count_up : ℕ → Option (Reply String × ℕ)
count_up n = some (reply, n + 1)

abbrev stored : IdempotencyRecord
stored = reservation same_text "POST /v1/jobs/5/runs" "first" "hash" reply

unfoldable request : String → String → List IdempotencyRecord → ℕ → Answer String ℕ
request key payload records n =
    with_idempotency same_text same_text same_text "POST /v1/jobs/5/runs" key payload count_up
      records records n

request_first : request "first" "hash" [] 0 ≡ Answer.replied (first_result reply) (stored ∷ []) 1
unfolding request with_idempotency load_idempotency_record
request_first = refl

request_other_body : request "first" "other" (stored ∷ []) 1 ≡ Answer.conflict
unfolding request with_idempotency load_idempotency_record replay_or_conflict
request_other_body = refl

request_runs_once_example :
    with_idempotency same_text same_text same_text "POST /v1/jobs/5/runs" "first" "hash" count_up
      (stored ∷ [])
      (stored ∷ [])
      7
    ≡ repeated same_text same_text same_text "POST /v1/jobs/5/runs" "first" "hash" "hash" 201
        "run 8"
        (stored ∷ [])
        7
unfolding request
request_runs_once_example =
    request_runs_once same_text same_text same_text "POST /v1/jobs/5/runs" "first" "hash" "hash"
      count_up count_up [] [] (stored ∷ []) 0 1 7 (first_result reply) request_first refl

abbrev no_answer : ℕ → Option (Reply String × ℕ)
no_answer n = none
