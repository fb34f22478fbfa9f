-- ===== src/System/Ended.antt =====
-- Runs that have ended.
use spark_pilot.Prelude.{ℕ, ◌≡◌, sym, ap, ◌∙◌, true, false, some, List, some-injective}
use spark_pilot.Prelude.Table.{get_row}
use spark_pilot.Prelude.Keys.{get_row-append, get_row-map, get_row-modify_other}
use spark_pilot.Models.{Uuid, Run, is_terminal}
use spark_pilot.Database.{Db, run_key}
use spark_pilot.System.{Reach}
use spark_pilot.System.Writes.{Effect, Step-Writes}

ended_ne_going :
    {old run : Run} → is_terminal old.state ≡ false → is_terminal run.state ≡ true → old ≡ run → ⊥
ended_ne_going h k e = cc

write_keeps_ended :
    (db : Db) (runs' : List Run) (id : Uuid) (run : Run)
    → Effect db runs'
    → get_row run_key id db.runs ≡ some run
    → is_terminal run.state ≡ true
    → get_row run_key id runs' ≡ some run
write_keeps_ended db runs' id run (Effect.nothing same) found ended = rw same found
write_keeps_ended db runs' id run (Effect.added new env fresh stored quota grown) found ended =
    rw grown (get_row-append run_key id db.runs _ run found)
write_keeps_ended db runs' id run (Effect.written j f old there going keeps settles changed) found
      ended =
    rw changed (
      get_row-modify_other run_key j id f db.runs keeps (λ same. ended_ne_going going ended (
        some-injective old run
          (sym there ∙ ap (λ (i : ℕ). get_row run_key i db.runs) same ∙ found)))
      ∙ found)
write_keeps_ended db runs' id run (Effect.touched f keeps settles terminal changed) found ended =
    rw changed (get_row-map run_key id f db.runs run keeps found ∙ ap some (terminal run ended))

-- A run that has ended is never written again: whatever submissions, cancellations, claims and rounds
-- of the workers follow, its row stays as it is.
pub ended_run_is_final :
    (db db' : Db) (id : Uuid) (run : Run)
    → Reach db db'
    → get_row run_key id db.runs ≡ some run
    → is_terminal run.state ≡ true
    → get_row run_key id db'.runs ≡ some run
ended_run_is_final db db' id run Reach.here found ended = found
ended_run_is_final db db' id run (Reach.later {db = mid} reached step) found ended =
    write_keeps_ended mid db'.runs id run (Step-Writes step).1
      (ended_run_is_final db mid id run reached found ended) ended
