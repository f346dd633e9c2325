-- ===== src/Examples/Tokens.antt =====
-- Tokens, claims and instances in a small database.
use bpm_new.Common.{true, false, ◌≡◌, refl, List, [], ◌∷◌, Str, codes, none, some}
use bpm_new.Engine.Tokens.Defs.{
  Token, waiting, user_task, Instance, running, suspended, Db, Reason, forbidden, conflict,
  bad_request, concurrent_update, instance_is_suspended, ok, err, find_token, patched, task_claimed,
  update_instance_with_lock, update_token_with_lock,
}
use bpm_new.Engine.Tasks.Defs.{
  User, claimed, claim_task, suspend_instance, assign_to, awaits_user, is_assigned, may_perform,
  finds_suspended, instance_by_id,
}
use bpm_new.Engine.Tasks.Race.{claim_task-authorized, claim_task_race}
use bpm_new.Engine.Tasks.Later.{at_once}
use bpm_new.Engine.Tasks.Suspension.{
  IsInstance, with_status, reached, suspend_instance-blocks_claims,
}

-- A user task for the role "clerk".
abbrev task : Token
task = record {
  id = 4;
  tenant_id = 1;
  instance_id = 9;
  current_node_id = codes "review";
  status = waiting;
  waiting_for = some user_task;
  assigned_to = none;
  candidate_role = some (codes "clerk");
  error_message = none;
  parent_token_id = none;
  fork_id = none;
  fork_size = none;
  scope_token_id = none;
  version = 2;
}

abbrev process : Instance
process = record { id = 9; tenant_id = 1; status = running; version = 5 }

abbrev database : Db
database = record { tokens = task ∷ []; instances = process ∷ []; events = []; outbox = [] }

abbrev clerk : List Str
clerk = codes "clerk" ∷ []

abbrev same : Db → Db
same d = d

-- The database after user 7 has claimed the task.
abbrev taken : Db
taken = record database {
  tokens = patched (assign_to (some 7)) 2 task ∷ [];
  events = task_claimed 4 7 (some (codes "clerk")) ∷ [];
}

granted : claim_task same 4 1 7 clerk database ≡ ok (claimed, taken)
unfolding claim_task update_token_with_lock
granted = refl

claim_task_race_example :
    (reason : Reason) × (claim_task (λ _. taken) 4 1 8 clerk database ≡ err (forbidden reason))
claim_task_race_example = claim_task_race 4 1 7 8 clerk clerk database granted

claim_task-authorized_example :
    (row : Token) × (find_token 4 1 database.tokens ≡ some row)
    × (is_assigned row.assigned_to ≡ false)
    × (may_perform row.candidate_role clerk ≡ true)
    × (awaits_user row ≡ true)
    × (finds_suspended (instance_by_id row.instance_id database.instances) ≡ false)
    × ((patch : Token → Token)
        → update_token_with_lock row.id row.version patch taken ≡ err (conflict concurrent_update))
claim_task-authorized_example = claim_task-authorized same 4 1 7 clerk database granted

locked : (d : Db) × (update_token_with_lock 4 2 (assign_to (some 7)) database ≡ ok d)
unfolding update_token_with_lock
locked = (_, refl)

abbrev ann : User
ann = record { id = 8; tenant_id = 1; is_active = true }

suspend_instance-blocks_claims_example :
    (db' : Db) × (suspend_instance same 9 1 3 database ≡ ok db')
    × IsInstance 9 1 (with_status suspended process) db'
    × (db'.tokens ≡ database.tokens)
    × (claim_task same 4 1 7 clerk (reached database (suspend_instance same 9 1 3 database))
        ≡ err (bad_request instance_is_suspended))
unfolding suspend_instance update_instance_with_lock
suspend_instance-blocks_claims_example =
    suspend_instance-blocks_claims 9 1 3 process database
      (reached database (suspend_instance same 9 1 3 database)) same 4 7 clerk task (refl, refl)
      refl at_once refl refl
