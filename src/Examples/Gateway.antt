-- ===== src/Examples/Gateway.antt =====
-- A fork of two tokens, and an inclusive gateway of three flows.
use bpm_new.Common.{
  take, map, ◌≤◌, length, ℕ, ◌+◌, true, false, ◌≡◌, refl, List, [], ◌∷◌, Str, codes, none, some,
  All, arith, str_eq, if◌then◌else◌,
}
use bpm_new.Data.Json.{Fields, end}
use bpm_new.Engine.Canvas.Defs.{Edge}
use bpm_new.Engine.Canvas.Condition.{Run, value, threw}
use bpm_new.Engine.Tokens.Defs.{Token, active, waiting, join, Db, ok}
use bpm_new.Engine.Gateway.Defs.{
  is_parked, Arrival, parks, fires, arrive_at_join, Advanced, split, select_inclusive,
}
use bpm_new.Engine.Gateway.Join.{IsRow, IsBarrier, count_parked, arrive_at_join-IsBarrier}
use bpm_new.Engine.Gateway.Nested.{nested_join_waits}
use bpm_new.Engine.Gateway.Split.{IsChild, IsOutcome, target_of, kin, split-siblings}
use bpm_new.Engine.Gateway.Selection.{IsSelection, select_inclusive-IsSelection}

-- A token of fork 50 of instance 9, at version 0.
abbrev branch : ℕ → Token
branch id = record {
  id = id;
  tenant_id = 1;
  instance_id = 9;
  current_node_id = codes "work";
  status = active;
  waiting_for = none;
  assigned_to = none;
  candidate_role = none;
  error_message = none;
  parent_token_id = some 1;
  fork_id = some 50;
  fork_size = some 2;
  scope_token_id = none;
  version = 0;
}

abbrev parked_branch : Token
parked_branch = record (branch 11) {
  status = waiting;
  waiting_for = some join;
  current_node_id = codes "inner";
}

abbrev database : Db
database = record {
  tokens = parked_branch ∷ branch 12 ∷ [];
  instances = [];
  events = [];
  outbox = [];
}

second-IsRow : IsRow 12 (branch 12) database.tokens
second-IsRow = (parked_branch ∷ [], [], refl, (refl, tt), refl, tt)

arrive_at_join-IsBarrier_example :
    (a : Arrival) × (arrive_at_join 9 50 2 (codes "inner") 12 0 database ≡ ok a)
    × IsBarrier 9 50 (codes "inner") 12 2 (count_parked 9 50 (codes "inner") database.tokens) a
unfolding is_parked
arrive_at_join-IsBarrier_example =
    arrive_at_join-IsBarrier 9 50 (codes "inner") 12 2 (branch 12) database second-IsRow refl refl
      refl

nested_join_waits_example :
    (db' db'' : Db) × (r : Token) × (arrive_at_join 9 50 2 (codes "inner") 12 0 database
      ≡ ok (fires db'))
    × IsRow 12 r db'.tokens
    × (r.fork_id ≡ some 50)
    × (arrive_at_join 9 50 2 (codes "outer") 12 r.version db' ≡ ok (parks db''))
unfolding is_parked
nested_join_waits_example =
    nested_join_waits 9 50 2 12 (codes "inner") (codes "outer") (branch 12) database second-IsRow
      refl refl refl (refl, (refl, tt)) (omega arith) refl

-- A flow with a condition.
abbrev flow : Str → Str → Edge
flow id condition = record {
  id = id;
  source = codes "choice";
  target = id;
  flow_data = some record { condition = some condition; is_default = false; flow_type = none };
}

abbrev flows : List Edge
flows =
    flow (codes "left") (codes "yes")
    ∷ flow (codes "right") (codes "no")
    ∷ flow (codes "rest") []
    ∷ []

-- The second child fails.
abbrev stops_right : Token → Db → Advanced × Db
stops_right t db = (
  record {
    has_failed = str_eq t.current_node_id (codes "right");
    hops = 1;
    error_message = some (codes "down");
  },
  db,
)

split-siblings_example :
    (a : Advanced) × (db' : Db) × (calls : List (Token × Db)) × (split
        (λ t d. ok (stops_right t d))
        (branch 12)
        60
        (λ i. i + 100)
        (codes "choice")
        4
        flows
        database
      ≡ ok (a, db'))
    × All (IsChild (branch 12) 3) (kin 60 db')
    × (length (kin 60 db') ≡ length calls)
    × IsOutcome stops_right a.has_failed calls
    × (map target_of calls ≡ take (length calls) (map (λ (e : Edge). e.target) flows))
    × (a.has_failed ≡ false → length calls ≡ 3)
    × (a.has_failed ≡ true → (1 ≤ length calls) × (length calls ≤ 3))
split-siblings_example =
    split-siblings (branch 12) 60 (λ i. i + 100) stops_right (codes "choice") 4 flows database
      second-IsRow refl (λ t d. refl)

-- Running a condition that is the word yes or no.
abbrev yes_no : Str → Fields ℕ → Run
yes_no expr variables =
    if str_eq expr (codes "yes")
    then value true
    else if str_eq expr (codes "no")
    then value false
    else threw []

select_inclusive-IsSelection_example :
    IsSelection yes_no end
      (some (codes "rest"))
      flows
      (select_inclusive yes_no end (some (codes "rest")) flows)
select_inclusive-IsSelection_example =
    select_inclusive-IsSelection yes_no end (some (codes "rest")) flows
