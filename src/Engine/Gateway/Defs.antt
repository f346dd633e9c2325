-- ===== src/Engine/Gateway/Defs.antt =====
-- A token at a parallel or inclusive gateway. The instance row is locked from the arrival at a join to
-- the end of the transaction, so arrivals at one instance follow one another. Audit rows are left out.
use bpm_new.Common.{
  ℕ, suc, ◌+◌, Bool, false, ◌&&◌, not, Option, none, some, List, [], ◌∷◌, ◌++◌, Str, str_eq, ◌==◌,
  ltb, if◌then◌else◌, keep, find, length,
}
use bpm_new.Data.Json.{Fields}
use bpm_new.Engine.Canvas.Defs.{Edge}
use bpm_new.Engine.Canvas.Condition.{ConditionError, Run, result, rejected, eval_condition}
use bpm_new.Engine.Canvas.Flow.{usable_condition}
use bpm_new.Engine.Tokens.Defs.{
  Token, active, waiting, completed, join, Db, Result, ok, err, ◌>>=◌, is_waiting, update_tokens,
  update_token_with_lock,
}

abbrev pub is_fork : ℕ → Option ℕ → Bool
is_fork f none = false
is_fork f (some g) = g == f

-- The siblings of one fork that are parked at a node.
unfoldable pub is_parked : ℕ → ℕ → Str → Token → Bool
is_parked instance_id fork node t =
    t.instance_id == instance_id
    && is_fork fork t.fork_id
    && str_eq t.current_node_id node
    && is_waiting t.status

unfoldable pub parked : ℕ → ℕ → Str → Db → List Token
parked instance_id fork node db = keep (is_parked instance_id fork node) db.tokens

abbrev pub park_at : Str → Token → Token
park_at node t = record t { status = waiting; waiting_for = some join; current_node_id = node }

abbrev pub reactivate : Token → Token
reactivate t = record t { status = active; waiting_for = none }

-- The bulk update of the siblings leaves their version as it is.
abbrev pub complete : Token → Token
complete t = record t { status = completed }

unfoldable pub merge_siblings : ℕ → ℕ → Str → ℕ → Db → Db
merge_siblings instance_id fork node self db = record db {
  tokens =
      update_tokens (λ t. is_parked instance_id fork node t && not (t.id == self)) complete
        db.tokens;
}

-- The token waits at the join, or goes on.
pub data Arrival : Type 0 where
  parks fires : Db → Arrival

-- The arrival of a token of a fork at a gateway with several incoming flows.
unfoldable pub arrive_at_join : ℕ → ℕ → ℕ → Str → ℕ → ℕ → Db → Result Arrival
arrive_at_join instance_id fork fork_size node token version db = do
  db' ← update_token_with_lock token version (park_at node) db
  if ltb (length (parked instance_id fork node db')) fork_size then ok (parks db') else do
    db'' ←
        update_token_with_lock token (version + 1) reactivate
          (merge_siblings instance_id fork node token db')
    ok (fires db'')

-- A token that comes without a fork to a gateway with several incoming flows, or to one with a single
-- flow, passes through; `incoming` is the number of these flows.
pub data Reached : Type 0 where
  passes_through : Reached
  arrived : Arrival → Reached

-- `loadTokenForJoin`
abbrev pub load_token_for_join : ℕ → Db → Option ℕ × Option ℕ
load_token_for_join token db = elim (find (λ t. t.id == token) db.tokens) [
  | none ↦ (none, none)
  | some t ↦ (t.fork_id, t.fork_size)
]

abbrev arrive_with : ℕ → Option ℕ → Option ℕ → Str → ℕ → ℕ → Db → Result Reached
arrive_with instance_id (some fork) (some size) node token version db =
    arrive_at_join instance_id fork size node token version db >>= λ a. ok (arrived a)
arrive_with instance_id (some fork) none node token version db = ok passes_through
arrive_with instance_id none size node token version db = ok passes_through

unfoldable pub reach_gateway : ℕ → ℕ → Str → ℕ → ℕ → Db → Result Reached
reach_gateway incoming instance_id node token version db =
    let (fork, size) = load_token_for_join token db in
    if ltb 1 incoming
    then arrive_with instance_id fork size node token version db
    else ok passes_through

-- Which flows of an inclusive gateway fire.
pub data Selection : Type 0 where
  fire : List Edge → Selection
  condition_failed : Edge → ConditionError → Selection
  default_missing nothing_matched : Selection

abbrev pub is_edge : Option Str → Edge → Bool
is_edge none e = false
is_edge (some d) e = str_eq e.id d

abbrev pub add_matched : Edge → Selection → Selection
add_matched e (fire es) = fire (e ∷ es)
add_matched e s = s

-- The empty id counts as none.
abbrev pub default_selection : Option Str → List Edge → Selection
default_selection none out = nothing_matched
default_selection (some []) out = nothing_matched
default_selection (some (c ∷ d)) out = elim (find (is_edge (some (c ∷ d))) out) [
  | none ↦ default_missing
  | some e ↦ fire (e ∷ [])
]

abbrev pub or_default : Option Str → List Edge → Selection → Selection
or_default d out (fire []) = default_selection d out
or_default d out s = s

module _ {N : Type 0} (run : Str → Fields N → Run) (variables : Fields N) where
  -- The loop over the outgoing flows; `default_flow_id` is the id that the node names.
  unfoldable pub match_flows : Option Str → List Edge → Selection
  unfolding usable_condition eval_condition
  match_flows default_flow_id [] = fire []
  match_flows default_flow_id (e ∷ es) =
      let rest = match_flows default_flow_id es in
      if is_edge default_flow_id e then rest else elim (usable_condition e) [
        | none ↦ rest
        | some c ↦ elim (eval_condition run c variables) [
          | result b ↦ if b then add_matched e rest else rest
          | rejected reason ↦ condition_failed e reason
        ]
      ]

  unfoldable pub select_inclusive : Option Str → List Edge → Selection
  unfolding match_flows
  select_inclusive default_flow_id out =
      or_default default_flow_id out (match_flows default_flow_id out)

-- What the advance of a token comes to.
pub record Advanced : Type 0 where
  pub has_failed : Bool
  pub hops : ℕ
  pub error_message : Option Str

-- The child of a split for a flow that fires, at its target, with the fork and its size, and in the
-- scope of the parent. The database gives its id.
unfoldable pub child : Token → ℕ → ℕ → ℕ → Edge → Token
child parent fork fork_size id e = record {
  id = id;
  tenant_id = parent.tenant_id;
  instance_id = parent.instance_id;
  current_node_id = e.target;
  status = active;
  waiting_for = none;
  assigned_to = none;
  candidate_role = none;
  error_message = none;
  parent_token_id = some parent.id;
  fork_id = some fork;
  fork_size = some fork_size;
  scope_token_id = parent.scope_token_id;
  version = 0;
}

abbrev pub insert_token : Token → Db → Db
insert_token t db = record db { tokens = db.tokens ++ t ∷ [] }

abbrev pub complete_at : Str → Token → Token
complete_at node t = record t { status = completed; current_node_id = node }

-- `advance` is advanceToken on a child: it goes on through the process before the next child is
-- inserted, and may end the transaction by an exception.
module _ (advance : Token → Db → Result (Advanced × Db)) where
  -- A failed child ends the loop, and the others are not inserted.
  abbrev after_child :
      ℕ → Result (Advanced × Db) → (ℕ → Db → Result (Advanced × Db)) → Result (Advanced × Db)
  after_child hops (err thrown) rest = err thrown
  after_child hops (ok (a, db)) rest =
      if a.has_failed then ok (record a { hops = hops + a.hops }, db) else rest (hops + a.hops) db

  unfoldable pub fire_each :
      Token → ℕ → ℕ → (ℕ → ℕ) → ℕ → ℕ → List Edge → Db → Result (Advanced × Db)
  unfolding child
  fire_each parent fork fork_size ids i hops [] db =
      ok (record { has_failed = false; hops = hops; error_message = none }, db)
  fire_each parent fork fork_size ids i hops (e ∷ es) db =
      let c = child parent fork fork_size (ids i) e in
      after_child hops (advance c (insert_token c db))
        (λ hops' db'. fire_each parent fork fork_size ids (suc i) hops' es db')

  -- A split into several flows: the parent is completed, then a child for each flow is inserted and
  -- advanced. `parent` is the row of the token, `hops` what it has made so far.
  unfoldable pub split : Token → ℕ → (ℕ → ℕ) → Str → ℕ → List Edge → Db → Result (Advanced × Db)
  unfolding fire_each
  split parent fork ids node hops firing db = do
    db' ← update_token_with_lock parent.id parent.version (complete_at node) db
    fire_each parent fork (length firing) ids 0 hops firing db'
