-- ===== src/Engine/Messages/Defs.antt =====
-- MessageSubscriptionService: the tables MESSAGE_SUBSCRIPTIONS and MESSAGE_START_SUBSCRIPTIONS and the
-- operations on them.
use bpm_new.Common.{
  ℕ, Bool, false, ◌&&◌, not, Option, none, some, List, [], ◌∷◌, Str, str_eq, ◌==◌, leb,
  if◌then◌else◌, length, keep, find, any,
}

pub record Subscription : Type 0 where
  pub id : ℕ
  pub tenant_id : ℕ
  pub instance_id : ℕ
  pub token_id : ℕ
  pub scope_token_id : Option ℕ
  pub message_name : Str
  pub correlation_key : Str
  pub boundary_node_id : Option Str
  pub created_at : ℕ

pub record StartSubscription : Type 0 where
  pub tenant_id : ℕ
  pub process_id : ℕ
  pub message_name : Str
  pub start_node_id : Str

-- `id` and `now` are what the database gives the new row.
unfoldable pub subscribe :
    ℕ → ℕ → ℕ → ℕ → ℕ → Option ℕ → Str → Str → Option Str → List Subscription → List Subscription
subscribe id now tenant instance_id token scope name key boundary subs =
    record {
      id = id;
      tenant_id = tenant;
      instance_id = instance_id;
      token_id = token;
      scope_token_id = scope;
      message_name = name;
      correlation_key = key;
      boundary_node_id = boundary;
      created_at = now;
    }
    ∷ subs

-- The WHERE clause; `locked` are the rows that other transactions hold, which SKIP LOCKED passes over.
abbrev pub is_match : (ℕ → Bool) → ℕ → Str → Str → Subscription → Bool
is_match locked tenant name key s =
    s.tenant_id == tenant
    && str_eq s.message_name name
    && str_eq s.correlation_key key
    && not (locked s.id)

-- ORDER BY "CREATED_AT" ASC LIMIT 1. Which of two rows of one time is found SQL leaves open; here it is
-- the one that stands first in the table.
abbrev pub older : Subscription → Option Subscription → Subscription
older s none = s
older s (some t) = if leb s.created_at t.created_at then s else t

abbrev pub oldest : List Subscription → Option Subscription
oldest [] = none
oldest (s ∷ ss) = some (older s (oldest ss))

unfoldable pub find_and_lock : (ℕ → Bool) → ℕ → Str → Str → List Subscription → Option Subscription
find_and_lock locked tenant name key subs = oldest (keep (is_match locked tenant name key) subs)

-- The deletions return the count of rows deleted, and here the table.
abbrev pub delete_where : (Subscription → Bool) → List Subscription → ℕ × List Subscription
delete_where p subs = (length (keep p subs), keep (λ s. not (p s)) subs)

unfoldable pub unsubscribe : ℕ → List Subscription → ℕ × List Subscription
unsubscribe token = delete_where (λ s. s.token_id == token)

unfoldable pub cancel_for_instance : ℕ → List Subscription → ℕ × List Subscription
cancel_for_instance instance_id = delete_where (λ s. s.instance_id == instance_id)

-- `= id` is not true of NULL.
abbrev pub is_in_scope : ℕ → Option ℕ → Bool
is_in_scope scope none = false
is_in_scope scope (some k) = k == scope

unfoldable pub cancel_for_scope : ℕ → List Subscription → ℕ × List Subscription
cancel_for_scope scope = delete_where (λ s. is_in_scope scope s.scope_token_id)

abbrev pub same_start : StartSubscription → StartSubscription → Bool
same_start s t =
    t.tenant_id == s.tenant_id
    && str_eq t.message_name s.message_name
    && t.process_id == s.process_id

-- `registerStart`: none where the unique index refuses the row.
unfoldable pub register_start :
    ℕ → ℕ → Str → Str → List StartSubscription → Option (List StartSubscription)
register_start tenant process name node starts =
    let s : StartSubscription = record {
      tenant_id = tenant;
      process_id = process;
      message_name = name;
      start_node_id = node;
    } in
    if any (same_start s) starts then none else some (s ∷ starts)

unfoldable pub find_start : ℕ → Str → List StartSubscription → Option StartSubscription
find_start tenant name = find (λ s. s.tenant_id == tenant && str_eq s.message_name name)

unfoldable pub unregister_starts_for_process :
    ℕ → List StartSubscription → ℕ × List StartSubscription
unregister_starts_for_process process starts = (
  length (keep (λ s. s.process_id == process) starts),
  keep (λ s. not (s.process_id == process)) starts,
)
