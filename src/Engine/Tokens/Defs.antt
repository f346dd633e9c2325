-- ===== src/Engine/Tokens/Defs.antt =====
-- Rows, transactions, updateTokenWithLock and updateInstanceWithLock. Ids of rows are numbers, ids of
-- canvas nodes are strings. Of a token `dueAt` and `priority` are left out, of an audit row the
-- correlation id and `actingBy`.
use bpm_new.Common.{
  ℕ, ◌+◌, Bool, true, false, ◌&&◌, ◌||◌, Option, none, some, List, [], ◌∷◌, ◌++◌, Str, ◌==◌,
  if◌then◌else◌, keep, find, any, length,
}

pub data TokenStatus : Type 0 where
  active waiting completed failed : TokenStatus

pub data WaitingFor : Type 0 where
  user_task join : WaitingFor
  other : Str → WaitingFor

pub record Token : Type 0 where
  pub id : ℕ
  pub tenant_id : ℕ
  pub instance_id : ℕ
  pub current_node_id : Str
  pub status : TokenStatus
  pub waiting_for : Option WaitingFor
  pub assigned_to : Option ℕ
  pub candidate_role : Option Str
  pub error_message : Option Str
  pub parent_token_id : Option ℕ
  pub fork_id : Option ℕ
  pub fork_size : Option ℕ
  pub scope_token_id : Option ℕ
  pub version : ℕ

pub data InstanceStatus : Type 0 where
  running completed failed cancelled suspended : InstanceStatus

pub record Instance : Type 0 where
  pub id : ℕ
  pub tenant_id : ℕ
  pub status : InstanceStatus
  pub version : ℕ

-- The rows of INSTANCE_EVENTS that the modelled operations write, and of the outbox.
pub data Event : Type 0 where
  task_claimed task_unclaimed : ℕ → ℕ → Option Str → Event
  task_reassigned : ℕ → ℕ → Option ℕ → ℕ → Event
  instance_suspended instance_resumed : ℕ → ℕ → Event

pub record Db : Type 0 where
  pub tokens : List Token
  pub instances : List Instance
  pub events : List Event
  pub outbox : List Event

-- The reason that the message of an exception states.
pub data Reason : Type 0 where
  task_not_found instance_not_found target_not_found : Reason
  instance_is_suspended not_waiting not_role_assigned target_inactive target_lacks_role : Reason
  already_claimed role_not_held assignment_changed concurrent_update : Reason
  cannot_suspend cannot_resume : InstanceStatus → Reason

pub data Exception : Type 0 where
  not_found bad_request forbidden conflict : Reason → Exception

pub data Result {ℓ} (A : Type ℓ) : Type ℓ where
  ok : A → Result A
  err : Exception → Result A

infixl 5 ◌>>=◌
abbrev pub ◌>>=◌ {ℓ κ} : {A : Type ℓ} {B : Type κ} → Result A → (A → Result B) → Result B
err thrown >>= next = err thrown
ok value >>= next = next value

-- `if (test) throw …`
abbrev pub throw_if : Bool → Exception → Result (Unit {0})
throw_if false exception = ok tt
throw_if true exception = err exception

infixl 5 ◌>>◌
abbrev pub ◌>>◌ {ℓ} : {B : Type ℓ} → Result (Unit {0}) → Result B → Result B
guard >> next = guard >>= λ _. next

abbrev pub or_throw {ℓ} : {A : Type ℓ} → Option A → Exception → Result A
or_throw none e = err e
or_throw (some a) e = ok a

abbrev pub is_active : TokenStatus → Bool
is_active active = true
is_active _ = false

abbrev pub is_waiting : TokenStatus → Bool
is_waiting waiting = true
is_waiting _ = false

abbrev pub is_user_task : Option WaitingFor → Bool
is_user_task (some user_task) = true
is_user_task _ = false

abbrev pub is_suspended : InstanceStatus → Bool
is_suspended suspended = true
is_suspended _ = false

abbrev pub is_running : InstanceStatus → Bool
is_running running = true
is_running _ = false

abbrev pub at_version : ℕ → ℕ → Token → Bool
at_version id version t = t.id == id && t.version == version

abbrev pub update_tokens : (Token → Bool) → (Token → Token) → List Token → List Token
update_tokens p f [] = []
update_tokens p f (t ∷ ts) = (if p t then f t else t) ∷ update_tokens p f ts

-- SET {...patch, version: next}
abbrev pub patched : (Token → Token) → ℕ → Token → Token
patched patch version t = record (patch t) { version = version + 1 }

-- `updateTokenWithLock`: the database after it, or the conflict if no row is at that version. A patch
-- changes neither the id nor the version.
unfoldable pub update_token_with_lock : ℕ → ℕ → (Token → Token) → Db → Result Db
update_token_with_lock id version patch db =
    if any (at_version id version) db.tokens
    then ok record db {
      tokens = update_tokens (at_version id version) (patched patch version) db.tokens;
    }
    else err (conflict concurrent_update)

abbrev pub instance_at : ℕ → ℕ → Instance → Bool
instance_at id version i = i.id == id && i.version == version

abbrev pub update_instances :
    (Instance → Bool) → (Instance → Instance) → List Instance → List Instance
update_instances p f [] = []
update_instances p f (i ∷ is') = (if p i then f i else i) ∷ update_instances p f is'

-- `updateInstanceWithLock` with a patch of the status.
unfoldable pub update_instance_with_lock : ℕ → ℕ → InstanceStatus → Db → Result Db
update_instance_with_lock id version status db =
    if any (instance_at id version) db.instances
    then ok record db {
      instances =
          update_instances (instance_at id version)
            (λ i. record i { status = status; version = version + 1 }) db.instances;
    }
    else err (conflict concurrent_update)

abbrev pub record_event : Event → Db → Db
record_event e db = record db { events = db.events ++ e ∷ [] }

abbrev pub emit_outbox : Event → Db → Db
emit_outbox e db = record db { outbox = db.outbox ++ e ∷ [] }

-- WHERE id = … AND tenant = … LIMIT 1
abbrev pub find_token : ℕ → ℕ → List Token → Option Token
find_token id tenant = find (λ t. t.id == id && t.tenant_id == tenant)

abbrev pub find_instance : ℕ → ℕ → List Instance → Option Instance
find_instance id tenant = find (λ i. i.id == id && i.tenant_id == tenant)

-- Active or waiting.
abbrev pub is_live : TokenStatus → Bool
is_live s = is_active s || is_waiting s

-- `countLiveTokens` and `countLiveScopeTokens`
unfoldable pub count_live_tokens : ℕ → Db → ℕ
count_live_tokens instance_id db =
    length (keep (λ t. t.instance_id == instance_id && is_live t.status) db.tokens)

abbrev pub has_scope : ℕ → Option ℕ → Bool
has_scope scope none = false
has_scope scope (some s) = s == scope

unfoldable pub count_live_scope_tokens : ℕ → Db → ℕ
count_live_scope_tokens scope db =
    length (keep (λ t. has_scope scope t.scope_token_id && is_live t.status) db.tokens)
