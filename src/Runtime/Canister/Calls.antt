-- ===== src/Runtime/Canister/Calls.antt =====
-- The system calls of canister.rs that build a call to another canister.
use ic_kit.Base.{ℕ, ◌-◌, none, some, [], ◌∷◌, ◌++◌, ltb, if◌then◌else◌}
use ic_kit.Certified.HashTree.{Bytes, as_bytes}
use ic_kit.Runtime.Types.{Host}
use ic_kit.Runtime.Canister.Task.{nothing, number}
use ic_kit.Runtime.Canister.State.{
  Canister, PendingCall, Callback, add128, extend, amount128, max_cycles_per_response,
  discard_pending_call,
}
use ic_kit.Runtime.Canister.Guard.{Outcome, returned, failed, guarded, with_request, may_call}

-- Once the earlier call is discarded.
unfoldable pub start_call : ⦃host : Host⦄ → Bytes → Bytes → Callback → Callback → Canister → Outcome
start_call ⦃host⦄ callee name on_reply on_reject c =
    if ltb c.env.balance max_cycles_per_response
    then failed (as_bytes "Insufficient cycles balance to process canister response.") c
    else with_request c λ id. returned nothing (record c {
      env = record (c.env) { balance = c.env.balance - max_cycles_per_response };
      pending_call = some (record {
        callee = host.from_slice callee;
        method = host.from_utf8_lossy name;
        callbacks = record {
          message_id = id;
          reply = on_reply;
          reject = on_reject;
          cleanup = none;
        };
        payment = 0;
        arg = [];
      });
    })

unfoldable pub call_new : ⦃host : Host⦄ → Bytes → Bytes → ℕ → ℕ → ℕ → ℕ → Canister → Outcome
unfolding may_call discard_pending_call start_call
call_new callee name reply_fun reply_env reject_fun reject_env c =
    guarded may_call (as_bytes "call_new") c (
      start_call callee name (reply_fun, reply_env) (reject_fun, reject_env)
        (discard_pending_call c))

-- The check that a call is under construction, and the change to it.
abbrev pub with_pending : Bytes → Canister → (PendingCall → Outcome) → Outcome
with_pending name c body = elim c.pending_call [
  | none ↦ failed (name ++ as_bytes " cannot be called when there is no pending call.") c
  | some p ↦ body p
]

unfoldable pub call_on_cleanup : ℕ → ℕ → Canister → Outcome
call_on_cleanup fun env c = with_pending (as_bytes "call_on_cleanup") c λ p.
    elim p.callbacks.cleanup [
      | some _ ↦ failed (as_bytes "call_on_cleanup cannot be invoked more than once.") c
      | none ↦ returned nothing (record c {
        pending_call =
            some (record p { callbacks = record (p.callbacks) { cleanup = some (fun, env) } });
      })
    ]

unfoldable pub call_data_append : Bytes → Canister → Outcome
call_data_append bytes c =
    with_pending (as_bytes "call_data_append") c
      λ p. returned nothing (record c { pending_call = some (record p { arg = p.arg ++ bytes }) })

-- What both calls that add cycles do with the amount.
unfoldable pub add_cycles : ℕ → PendingCall → Canister → Outcome
unfolding add128
add_cycles amount p c =
    if ltb c.env.balance amount
    then failed (as_bytes "Insufficient cycles balance.") c
    else returned nothing (record c {
      env = record (c.env) { balance = c.env.balance - amount };
      pending_call = some (record p { payment = add128 p.payment amount });
    })

unfoldable pub call_cycles_add : ℕ → Canister → Outcome
unfolding add_cycles extend
call_cycles_add amount c =
    with_pending (as_bytes "call_cycles_add") c λ p. add_cycles (extend amount) p c

unfoldable pub call_cycles_add128 : ℕ → ℕ → Canister → Outcome
unfolding add_cycles amount128
call_cycles_add128 amount_high amount_low c =
    with_pending (as_bytes "call_cycles_add128") c
      λ p. add_cycles (amount128 amount_high amount_low) p c

-- The message of its error names another call.
unfoldable pub call_perform : Canister → Outcome
call_perform c =
    with_pending (as_bytes "call_cycles_add128") c λ p.
      returned (number 0) (record c { call_queue = c.call_queue ++ p ∷ []; pending_call = none })
