-- ===== src/Runtime/Canister/Cycles.antt =====
-- The system calls of canister.rs on cycles.
use ic_kit.Base.{ℕ, ◌-◌, ◌%◌, ◌^◌, ltb, leb, if◌then◌else◌}
use ic_kit.Certified.HashTree.{as_bytes}
use ic_kit.Dict.{put}
use ic_kit.Runtime.Canister.Task.{number}
use ic_kit.Runtime.Canister.State.{Canister, add128, extend, amount128}
use ic_kit.Runtime.Canister.Guard.{
  Outcome, returned, failed, guarded, with_request, in_callback, has_cycles, copy_to_canister,
  to_le_bytes,
}

unfoldable pub msg_cycles_available : Canister → Outcome
unfolding has_cycles
msg_cycles_available c = guarded has_cycles (as_bytes "msg_cycles_available") c (
    if leb (2 ^ 64) c.env.cycles_available
    then failed (as_bytes "available cycles does not fit in u64") c
    else returned (number c.env.cycles_available) c)

unfoldable pub msg_cycles_available128 : ℕ → Canister → Outcome
unfolding has_cycles copy_to_canister to_le_bytes
msg_cycles_available128 dst c =
    guarded has_cycles (as_bytes "msg_cycles_available128") c
      (copy_to_canister dst 0 16 (to_le_bytes 16 c.env.cycles_available) c)

unfoldable pub msg_cycles_refunded : Canister → Outcome
unfolding in_callback
msg_cycles_refunded c = guarded in_callback (as_bytes "msg_cycles_refunded") c (
    if leb (2 ^ 64) c.env.cycles_refunded
    then failed (as_bytes "refunded cycles does not fit in u64") c
    else returned (number c.env.cycles_refunded) c)

unfoldable pub msg_cycles_refunded128 : ℕ → Canister → Outcome
unfolding in_callback copy_to_canister to_le_bytes
msg_cycles_refunded128 dst c =
    guarded in_callback (as_bytes "msg_cycles_refunded128") c
      (copy_to_canister dst 0 16 (to_le_bytes 16 c.env.cycles_refunded) c)

unfoldable pub min : ℕ → ℕ → ℕ
min a b = if ltb b a then b else a

-- What both calls that accept do: the amount moves from the available cycles to the accepted ones.
unfoldable pub accept : ℕ → ℕ → Canister → Canister
unfolding add128 put
accept id amount c = record c {
  env = record (c.env) { cycles_available = c.env.cycles_available - amount };
  cycles_accepted = add128 c.cycles_accepted amount;
  cycles_available_store = put id (c.env.cycles_available - amount) c.cycles_available_store;
}

-- `amount as i64` keeps the low 64 bits.
unfoldable pub msg_cycles_accept : ℕ → Canister → Outcome
unfolding has_cycles min accept extend
msg_cycles_accept max_amount c = guarded has_cycles (as_bytes "msg_cycles_accept") c (
    with_request c λ id.
      let amount = min c.env.cycles_available (extend max_amount) in
      returned (number (amount % 2 ^ 64)) (accept id amount c))

unfoldable pub msg_cycles_accept128 : ℕ → ℕ → ℕ → Canister → Outcome
unfolding has_cycles min accept amount128 copy_to_canister to_le_bytes
msg_cycles_accept128 max_amount_high max_amount_low dst c =
    guarded has_cycles (as_bytes "msg_cycles_accept128") c (
      with_request c λ id.
        let amount = min c.env.cycles_available (amount128 max_amount_high max_amount_low) in
        copy_to_canister dst 0 16 (to_le_bytes 16 amount) (accept id amount c))

unfoldable pub canister_cycle_balance : Canister → Outcome
unfolding add128
canister_cycle_balance c =
    let balance = add128 c.env.balance c.cycles_accepted in
    if leb (2 ^ 64) balance
    then failed (as_bytes "refunded cycles does not fit in u64") c
    else returned (number balance) c

unfoldable pub canister_cycle_balance128 : ℕ → Canister → Outcome
unfolding add128 copy_to_canister to_le_bytes
canister_cycle_balance128 dst c =
    copy_to_canister dst 0 16 (to_le_bytes 16 (add128 c.env.balance c.cycles_accepted)) c
