-- ===== src/Tests/Callbacks.antt =====
-- The callbacks of the runtime's canisters: the theorems at a canister that waits for a call.
use ic_kit.Base.{
  ◌+◌, ◌<◌, ◌^◌, ◌≡◌, refl, ap, subst, arith, [], ◌∷◌, some, none, unwrap_or, length, Returns,
}
use ic_kit.Dict.{find, member, put, erase, discard}
use ic_kit.Runtime.Types.{Env, default_env}
use ic_kit.Runtime.EnvBuilder.{with_entry_mode, with_raw_args, with_cycles_refunded}
use ic_kit.Runtime.Call.{reply, reply_env}
use ic_kit.Runtime.Canister.Task.{Task, finish}
use ic_kit.Runtime.Canister.State.{
  new_canister, Canister, RequestCallbacks, discard_pending_call, discard_call_queue, refund_all,
  add128,
}
use ic_kit.Runtime.Canister.Guard.{may_reply}
use ic_kit.Runtime.Canister.Replies.{awaits, is_replied, msg_reply, msg_reply_data_append}
use ic_kit.Runtime.Canister.System.{proxy}
use ic_kit.Runtime.Canister.Take.{
  incoming, response, take_message, settle, is_callback, chosen, callback_task,
}
use ic_kit.Runtime.Canister.Message.{begin, reset, run, perform, process_message}
use ic_kit.Runtime.Canister.Pending.{Unless}
use ic_kit.Runtime.Canister.Answered.{Survives}
use ic_kit.Runtime.Canister.Tracked.{Tracks, process_message-Tracks}
use ic_kit.Runtime.Canister.Delivered.{Reads, reply_env-Reads}
use ic_kit.Runtime.Canister.Resumed.{Waits, process_message-Waits}
use ic_kit.Tests.Messages.{toy_host, toy_code, call_env}

abbrev callbacks : RequestCallbacks
callbacks = record { message_id = 7; reply = (5, 0); reject = (6, 0); cleanup = none }

-- Request 7 waits for the request 3 made for it.
abbrev waiting : Canister
unfolding new_canister
waiting = record (new_canister (5 ∷ [])) {
  msg_reply_senders = (7, 9) ∷ [];
  outgoing_calls = (3, callbacks) ∷ [];
  pending_outgoing_requests = (7, 3 ∷ []) ∷ [];
}

waiting-Tracks : Tracks 8 waiting
unfolding waiting find member
waiting-Tracks = record {
  agree = λ id k. ground arith;
  busy = λ id. ground arith;
  below = λ k. ground arith;
}

abbrev answer_env : Env
answer_env = reply_env toy_host (reply (1 ∷ []) 0)

process_message-Tracks_example :
    Unless
      (λ r. 8 + length r.1 < 2 ^ 64 → Tracks r.2 r.0)
      (process_message (incoming 8 call_env) (some 10) 8 waiting)
process_message-Tracks_example =
    process_message-Tracks (incoming 8 call_env) (some 10) 8 waiting waiting-Tracks

process_message-Waits_example :
    Returns (λ r. Waits 7 r.0) (process_message (response 3 answer_env) none 8 waiting)
unfolding waiting new_canister reply_env with_entry_mode with_raw_args with_cycles_refunded
    default_env find erase put discard is_callback chosen callback_task reset discard_pending_call
    discard_call_queue refund_all take_message settle begin add128 perform run proxy
    msg_reply_data_append may_reply awaits msg_reply is_replied
process_message-Waits_example =
    process_message-Waits 8 3 answer_env callbacks waiting waiting-Tracks refl refl refl
      λ job task e f.
        subst
          (Unless λ j.
            (t : Task) → j.task ≡ some t → Survives (perform t (begin j.id j.env none j.canister)))
          e
          (λ t g.
            subst
              (λ u. Survives (
                perform u (
                  begin 7 answer_env none
                    (record waiting { outgoing_calls = []; pending_outgoing_requests = [] }))))
              (ap (λ o. unwrap_or o finish) g) tt)
          task f

reply_env-Reads_example : Reads (reply (1 ∷ []) 0) 64 (begin 7 answer_env none waiting)
reply_env-Reads_example = reply_env-Reads (reply (1 ∷ []) 0) 7 64 waiting (omega arith)
