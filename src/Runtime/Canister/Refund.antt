-- ===== src/Runtime/Canister/Refund.antt =====
-- The cycles of a message of canister.rs from its start to its end.
use ic_kit.Base.{ℕ, ◌+◌, ◌^◌, ◌<◌, ◌≡◌, ◌∙◌, arith, Option, none, some, List, [], ◌∷◌, subst}
use ic_kit.Certified.HashTree.{Bytes}
use ic_kit.Runtime.Types.{Host}
use ic_kit.Runtime.Canister.Task.{Task}
use ic_kit.Runtime.Canister.State.{
  Canister, PendingCall, add128, refund, refund_all, discard_pending_call, discard_call_queue,
}
use ic_kit.Runtime.Canister.Frame.{AtEnd}
use ic_kit.Runtime.Canister.Conserve.{queue_held, provided, Conserved, perform-Conserved}
use ic_kit.Runtime.Canister.Message.{
  Ended, completed, trapped, crashed, perform, maybe_final_reply, roll_back, after_panic,
}

refund_all-sum :
    (queue : List PendingCall) (balance : ℕ)
    → balance + queue_held queue < 2 ^ 128
    → refund_all queue balance ≡ balance + queue_held queue
unfolding refund_all refund add128
refund_all-sum [] balance h = omega arith
refund_all-sum (p ∷ queue) balance h =
    let ih = refund_all-sum queue balance (omega arith) in rw ih (omega arith)

maybe_final_reply-keeps :
    (message : Option Bytes) (cycles : ℕ) (c : Canister)
    → ((maybe_final_reply message cycles c).env.balance ≡ c.env.balance)
      × ((maybe_final_reply message cycles c).call_queue ≡ c.call_queue)
unfolding maybe_final_reply
maybe_final_reply-keeps message cycles c = ground arith

-- How the cycles stand at the end of a task that began at `c`.
pub record Balanced (c d : Canister) : Type 0 where
  pub held : d.env.balance + queue_held d.call_queue ≡ c.env.balance
  pub given : provided d ≡ provided c

ended-Balanced :
    (c : Canister) (e : Ended)
    → c.pending_call ≡ none
    → c.call_queue ≡ []
    → c.env.balance < 2 ^ 128
    → provided c < 2 ^ 128
    → AtEnd (Conserved c) e
    → AtEnd (λ d. d.pending_call ≡ none) e
    → AtEnd (Balanced c) e
ended-Balanced c (completed d) p q b v h n = record {
  held = let k = h.cycles in ground arith;
  given = h.provision v;
}
ended-Balanced c (trapped m d) p q b v h n = record {
  held = let k = h.cycles in ground arith;
  given = h.provision v;
}
ended-Balanced c crashed p q b v h n = tt

module _ ⦃host : Host⦄ where
  perform-none : (task : Task) (c : Canister) → AtEnd (λ d. d.pending_call ≡ none) (perform task c)
  unfolding perform discard_pending_call
  perform-none task c = ground arith

  -- Where no call is left over from before and the sums fit in 128 bits, a task, however it ends, neither makes nor loses
  -- cycles: the balance went down by what its queued calls set aside, and the cycles provided with the
  -- message are available, accepted or in the reply.
  pub perform-Balanced :
      (task : Task) (c : Canister)
      → c.pending_call ≡ none
      → c.call_queue ≡ []
      → c.env.balance < 2 ^ 128
      → provided c < 2 ^ 128
      → AtEnd (Balanced c) (perform task c)
  perform-Balanced task c p q b v =
      ended-Balanced c (perform task c) p q b v (perform-Conserved task c) (perform-none task c)

  -- A task that traps gets its calls back: the balance is what it was when the task began, and no call is left
  -- to be sent.
  pub after_panic-restores :
      (id : ℕ) (task : Task) (message : Bytes) (c d : Canister)
      → c.pending_call ≡ none
      → c.call_queue ≡ []
      → c.env.balance < 2 ^ 128
      → provided c < 2 ^ 128
      → perform task c ≡ trapped message d
      → ((after_panic id message d).env.balance ≡ c.env.balance)
        × ((after_panic id message d).call_queue ≡ [])
  unfolding after_panic roll_back discard_call_queue
  after_panic-restores id task message c d p q b v e =
      let h : Balanced c d = subst (AtEnd (Balanced c)) e (perform-Balanced task c p q b v) in
      let keeps =
        maybe_final_reply-keeps (some message) (roll_back id d).env.cycles_available
          (roll_back id d) in
      (keeps.0 ∙ refund_all-sum d.call_queue d.env.balance (rw h.held b) ∙ h.held, keeps.1)
