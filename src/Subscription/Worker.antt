-- ===== src/Subscription/Worker.antt =====
-- The thread of the subscription manager: `runClient`, `start` and `stopClientThread` of
-- src/SubscriptionManager.cc.
use device_access_opc_ua_bac.Prelude.{Bool, true, false, List, [], ◌∷◌, if◌then◌else◌}
use device_access_opc_ua_bac.System.{
  Thread, null, running, returned, M, ◌>>=◌, ◌>>◌, done, get, put, fail, when, terminated,
  waits_forever,
}
use device_access_opc_ua_bac.Subscription.{DeleteAnswer, remove_subscription}
use device_access_opc_ua_bac.Callbacks.{ClientEvent, handle_all}

-- One call of `UA_Client_run_iterate`: the callbacks that it makes, and whether it is good.
pub record Round : Type 0 where
  pub events : List ClientEvent
  pub good : Bool

-- `while(_run)` over the rounds that the client goes through; the loop that is still on after the
-- last of them does not end.
unfoldable pub run_loop : List Round → M (Unit {0})
unfolding handle_all
run_loop [] = do s ← get; when s.run (fail waits_forever)
run_loop (r ∷ rs) =
    let rest = run_loop rs in
    do
      s ← get
      when s.run (do
        handle_all r.events
        s' ← get
        if s'.subscription_needs_to_be_removed then done else (when r.good rest))

unfoldable pub finish_client : DeleteAnswer → M (Unit {0})
unfolding remove_subscription
finish_client d = do
  s ← get
  when s.subscription_needs_to_be_removed
      (do remove_subscription d; put λ s. record s { subscription_needs_to_be_removed = false })
  put λ s. record s { run = false; thread = returned }

unfoldable pub run_client : List Round → DeleteAnswer → M (Unit {0})
unfolding run_loop finish_client
run_client rounds d = do run_loop rounds; finish_client d

-- A new thread over one that was not joined terminates the program.
unfoldable pub launch : Thread → M (Unit {0})
launch null = put λ s. record s { thread = running }
launch running = fail terminated
launch returned = fail terminated

unfoldable pub start : M (Unit {0})
unfolding launch
start = do
  s ← get
  if s.subscription_active
      then (do put λ s. record s { run = true }; launch s.thread)
      else put (λ s. record s { run = false })

-- The join waits until the thread has returned.
unfoldable pub join : Thread → List Round → DeleteAnswer → M (Unit {0})
unfolding run_client
join null rounds d = done
join running rounds d = do run_client rounds d; put λ s. record s { thread = null }
join returned rounds d = put λ s. record s { thread = null }

unfoldable pub stop_client_thread : List Round → DeleteAnswer → M (Unit {0})
unfolding join
stop_client_thread rounds d = do s ← get; join s.thread rounds d
