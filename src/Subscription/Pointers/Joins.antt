-- ===== src/Subscription/Pointers/Joins.antt =====
-- The client's thread of src/SubscriptionManager.cc, from its start to its end and its join, and
-- `setExternalError`, keep the pointers good.
use device_access_opc_ua_bac.Prelude.{
  ◌&&◌, ℕ, true, false, ◌≡◌, refl, Text, List, [], ◌∷◌, none, Option-cases, inl, inr,
}
use device_access_opc_ua_bac.Prelude.Deque.{find_cell}
use device_access_opc_ua_bac.System.{System, Thread, null, running, returned, ok, when}
use device_access_opc_ua_bac.System.Safe.{
  Safe, Keeps, Safe-bind, Keeps-bind, Keeps-when, Safe-if, Safe-when, when-false, Ends, Ends-bind,
  Safe-Ends, Ends-Safe,
}
use device_access_opc_ua_bac.Subscription.{
  subscription_ends-set_inactive, is_running, DeleteAnswer, deleted_with_callback, deleted_silently,
  is_named, delete_single, subscription_ends, set_inactive, reset_monitored_items,
  remove_subscription, set_external_error,
}
use device_access_opc_ua_bac.Subscription.Worker.{
  Round, run_loop, finish_client, run_client, join, stop_client_thread,
}
use device_access_opc_ua_bac.Callbacks.{handle_all}
use device_access_opc_ua_bac.Subscription.Pointers.{Held, modify-Good}
use device_access_opc_ua_bac.Subscription.Pointers.Calls.{
  remove_subscription-Held, handle_all-Held, reset_monitored_items-Held,
}

module _ (places : List ℕ) where
  abbrev H : System → Type 0
  H = Held places none

  -- A loop that finds `_run` reset makes no round.
  pub run_loop_idle :
      (rounds : List Round) (s : System) → s.run ≡ false → run_loop rounds s ≡ ok tt s
  unfolding run_loop
  run_loop_idle [] s e = when-false s.run _ s e
  run_loop_idle (r ∷ rs) s e = when-false s.run _ s e

  abbrev pub Idle : System → Type 0
  Idle t = H t × (t.run ≡ false)

  delete_single-Idle : (d : DeleteAnswer) → Keeps Idle (delete_single d)
  unfolding delete_single subscription_ends set_inactive
  delete_single-Idle deleted_silently s h = h
  delete_single-Idle deleted_with_callback s h =
      rw (subscription_ends-set_inactive s, Safe)
        (Keeps-when Idle (s.has_manager && s.registered) set_inactive (λ t k. k) s h)

  remove_subscription-Idle : (d : DeleteAnswer) → Keeps Idle (remove_subscription d)
  unfolding remove_subscription reset_monitored_items
  remove_subscription-Idle d =
      Keeps-bind Idle (delete_single d) _ (delete_single-Idle d) λ _ s k.
        (reset_monitored_items-Held places none (record s { subscription_id = 0 }) k.0, k.1)

  finish_client-Idle : (d : DeleteAnswer) → Keeps Idle (finish_client d)
  unfolding finish_client
  finish_client-Idle d s h =
      Safe-bind Idle Idle (when s.subscription_needs_to_be_removed _) _ s (λ t k. k)
        (Keeps-when Idle _ _
          (Keeps-bind Idle (remove_subscription d) _ (remove_subscription-Idle d) (λ _ t k. k)) s h)
        (λ _ t k. ((k.0.0, ((λ e. cc), k.0.1.1)), refl))

  -- A join after `_run` was reset returns.
  join-Held :
      (th : Thread) (rounds : List Round) (d : DeleteAnswer) (s : System)
      → Idle s
      → Safe H (join th rounds d s)
  unfolding join
  join-Held null rounds d s h = h.0
  join-Held returned rounds d s h = (h.0.0, ((λ k. cc (k, h.1)), h.0.1.1))
  join-Held running rounds d s h =
      rw (run_loop_idle rounds s h.1, Safe)
        (Safe-bind Idle H (finish_client d) _ s (λ t k. k.0) (finish_client-Idle d s h)
          (λ _ t k. (k.0.0, ((λ e. cc (e, k.1)), k.0.1.1))))

  run_loop-Held : (rounds : List Round) → Keeps H (run_loop rounds)
  unfolding run_loop
  run_loop-Held [] s h = Safe-when H s.run _ s h (λ _. tt)
  run_loop-Held (r ∷ rs) s h =
      let rest : Keeps H (run_loop rs) = run_loop-Held rs in
      Safe-when H s.run _ s h (λ _.
        Safe-bind H H (handle_all r.events) _ s (λ t k. k)
          (handle_all-Held places none r.events s h)
          (λ _ t k.
            Safe-if H t.subscription_needs_to_be_removed _ _ t (λ _. k)
              (λ _. Keeps-when H r.good (run_loop rs) rest t k)))

  finish_client-Ends : (d : DeleteAnswer) (s : System) → H s → Ends Idle H (finish_client d s)
  unfolding finish_client
  finish_client-Ends d s h =
      Ends-bind H Idle H (when s.subscription_needs_to_be_removed _) _ s
        (Safe-Ends H (when s.subscription_needs_to_be_removed _ s) (
          Keeps-when H _ _
            (Keeps-bind H (remove_subscription d) _ (remove_subscription-Held places none d)
              (λ _ t k. k))
            s h))
        (λ _ t k. ((k.0, ((λ e. cc), k.1.1)), refl))

  -- The thread, from its start to its end.
  run_client-Ends :
      (rounds : List Round) (d : DeleteAnswer) (s : System)
      → H s
      → Ends Idle H (run_client rounds d s)
  unfolding run_client
  run_client-Ends rounds d s h =
      Ends-bind H Idle H (run_loop rounds) _ s
        (Safe-Ends H (run_loop rounds s) (run_loop-Held rounds s h)) (λ _. finish_client-Ends d)

  pub run_client-Held : (rounds : List Round) (d : DeleteAnswer) → Keeps H (run_client rounds d)
  unfolding run_client finish_client
  run_client-Held rounds d = Keeps-bind H (run_loop rounds) _ (run_loop-Held rounds) (λ _ s h.
      Safe-bind H H (when s.subscription_needs_to_be_removed _) _ s (λ t k. k)
        (Keeps-when H _ _
          (Keeps-bind H (remove_subscription d) _ (remove_subscription-Held places none d)
            (λ _ t k. k))
          s h)
        (λ _ t k. (k.0, ((λ e. cc), k.1.1))))

  pub join_any-Held :
      (th : Thread) (rounds : List Round) (d : DeleteAnswer) (s : System)
      → (s.run ≡ true → is_running th ≡ true)
      → H s
      → Safe H (join th rounds d s)
  unfolding join is_running
  join_any-Held null rounds d s r h = h
  join_any-Held returned rounds d s r h = (h.0, ((λ e. cc (r e)), h.1.1))
  join_any-Held running rounds d s r h = Ends-Safe H (join running rounds d s) (
      Ends-bind Idle H H (run_client rounds d) _ s (run_client-Ends rounds d s h)
        (λ _ t k. (k.0.0, ((λ e. cc (e, k.1)), k.0.1.1))))

  -- A join keeps the pointers good, whenever it is made.
  pub stop_client_thread-Held :
      (rounds : List Round) (d : DeleteAnswer) → Keeps H (stop_client_thread rounds d)
  unfolding stop_client_thread
  stop_client_thread-Held rounds d s h = join_any-Held s.thread rounds d s h.1.0 h

  pub set_external_error-Held : (name : Text) → Keeps H (set_external_error name)
  unfolding set_external_error
  set_external_error-Held name s h = elim (Option-cases (find_cell (is_named name) s.items.cells)) [
    | inl e ↦ rw (e, Safe) h
    | inr ((a, i), e) ↦
        rw (e, Safe)
          (
            modify-Good s.live places none s.items s.subscription_map a
                (λ j. record j { has_exception = true }) (λ j. (refl, refl)) (λ j k. k) h.0,
            h.1,
          )
  ]

  pub stop_halted-Held :
      (rounds : List Round) (d : DeleteAnswer) (s : System)
      → Idle s
      → Safe H (stop_client_thread rounds d s)
  unfolding stop_client_thread
  stop_halted-Held rounds d s h = join-Held s.thread rounds d s h
