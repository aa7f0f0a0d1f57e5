-- ===== src/Subscription/Pointers/Calls.antt =====
-- Every callback of the client keeps the pointers good and follows none that dangles.
use device_access_opc_ua_bac.Prelude.{
  ◌&&◌, ℕ, Bool, false, ◌≡◌, refl, Text, List, [], ◌∷◌, Option, some, arith, Bool-cases,
  Option-cases, inl, inr, ◌==◌, ==_iff, ◌∙◌,
}
use device_access_opc_ua_bac.Prelude.Map.{lookup}
use device_access_opc_ua_bac.Prelude.Deque
use device_access_opc_ua_bac.System.{
  System, DataValue, ◌>>=◌, ◌>>◌, get, put, when, ChannelState, SessionState,
}
use device_access_opc_ua_bac.System.Safe.{Safe, Keeps, Safe-bind, Keeps-bind, Keeps-when, Safe-if}
use device_access_opc_ua_bac.Subscription.{
  subscription_ends-set_inactive, DeleteAnswer, deleted_with_callback, deleted_silently,
  set_inactive, subscription_ends, unmonitored, is_told, reset_monitored_items, delete_single,
  remove_subscription, with_exception, handle_exception, inactive, deactivate_mapped, has_thread,
  drop_subscription, deactivate, deactivate_all_and_push_exception, received, response_handler,
}
use device_access_opc_ua_bac.Subscription.Pointers.{
  Items, Points, PointsAt, Held, IsGentle, Points-Tracks, modify-Tracks, map_items-Good,
  modify-Good, reset-Good,
}
use device_access_opc_ua_bac.Subscription.Accessors.{KeepsManned}
use device_access_opc_ua_bac.Callbacks.{
  ClientEvent, state_change, inactivity, subscription_deleted, data_change, state_callback,
  inactivity_callback, is_silent, handle, handle_all,
}

module _ (places : List ℕ) (o : Option ℕ) where
  abbrev H : System → Type 0
  H = Held places o

  subscription_ends-Held : Keeps H subscription_ends
  unfolding subscription_ends
  subscription_ends-Held s h =
      rw (subscription_ends-set_inactive s, Safe)
        (Keeps-when H (s.has_manager && s.registered) set_inactive (λ t k. k) s h)

  delete_single-Held : (d : DeleteAnswer) → Keeps H (delete_single d)
  unfolding delete_single
  delete_single-Held deleted_with_callback s h = subscription_ends-Held s h
  delete_single-Held deleted_silently s h = h

  pub reset_monitored_items-Held : Keeps H reset_monitored_items
  unfolding reset_monitored_items
  reset_monitored_items-Held s h = (
    reset-Good s.live places o s.items s.subscription_map unmonitored (λ i e. refl) (λ i k. k) h.0,
    h.1,
  )

  pub remove_subscription-Held : (d : DeleteAnswer) → Keeps H (remove_subscription d)
  unfolding remove_subscription
  remove_subscription-Held d =
      Keeps-bind H (delete_single d) _ (delete_single-Held d)
        λ _ s h. reset_monitored_items-Held (record s { subscription_id = 0 }) h

  pub with_exception-IsGentle : IsGentle with_exception
  unfolding with_exception
  with_exception-IsGentle i = ground arith

  with_exception-KeepsManned : (live : List ℕ) → KeepsManned live with_exception
  unfolding with_exception
  with_exception-KeepsManned live i h = elim (Bool-cases (is_told i)) [
    | inl e ↦ rw e h
    | inr e ↦ rw e h
  ]

  pub handle_exception-Held : (message : Text) → Keeps H (handle_exception message)
  unfolding handle_exception
  handle_exception-Held message s h = (
    map_items-Good s.live places o s.items s.subscription_map with_exception with_exception-IsGentle
        (with_exception-KeepsManned s.live) h.0,
    h.1,
  )

  pub inactive-IsGentle : IsGentle inactive
  unfolding inactive
  inactive-IsGentle i = (refl, refl)

  -- The entries that are left to go through are good ones.
  pub deactivate_mapped-Held :
      (m : List (ℕ × ℕ)) (s : System) → Points s.items m → H s → Safe H (deactivate_mapped m s)
  unfolding deactivate_mapped
  deactivate_mapped-Held [] s p h = h
  deactivate_mapped-Held ((id, a) ∷ m) s p h = rw (p.0.1) (
      deactivate_mapped-Held m (record s { items = Deque.modify s.items a inactive })
        (Points-Tracks s.items (Deque.modify s.items a inactive) m
          (modify-Tracks a inactive s.items inactive-IsGentle) p.1)
        (
          modify-Good s.live places o s.items s.subscription_map a inactive inactive-IsGentle
              (λ i k. k) h.0,
          h.1,
        ))

  drop_subscription-Held : (d : DeleteAnswer) → Keeps H (drop_subscription d)
  unfolding drop_subscription
  drop_subscription-Held d s h = elim (Bool-cases (has_thread s.thread)) [
    | inl e ↦ rw e h
    | inr e ↦ rw e (remove_subscription-Held d (record s { subscription_active = false }) h)
  ]

  deactivate_flags-Held :
      (d : DeleteAnswer) (s : System)
      → H s
      → Safe H (
          (put (λ t. record t { run = false })
              >> (get >>= λ t.
                  when t.subscription_active (drop_subscription d)
                  >> put (λ u. record u { async_read_active = false })))
            s)
  deactivate_flags-Held d s h =
      Safe-bind H H (when s.subscription_active (drop_subscription d)) _ _ (λ t q. q)
        (Keeps-when H s.subscription_active (drop_subscription d) (drop_subscription-Held d) _
          (h.0, ((λ e. cc), h.1.1)))
        (λ _ t q. q)

  pub deactivate-Held : (d : DeleteAnswer) → Keeps H (deactivate d)
  unfolding deactivate
  deactivate-Held d s h =
      Safe-bind H H (deactivate_mapped s.subscription_map) _ s (λ t q. q)
        (deactivate_mapped-Held s.subscription_map s h.0.points h)
        (λ _ t q. deactivate_flags-Held d t q)

  pub deactivate_all-Held :
      (message : Text) (d : DeleteAnswer) → Keeps H (deactivate_all_and_push_exception message d)
  unfolding deactivate_all_and_push_exception
  deactivate_all-Held message d =
      Keeps-bind H (handle_exception message) _ (handle_exception-Held message)
        λ _. deactivate-Held d

  pub mapped :
      (id : ℕ) (a : ℕ) (d : Items) (m : List (ℕ × ℕ))
      → Points d m
      → lookup id m ≡ some a
      → PointsAt d id a
  unfolding lookup
  mapped id a d [] p e = cc
  mapped id a d ((j, b) ∷ m) p e = elim (Bool-cases (j == id)) [
    | inl q ↦
        let (i, at, same, on) = p.0 in
        let here : b ≡ a = ground arith in (i, rw (← here) at, same ∙ (==_iff j id).0 q, on)
    | inr q ↦ mapped id a d m p.1 (ground arith)
  ]

  pub response_handler-Held : (id : ℕ) (v : DataValue) → Keeps H (response_handler id v)
  unfolding response_handler
  response_handler-Held id v s h = elim (Option-cases (lookup id s.subscription_map)) [
    | inl e ↦ rw (e, Safe) h
    | inr (a, e) ↦
        let (i, at, _, _) = mapped id a s.items s.subscription_map h.0.points e in
        rw (e, at, Safe)
          (elim (Bool-cases i.active) [
            | inl on ↦
                rw (on, Safe)
                  (
                    modify-Good s.live places o s.items s.subscription_map a received
                        (λ j. (refl, refl)) (λ j k. k) h.0,
                    h.1,
                  )
            | inr off ↦ rw (off, Safe) h
          ])
  ]

  pub state_callback-Held :
      (c : ChannelState) (n : SessionState) (d : DeleteAnswer) → Keeps H (state_callback c n d)
  unfolding state_callback
  state_callback-Held c n d s h =
      Keeps-when H s.registered _ (λ t k. Keeps-when H _ _ (deactivate_all-Held _ d) _ k) s h

  inactivity_callback-Held :
      (functional : Bool) (sub_id : ℕ) (d : DeleteAnswer)
      → Keeps H (inactivity_callback functional sub_id d)
  unfolding inactivity_callback
  inactivity_callback-Held functional sub_id d s h =
      Safe-if H s.registered _ _ s
        (λ _.
          Keeps-when H (is_silent functional sub_id s) _
            (Keeps-bind H (deactivate_all_and_push_exception _ d) _ (deactivate_all-Held _ d)
              (λ _ t k. k))
            s h)
        (λ e. cc (h.1.1))

  handle-Held : (e : ClientEvent) → Keeps H (handle e)
  unfolding handle
  handle-Held (state_change c n d) = state_callback-Held c n d
  handle-Held (inactivity functional sub_id d) = inactivity_callback-Held functional sub_id d
  handle-Held subscription_deleted = subscription_ends-Held
  handle-Held (data_change id v) = response_handler-Held id v

  pub handle_all-Held : (es : List ClientEvent) → Keeps H (handle_all es)
  unfolding handle_all
  handle_all-Held [] = λ s h. h
  handle_all-Held (e ∷ es) = Keeps-bind H (handle e) _ (handle-Held e) λ _. handle_all-Held es
