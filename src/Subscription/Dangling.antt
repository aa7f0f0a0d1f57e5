-- ===== src/Subscription/Dangling.antt =====
-- Where `unsubscribe` of src/SubscriptionManager.cc erases an item between others.
use device_access_opc_ua_bac.Prelude.{
  ℕ, suc, Bool, true, false, not, ◌≡◌, ◌<◌, refl, Text, List, [], ◌∷◌, ◌||◌, ◌&&◌, none, some,
  arith, ◌==◌, length, ltb, ap, ◌∙◌,
}
use device_access_opc_ua_bac.Prelude.Map.{lookup, erase}
use device_access_opc_ua_bac.Prelude.Deque
use device_access_opc_ua_bac.Prelude.Deque.{
  find_cell, is_first, is_last, erase_at, without, relocate,
}
use device_access_opc_ua_bac.System.{
  System, MonitorItem, DataValue, Fault, fault, M, dangling_pointer, is_connected, when,
}
use device_access_opc_ua_bac.System.Safe.{bind_fault}
use device_access_opc_ua_bac.Subscription.{is_named, response_handler}
use device_access_opc_ua_bac.Subscription.Monitor.{
  UnsubscribeAnswer, delete_monitored_item, drop_item, unsubscribe,
}
use device_access_opc_ua_bac.Callbacks.{data_change, ClientEvent, handle, handle_all}

lookup-relocate :
    (n a : ℕ) (cs : List (ℕ × MonitorItem)) → a < n → lookup a (relocate n cs).cells ≡ none
unfolding lookup relocate
lookup-relocate n a [] h = refl
lookup-relocate n a ((b, i) ∷ cs) h =
    let rest = lookup-relocate (suc n) a cs (omega arith) in ground (arith, rest)

-- The address of an item that stands between others.
abbrev pub IsInside : ℕ → System → Type 0
IsInside a s = (is_first a s.items.cells || is_last a s.items.cells) ≡ false

erase_at_inside :
    (a b : ℕ) (s : System)
    → IsInside a s
    → b < s.items.fresh
    → Deque.deref (Deque.erase_at s.items a) b ≡ none
unfolding erase_at
erase_at_inside a b s inside old =
    rw inside (lookup-relocate s.items.fresh b (without a s.items.cells) old)

response_dangling :
    (mon_id b : ℕ) (v : DataValue) (s : System)
    → lookup mon_id s.subscription_map ≡ some b
    → Deque.deref s.items b ≡ none
    → response_handler mon_id v s ≡ fault dangling_pointer
unfolding response_handler
response_dangling mon_id b v s mapped gone = ground (arith, mapped, gone)

when_fault :
    (c : Bool) (m : M (Unit {0})) (s : System) (x : Fault)
    → c ≡ true
    → m s ≡ fault x
    → when c m s ≡ fault x
when_fault c m s x e f = rw (e, f) refl

handle_all_dangling :
    (mon_id b : ℕ) (v : DataValue) (all es : List ClientEvent) (s : System)
    → all ≡ data_change mon_id v ∷ es
    → lookup mon_id s.subscription_map ≡ some b
    → Deque.deref s.items b ≡ none
    → handle_all all s ≡ fault dangling_pointer
unfolding handle_all handle
handle_all_dangling mon_id b v all es s came mapped gone =
    ap (λ l. handle_all l s) came
    ∙ bind_fault (response_handler mon_id v) (λ _. handle_all es) s dangling_pointer
        (response_dangling mon_id b v s mapped gone)

-- A response after the erasure of an item between others, for one of the others.
drop_item_dangling :
    (ans : UnsubscribeAnswer) (a b mon_id : ℕ) (v : DataValue) (es : List ClientEvent)
    (i : MonitorItem) (s : System)
    → IsInside a s
    → (i.id == 0) ≡ false
    → is_connected s ≡ true
    → lookup mon_id (erase i.id s.subscription_map) ≡ some b
    → b < s.items.fresh
    → ans.events ≡ data_change mon_id v ∷ es
    → drop_item ans a i s ≡ fault dangling_pointer
unfolding drop_item delete_monitored_item
drop_item_dangling ans a b mon_id v es i s inside known on mapped old came =
    let t : System = record s {
      subscription_map = erase i.id s.subscription_map;
      items = Deque.erase_at s.items a;
    } in
    when_fault (not (i.id == 0) && is_connected t) (delete_monitored_item ans) t dangling_pointer
      (ground (arith, known, on))
      (bind_fault (handle_all ans.events) _ t dangling_pointer (
        handle_all_dangling mon_id b v ans.events es t came mapped
          (erase_at_inside a b s inside old)))

-- `unsubscribe` erases an item that stands between two others, with the pointers that
-- `subscriptionMap` has into the deque left as they are: the response for any other monitored item
-- that comes in while the server is told follows a pointer that dangles. Here the client is
-- connected, the item is known to the server, and the accessor is its only one.
pub unsubscribe_dangling :
    (ans : UnsubscribeAnswer) (name : Text) (accessor a b mon_id : ℕ) (v : DataValue)
    (es : List ClientEvent) (i : MonitorItem) (s : System)
    → find_cell (is_named name) s.items.cells ≡ some (a, i)
    → ltb 1 (length i.accessors) ≡ false
    → IsInside a s
    → (i.id == 0) ≡ false
    → is_connected s ≡ true
    → lookup mon_id (erase i.id s.subscription_map) ≡ some b
    → b < s.items.fresh
    → ans.events ≡ data_change mon_id v ∷ es
    → unsubscribe ans name accessor s ≡ fault dangling_pointer
unfolding unsubscribe
unsubscribe_dangling ans name accessor a b mon_id v es i s found few inside known on mapped old
      came =
    let faulty = drop_item_dangling ans a b mon_id v es i s inside known on mapped old came in
    ground (arith, found, few, faulty)
