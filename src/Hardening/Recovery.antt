-- ===== src/Hardening/Recovery.antt =====
-- src/llm_sca_tooling/hardening/subscription_recovery.py: what a client missed while it was away. A
-- time is a number of microseconds: ISO texts of UTC times compare as the times do.
use llm_sca_tooling.Prelude.{
  ℕ, ◌+◌, ◌*◌, String, Bool, Option, none, some, List, [], ◌∷◌, ◌++◌, map, if◌then◌else◌, ltb,
  select,
}
use llm_sca_tooling.Prelude.Dict.{Dict, lookup, insert, modify, remove}

pub record NotificationRecord (P : Type 0) : Type 0 where
  pub resource_uri : String
  pub ts : ℕ
  pub payload : P

pub record SubscriptionState : Type 0 where
  pub client_id : String
  pub resource_uri : String
  pub last_received_ts : Option ℕ

pub data Event (P : Type 0) : Type 0 where
  resync : String → Event P
  update : (resource_uri : String) → (ts : ℕ) → P → Event P

pub record Manager (P : Type 0) : Type 0 where
  pub retention_window : ℕ
  pub subscriptions : Dict (Dict SubscriptionState)
  pub log : Dict (List (NotificationRecord P))

-- What a `defaultdict`, or `get` with an empty default, gives for a key.
abbrev pub or_new : {A : Type 0} → Option (List A) → List A
or_new none = []
or_new (some l) = l

abbrev pub received : ℕ → SubscriptionState → SubscriptionState
received ts s = record s { last_received_ts = some ts }

module _ {P : Type 0} where
  unfoldable pub subscriptions_of : String → Manager P → Dict SubscriptionState
  subscriptions_of client m = or_new (lookup client m.subscriptions)

  unfoldable pub log_of : String → Manager P → List (NotificationRecord P)
  log_of uri m = or_new (lookup uri m.log)

  abbrev with_subscriptions : String → Dict SubscriptionState → Manager P → Manager P
  with_subscriptions client subs m = record m { subscriptions = insert client subs m.subscriptions }

  unfoldable pub subscribe : (client uri : String) → Manager P → Manager P
  unfolding subscriptions_of
  subscribe client uri m =
      with_subscriptions client
        (insert uri (record { client_id = client; resource_uri = uri; last_received_ts = none })
          (subscriptions_of client m))
        m

  unfoldable pub unsubscribe : (client uri : String) → Manager P → Manager P
  unfolding subscriptions_of
  unsubscribe client uri m = with_subscriptions client (remove uri (subscriptions_of client m)) m

  unfoldable pub record_notification : String → P → ℕ → Manager P → Manager P
  unfolding log_of
  record_notification uri payload now m =
      let r : NotificationRecord P = record { resource_uri = uri; ts = now; payload = payload } in
      record m { log = insert uri (log_of uri m ++ r ∷ []) m.log }

  unfoldable pub acknowledge : (client uri : String) → ℕ → Manager P → Manager P
  unfolding subscriptions_of
  acknowledge client uri ts m =
      with_subscriptions client (modify uri (received ts) (subscriptions_of client m)) m

  abbrev pub is_after : ℕ → NotificationRecord P → Bool
  is_after cutoff r = ltb cutoff r.ts

  abbrev pub to_event : String → NotificationRecord P → Event P
  to_event uri r = update uri r.ts r.payload

  -- The reply for the records after the cutoff.
  unfoldable pub replay : String → (window now : ℕ) → List (NotificationRecord P) → List (Event P)
  replay uri window now [] = []
  replay uri window now (r ∷ rs) =
      if ltb (r.ts + window * 1000000) now then resync uri ∷ [] else map (to_event uri) (r ∷ rs)

  -- The body of the loop of `recover`.
  unfoldable pub catch_up :
      String → (window now : ℕ) → List (NotificationRecord P) → Option ℕ → List (Event P)
  unfolding replay
  catch_up uri window now [] last = []
  catch_up uri window now (r ∷ rs) none = resync uri ∷ []
  catch_up uri window now (r ∷ rs) (some cutoff) =
      replay uri window now (select (is_after cutoff) (r ∷ rs))

  unfoldable pub recover_items : ℕ → Dict SubscriptionState → Manager P → Dict (List (Event P))
  unfolding catch_up log_of
  recover_items now [] m = []
  recover_items now ((uri, s) ∷ subs) m =
      (uri, catch_up uri m.retention_window now (log_of uri m) s.last_received_ts)
      ∷ recover_items now subs m

  unfoldable pub recover : String → ℕ → Manager P → Dict (List (Event P))
  unfolding recover_items subscriptions_of
  recover client now m = recover_items now (subscriptions_of client m) m
