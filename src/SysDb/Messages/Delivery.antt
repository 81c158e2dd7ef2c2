-- ===== src/SysDb/Messages/Delivery.antt =====
-- Sending: a message joins the end of its destination's queue, once under an idempotency key.
use dbos_transact_ts.Common.{
  ℕ, String, true, false, none, some, [], ◌∷◌, ◌++◌, ◌≡◌, refl, ap, sym, ◌∙◌, arith, same_iff,
  same_refl, first, select, count-append, All, order_by-append, select-append, count-first-none,
  Option-cases, leb, All-select_of, is_some, or_else,
}
use dbos_transact_ts.SysDb.Schema.{Db, Notification}
use dbos_transact_ts.SysDb.Result.{Result, ok, err}
use dbos_transact_ts.SysDb.Outcome.{truthy}
use dbos_transact_ts.SysDb.Steps.Checkpoints.{first-append_new}
use dbos_transact_ts.SysDb.Messages.{
  Outgoing, insert_message, explained, message_id, notification_of, null_topic, send_direct,
  is_message, is_waiting, sent_before, waiting_messages, insert_notification,
}
use dbos_transact_ts.SysDb.Messages.Queue.{UniqueMessages}

module _ (n : Notification) (db : Db) where
  pub insert_notification-waiting_messages :
      n.consumed ≡ false
      → All (λ m. sent_before m n ≡ true) db.notifications
      → (insert_notification n db).0 ≡ ok tt
      → first (is_message n.message_uuid) db.notifications ≡ none
      → waiting_messages n.destination_uuid n.topic (insert_notification n db).1.notifications
        ≡ waiting_messages n.destination_uuid n.topic db.notifications ++ n ∷ []
  unfolding insert_notification waiting_messages
  insert_notification-waiting_messages fresh last done free =
      let at_end =
        order_by-append sent_before n
          (select (is_waiting n.destination_uuid n.topic) db.notifications)
          (All-select_of (λ m. sent_before m n ≡ true) (is_waiting n.destination_uuid n.topic)
            db.notifications last) in
      let selected =
        select-append (is_waiting n.destination_uuid n.topic) db.notifications (n ∷ []) in
      ground (
        arith,
        done,
        free,
        fresh,
        selected,
        at_end,
        same_refl n.destination_uuid,
        same_refl n.topic,
      )

  pub insert_notification_again :
      is_some (first (is_message n.message_uuid) db.notifications) ≡ true
      → insert_notification n db ≡ (ok tt, db)
  unfolding insert_notification
  insert_notification_again taken = rw taken refl

  pub insert_notification_there :
      (insert_notification n db).0 ≡ ok tt
      → is_some (first (is_message n.message_uuid) (insert_notification n db).1.notifications)
        ≡ true
  unfolding insert_notification
  insert_notification_there done = ground (
    arith,
    done,
    same_refl n.message_uuid,
    first-append_new (is_message n.message_uuid) db.notifications n,
    Option-cases (first (is_message n.message_uuid) db.notifications),
  )

  pub insert_notification-UniqueMessages :
      UniqueMessages db.notifications → UniqueMessages (insert_notification n db).1.notifications
  unfolding insert_notification
  insert_notification-UniqueMessages once k = ground (
    arith,
    once k,
    count-append (is_message k) db.notifications n,
    count-first-none (is_message k) db.notifications,
    same_iff n.message_uuid k,
  )

explained-ok {ℓ} :
    {A : Type ℓ} (destination : String) (a : A) (x : Result A × Db)
    → (explained destination x).0 ≡ ok a
    → explained destination x ≡ x
explained-ok destination a (err e, db) h = cc
explained-ok destination a (ok b, db) h = refl

send_direct_inserts :
    (now : ℕ) (m : Outgoing) (text : String) (db : Db)
    → m.message ≡ some text
    → (send_direct now m db).0 ≡ ok tt
    → send_direct now m db ≡ insert_notification (notification_of now m text) db
unfolding send_direct insert_message
send_direct_inserts now m text db given done =
    explained-ok m.destination tt (insert_message now m db) done ∙ rw given refl

insert_message_again :
    (now : ℕ) (m : Outgoing) (text : String)
    → m.message ≡ some text
    → (db : Db)
    → is_some (first (is_message (notification_of now m text).message_uuid) db.notifications) ≡ true
    → send_direct now m db ≡ (ok tt, db)
unfolding send_direct insert_message
insert_message_again now m text given db present =
    let again = insert_notification_again (notification_of now m text) db present in
    ground (arith, given, again)

module _ (now : ℕ) (m : Outgoing) (text : String) (db : Db) where
  -- A message that `sendDirect` accepts under an id that is not taken, at a time that is not before
  -- any message of the table, joins the end of its destination's queue.
  pub send_direct-waiting_messages :
      m.message ≡ some text
      → All (λ n. leb n.created_at_epoch_ms now ≡ true) db.notifications
      → (send_direct now m db).0 ≡ ok tt
      → first (is_message (message_id m.idempotency_key m.destination m.random)) db.notifications
        ≡ none
      → waiting_messages m.destination
          (or_else m.topic null_topic)
          (send_direct now m db).1.notifications
        ≡ waiting_messages m.destination (or_else m.topic null_topic) db.notifications
          ++ notification_of now m text ∷ []
  unfolding notification_of
  send_direct-waiting_messages text_given last done free =
      let inserts = send_direct_inserts now m text db text_given done in
      rw inserts (
        insert_notification-waiting_messages (notification_of now m text) db refl last
          (ap (λ (x : Result (Unit {0}) × Db). x.0) (sym inserts) ∙ done) free)

  -- Once `sendDirect` has accepted a message under an idempotency key, every later send to that
  -- destination under that key, with whatever text and topic, succeeds and changes nothing.
  pub send_direct_again :
      (key : String)
      → m.message ≡ some text
      → m.idempotency_key ≡ some key
      → truthy (some key) ≡ true
      → (send_direct now m db).0 ≡ ok tt
      → (now' : ℕ) (m' : Outgoing) (text' : String) → m'.message ≡ some text'
      → m'.idempotency_key ≡ some key
      → m'.destination ≡ m.destination
      → send_direct now' m' (send_direct now m db).1 ≡ (ok tt, (send_direct now m db).1)
  unfolding notification_of message_id
  send_direct_again key given keyed real done now' m' text' given' keyed' there =
      let inserts = send_direct_inserts now m text db given done in
      let present =
        insert_notification_there (notification_of now m text) db
          (ap (λ (x : Result (Unit {0}) × Db). x.0) (sym inserts) ∙ done) in
      rw inserts
        (insert_message_again now' m' text' given' _ (rw (same_key m' text' keyed' there) present))
    where
      same_key :
          (m' : Outgoing) (text' : String)
          → m'.idempotency_key ≡ some key
          → m'.destination ≡ m.destination
          → (notification_of now' m' text').message_uuid ≡ (notification_of now m text).message_uuid
      same_key m' text' keyed' there = ground (arith, keyed, keyed', real, there)
