-- ===== src/SysDb/Messages/Queue.antt =====
-- The messages that wait for a workflow under a topic are a queue, and `consume` takes its front.
use dbos_transact_ts.Common.{
  ◌≤◌, String, Bool, true, false, none, some, List, [], ◌∷◌, ◌≡◌, inl, inr, refl, sym, ◌∙◌, arith,
  same, same_iff, same_refl, select, update, count, count-update, head, tail, All, queued-taken,
  first-queued, Option-cases, ◌&&◌, All-select, All-order_by,
}
use dbos_transact_ts.SysDb.Schema.{Notification}
use dbos_transact_ts.SysDb.Messages.{
  is_message, is_waiting, sent_before, waiting_messages, consume, consumed_one,
}

-- `message_uuid` is the primary key.
abbrev pub UniqueMessages : List Notification → Type 0
UniqueMessages t = (id : String) → count (is_message id) t ≤ 1

select-update_past {ℓ} :
    {A : Type ℓ} (p u : A → Bool) (f : A → A)
    → ((r : A) → u r ≡ true → (p r ≡ false) × (p (f r) ≡ false))
    → (t : List A) → select p (update u f t) ≡ select p t
select-update_past p u f past [] = refl
select-update_past p u f past (r ∷ t) = ground (arith, past r, select-update_past p u f past t)

front-is_waiting :
    (id topic : String) (t : List Notification) (n : Notification)
    → head (waiting_messages id topic t) ≡ some n
    → is_waiting id topic n ≡ true
unfolding waiting_messages
front-is_waiting id topic t n h =
    at_head _
      (All-order_by (λ r. is_waiting id topic r ≡ true) sent_before (select (is_waiting id topic) t)
        (All-select (is_waiting id topic) t))
      h
  where
    at_head :
        (s : List Notification)
        → All (λ r. is_waiting id topic r ≡ true) s
        → head s ≡ some n
        → is_waiting id topic n ≡ true
    at_head [] all e = cc
    at_head (x ∷ s) all e = ground (arith, all.0, e)

empty_queue {ℓ} : {A : Type ℓ} (s : List A) → head s ≡ none → s ≡ tail s
empty_queue [] h = refl
empty_queue (x ∷ s) h = cc

module _ (id topic : String) (t : List Notification) where
  consume-none : head (waiting_messages id topic t) ≡ none → consume id topic t ≡ (none, t)
  unfolding consume
  consume-none h = ground (arith, h)

  consume-some :
      (n : Notification)
      → UniqueMessages t
      → head (waiting_messages id topic t) ≡ some n
      → ((consume id topic t).0 ≡ some n)
        × (waiting_messages id topic (consume id topic t).1 ≡ tail (waiting_messages id topic t))
  unfolding consume waiting_messages
  consume-some n once h =
      let found =
        first-queued (is_waiting id topic) (is_message n.message_uuid) consumed_one sent_before n
          (same_refl n.message_uuid) t (once n.message_uuid) h in
      let left =
        queued-taken (is_waiting id topic) (is_message n.message_uuid) consumed_one sent_before n
          (same_refl n.message_uuid) (λ r. ground arith) t (once n.message_uuid) h in
      ground (arith, h, found, left)

  pub consume-waiting_messages :
      UniqueMessages t
      → ((consume id topic t).0 ≡ head (waiting_messages id topic t))
        × (waiting_messages id topic (consume id topic t).1 ≡ tail (waiting_messages id topic t))
  consume-waiting_messages once = elim (Option-cases (head (waiting_messages id topic t))) [
    | inl e ↦
        let same = consume-none e in
        let left = empty_queue (waiting_messages id topic t) e in (cc, cc)
    | inr (n, e) ↦ let (taken, left) = consume-some n once e in (taken ∙ sym e, left)
  ]

  -- No other workflow and no other topic loses a message.
  pub consume_elsewhere :
      (id' topic' : String)
      → (same id id' && same topic topic') ≡ false
      → waiting_messages id' topic' (consume id topic t).1 ≡ waiting_messages id' topic' t
  unfolding consume waiting_messages
  consume_elsewhere id' topic' apart = elim (Option-cases (head (waiting_messages id topic t))) [
    | inl e ↦ ground (arith, e)
    | inr (n, e) ↦
        let left =
          select-update_past (is_waiting id' topic')
            (λ r. is_waiting id topic r && is_message n.message_uuid r) consumed_one
            (λ r here. (past n r here, ground arith)) t in
        ground (arith, e, left)
  ]
    where
      past :
          (n r : Notification)
          → (is_waiting id topic r && is_message n.message_uuid r) ≡ true
          → is_waiting id' topic' r ≡ false
      past n r here =
          ground (arith, here, apart, same_iff r.destination_uuid id, same_iff r.topic topic)

  pub consume-UniqueMessages : UniqueMessages t → UniqueMessages (consume id topic t).1
  unfolding consume
  consume-UniqueMessages once k = elim (Option-cases (head (waiting_messages id topic t))) [
    | inl e ↦ ground (arith, e, once k)
    | inr (n, e) ↦ ground (
      arith,
      e,
      once k,
      count-update (is_message k) (λ r. is_waiting id topic r && is_message n.message_uuid r)
          consumed_one (λ r. refl) t,
    )
  ]
