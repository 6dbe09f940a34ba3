-- ===== src/Webhooks/Register.antt =====
-- Endpoints and the events that they subscribe to (in-memory-deploy-store.ts,
-- webhook-dispatcher.ts).
use bumd.Prelude.{
  ℕ, ◌+◌, ◌<◌, Bool, true, false, some, List, [], ◌∷◌, ◌++◌, map, if◌then◌else◌, eqb, filter, find?,
  any, ◌&&◌, ◌⊎◌, ◌↔◌, eq_iff, All, Except, returned, thrown, ◌>>=◌, ◌≡◌, refl, ap, subst, sym, ◌∙◌,
  arith, Bool-cases, inl, inr,
}
use bumd.Webhooks.Types.{
  WebhookEventType, version_created, version_failed, diff_breaking_detected, WebhookEndpoint,
  WebhookEventPayload, QueuedWebhookDeliveryJob, RegisteredWebhookInput,
}
use bumd.Webhooks.{
  State, WebhookError, enqueue_failed, same_type, is_subscribed, register_webhook,
  list_subscribed_webhooks, get_webhook_endpoint, enqueue_delivery, enqueue_all, enqueue_event,
}

-- The ids of all endpoints were given out.
abbrev pub AllNumbered : {W : Type 0} → State W → Type 0
AllNumbered s = All (λ w. w.id < s.next_webhook_id) s.webhook_endpoints

module _ (next : ℕ) where
  All-weaken :
      (ws : List WebhookEndpoint) → All (λ w. w.id < next) ws → All (λ w. w.id < next + 1) ws
  All-weaken [] h = tt
  All-weaken (w ∷ ws) h = let rest = All-weaken ws h.1 in let here = h.0 in (omega arith, rest)

  All-append-one :
      (ws : List WebhookEndpoint) (w : WebhookEndpoint)
      → All (λ v. v.id < next + 1) ws
      → w.id < next + 1
      → All (λ v. v.id < next + 1) (ws ++ w ∷ [])
  All-append-one [] w h below = (below, tt)
  All-append-one (v ∷ ws) w h below = (h.0, All-append-one ws w h.1 below)

  find-new :
      (ws : List WebhookEndpoint) (w : WebhookEndpoint)
      → All (λ v. v.id < next) ws
      → w.id ≡ next
      → find? (λ v. eqb v.id next) (ws ++ w ∷ []) ≡ some w
  find-new [] w h same = ground arith
  find-new (v ∷ ws) w h same = let below = h.0 in ground (arith, find-new ws w h.1 same)

  find-other :
      (ws : List WebhookEndpoint) (w : WebhookEndpoint) (id : ℕ)
      → eqb w.id id ≡ false
      → find? (λ v. eqb v.id id) (ws ++ w ∷ []) ≡ find? (λ v. eqb v.id id) ws
  find-other [] w id other = ground arith
  find-other (v ∷ ws) w id other = ground (arith, find-other ws w id other)

-- Where all ids were given out, a registered endpoint is found by its id, every other id finds what it
-- found before, and all ids were given out again.
pub get_webhook_endpoint-register_webhook :
    {W : Type 0} (input : RegisteredWebhookInput) (s : State W)
    → AllNumbered s
    → ((id : ℕ)
        → get_webhook_endpoint id (register_webhook input s).1 ≡ (
            if eqb (register_webhook input s).0.id id
            then some (register_webhook input s).0
            else get_webhook_endpoint id s))
      × AllNumbered (register_webhook input s).1
unfolding get_webhook_endpoint register_webhook
get_webhook_endpoint-register_webhook input s numbered =
    let next = s.next_webhook_id in
    (
      λ id. elim (Bool-cases (eqb next id)) [
        | inl same ↦
            let here : next ≡ id = ground arith in
            rw same (
              subst
                (λ k.
                  find? (λ v. eqb v.id k) (register_webhook input s).1.webhook_endpoints
                  ≡ some (register_webhook input s).0)
                here (find-new next s.webhook_endpoints _ numbered refl))
        | inr differs ↦ rw differs (find-other next s.webhook_endpoints _ id differs)
      ],
      All-append-one next s.webhook_endpoints _ (All-weaken next s.webhook_endpoints numbered)
          (omega arith),
    )

-- The job of a first attempt.
abbrev pub first_job : WebhookEventPayload → WebhookEndpoint → QueuedWebhookDeliveryJob
first_job payload webhook = record {
  job = record { webhook_id = webhook.id; event = payload; attempt_number = 1 };
  delay_ms = 0;
}

append-one : {A : Type 0} (xs ys : List A) (x : A) → (xs ++ x ∷ []) ++ ys ≡ xs ++ x ∷ ys
append-one [] ys x = refl
append-one (z ∷ xs) ys x = ap (λ rest. z ∷ rest) (append-one xs ys x)

append-nil : {A : Type 0} (xs : List A) → xs ++ [] ≡ xs
append-nil [] = refl
append-nil (x ∷ xs) = ap (λ rest. x ∷ rest) (append-nil xs)

module _ {W : Type 0} where
  enqueue_delivery-works :
      (queued : QueuedWebhookDeliveryJob) (s : State W)
      → s.should_fail_next_enqueue ≡ false
      → enqueue_delivery queued s ≡ (returned tt, record s { jobs = s.jobs ++ queued ∷ [] })
  unfolding enqueue_delivery
  enqueue_delivery-works queued s works = rw works

  enqueue_delivery-fails :
      (queued : QueuedWebhookDeliveryJob) (s : State W)
      → s.should_fail_next_enqueue ≡ true
      → enqueue_delivery queued s
        ≡ (thrown enqueue_failed, record s { should_fail_next_enqueue = false })
  unfolding enqueue_delivery
  enqueue_delivery-fails queued s fails = rw fails

  enqueue_all-works :
      (payload : WebhookEventPayload) (ws : List WebhookEndpoint) (s : State W)
      → s.should_fail_next_enqueue ≡ false
      → ((enqueue_all payload ws s).0 ≡ returned tt)
        × ((enqueue_all payload ws s).1.jobs ≡ s.jobs ++ map (first_job payload) ws)
  unfolding enqueue_all
  enqueue_all-works payload [] s works = (refl, sym (append-nil s.jobs))
  enqueue_all-works payload (w ∷ ws) s works =
      let t = record s { jobs = s.jobs ++ first_job payload w ∷ [] } in
      let (e, f) = enqueue_all-works payload ws t works in
      rw (enqueue_delivery-works (first_job payload w) s works)
        (e, f ∙ append-one s.jobs (map (first_job payload) ws) (first_job payload w))

  enqueue_all-nil :
      (payload : WebhookEventPayload) (s : State W)
      → ((enqueue_all payload [] s).0 ≡ returned tt)
        × ((enqueue_all payload [] s).1.jobs ≡ s.jobs ++ [])
  unfolding enqueue_all
  enqueue_all-nil payload s = (refl, sym (append-nil s.jobs))

  -- A queue that fails its next call loses the first job.
  enqueue_all-fails :
      (payload : WebhookEventPayload) (w : WebhookEndpoint) (ws : List WebhookEndpoint)
      (s : State W)
      → s.should_fail_next_enqueue ≡ true
      → ((enqueue_all payload (w ∷ ws) s).0 ≡ thrown enqueue_failed)
        × ((enqueue_all payload (w ∷ ws) s).1.jobs ≡ s.jobs ++ map (first_job payload) ws)
  unfolding enqueue_all
  enqueue_all-fails payload w ws s fails =
      let (e, f) =
        enqueue_all-works payload ws (record s { should_fail_next_enqueue = false }) refl in
      rw (enqueue_delivery-fails (first_job payload w) s fails) (refl, f)

-- What `Promise.all` of the calls returns or throws, and the jobs that are queued.
abbrev pub enqueued :
    Bool
    → WebhookEventPayload
    → List WebhookEndpoint
    → Except WebhookError (List WebhookEventPayload) × List QueuedWebhookDeliveryJob
enqueued fails payload [] = (returned [], [])
enqueued false payload (w ∷ ws) =
    (returned (map (λ _. payload) (w ∷ ws)), map (first_job payload) (w ∷ ws))
enqueued true payload (w ∷ ws) = (thrown enqueue_failed, map (first_job payload) ws)

-- The type is one of these.
abbrev pub Listed : WebhookEventType → List WebhookEventType → Type 0
Listed event_type [] = ⊥
Listed event_type (t ∷ types) = (t ≡ event_type) ⊎ Listed event_type types

-- The endpoint belongs to the event's organization, is enabled and lists the event's type.
abbrev pub Wants : WebhookEventPayload → WebhookEndpoint → Type 0
Wants payload w =
    (w.organization_id ≡ payload.organization_id)
    × (w.enabled ≡ true)
    × Listed payload.event_type w.event_types

-- The second list has the elements of the first that satisfy P, in their order.
abbrev pub Selects :
    (WebhookEndpoint → Type 0) → List WebhookEndpoint → List WebhookEndpoint → Type 0
Selects P [] ys = ys ≡ []
Selects P (x ∷ xs) ys =
    (P x × ((zs : List WebhookEndpoint) × (ys ≡ x ∷ zs) × Selects P xs zs))
    ⊎ ((P x → ⊥) × Selects P xs ys)

same_type_iff : (t u : WebhookEventType) → (same_type t u ≡ true) ↔ (t ≡ u)
same_type_iff version_created version_created = (λ h. refl, λ h. refl)
same_type_iff version_created version_failed = (λ h. cc, λ h. absurd (cc))
same_type_iff version_created diff_breaking_detected = (λ h. cc, λ h. absurd (cc))
same_type_iff version_failed version_created = (λ h. cc, λ h. absurd (cc))
same_type_iff version_failed version_failed = (λ h. refl, λ h. refl)
same_type_iff version_failed diff_breaking_detected = (λ h. cc, λ h. absurd (cc))
same_type_iff diff_breaking_detected version_created = (λ h. cc, λ h. absurd (cc))
same_type_iff diff_breaking_detected version_failed = (λ h. cc, λ h. absurd (cc))
same_type_iff diff_breaking_detected diff_breaking_detected = (λ h. refl, λ h. refl)

any-Listed :
    (event_type : WebhookEventType) (types : List WebhookEventType)
    → any (λ t. same_type t event_type) types ≡ true
    → Listed event_type types
any-Listed event_type [] h = cc
any-Listed event_type (t ∷ types) h = elim (Bool-cases (same_type t event_type)) [
  | inl same ↦ inl ((same_type_iff t event_type).0 same)
  | inr other ↦ inr (any-Listed event_type types (simp other at h))
]

Listed-any :
    (event_type : WebhookEventType) (types : List WebhookEventType)
    → Listed event_type types
    → any (λ t. same_type t event_type) types ≡ true
Listed-any event_type [] h = absurd h
Listed-any event_type (t ∷ types) (inl e) = let same = (same_type_iff t event_type).1 e in simp same
Listed-any event_type (t ∷ types) (inr later) = ground (arith, Listed-any event_type types later)

&&-parts : (a b c : Bool) → (a && (b && c)) ≡ true → (a ≡ true) × (b ≡ true) × (c ≡ true)
&&-parts true true true h = (refl, refl, refl)
&&-parts true true false h = cc
&&-parts true false c h = cc
&&-parts false b c h = cc

is_subscribed_iff :
    (payload : WebhookEventPayload) (w : WebhookEndpoint)
    → (is_subscribed payload.organization_id payload.event_type w ≡ true) ↔ Wants payload w
is_subscribed_iff payload w = (
  λ h.
      let (own, on, listed) = &&-parts _ _ _ h in
      (
        (eq_iff w.organization_id payload.organization_id).0 own,
        on,
        any-Listed payload.event_type w.event_types listed,
      ),
  λ wants.
      let own = (eq_iff w.organization_id payload.organization_id).1 wants.0 in
      let on = wants.1 in
      let listed = Listed-any payload.event_type w.event_types wants.2 in rw (own, on) listed,
)

Selects-filter :
    (test : WebhookEndpoint → Bool) (P : WebhookEndpoint → Type 0)
    (iff : (w : WebhookEndpoint) → (test w ≡ true) ↔ P w) (ws : List WebhookEndpoint)
    → Selects P ws (filter test ws)
Selects-filter test P iff [] = refl
Selects-filter test P iff (w ∷ ws) = elim (Bool-cases (test w)) [
  | inl passed ↦
      rw passed (inl ((iff w).0 passed, (filter test ws, refl, Selects-filter test P iff ws)))
  | inr failed ↦
      rw failed (inr (λ p. never_both ((iff w).1 p) failed, Selects-filter test P iff ws))
]
  where
    never_both : {b : Bool} → b ≡ true → b ≡ false → ⊥
    never_both p q = cc

enqueue_all-enqueued :
    {W : Type 0} (payload : WebhookEventPayload) (ws : List WebhookEndpoint) (s : State W)
    → (((enqueue_all payload ws s).0 >>= (λ _. returned (map (λ _. payload) ws)))
        ≡ (enqueued s.should_fail_next_enqueue payload ws).0)
      × ((enqueue_all payload ws s).1.jobs
          ≡ s.jobs ++ (enqueued s.should_fail_next_enqueue payload ws).1)
enqueue_all-enqueued payload [] s = let (e, f) = enqueue_all-nil payload s in (rw e, f)
enqueue_all-enqueued payload (w ∷ ws) s = elim (Bool-cases s.should_fail_next_enqueue) [
  | inl fails ↦
      let (e, f) = enqueue_all-fails payload w ws s fails in (simp (e, fails), simp (f, fails))
  | inr works ↦
      let (e, f) = enqueue_all-works payload (w ∷ ws) s works in (simp (e, works), simp (f, works))
]

-- An event is queued, as a first attempt, for exactly the endpoints that belong to its organization,
-- are enabled and list its type, in their order; the result has one entry for each of them. If the
-- queue fails, the call throws, and only the job that failed is missing.
pub enqueue_event-enqueued :
    {W : Type 0} (payload : WebhookEventPayload) (s : State W)
    → (webhooks : List WebhookEndpoint) × Selects (Wants payload) s.webhook_endpoints webhooks
      × ((enqueue_event payload s).0 ≡ (enqueued s.should_fail_next_enqueue payload webhooks).0)
      × ((enqueue_event payload s).1.jobs
          ≡ s.jobs ++ (enqueued s.should_fail_next_enqueue payload webhooks).1)
unfolding enqueue_event list_subscribed_webhooks
enqueue_event-enqueued payload s =
    let test = is_subscribed payload.organization_id payload.event_type in
    let webhooks = filter test s.webhook_endpoints in
    let (e, f) = enqueue_all-enqueued payload webhooks s in
    (
      webhooks,
      Selects-filter test (Wants payload) (is_subscribed_iff payload) s.webhook_endpoints,
      e,
      f,
    )
