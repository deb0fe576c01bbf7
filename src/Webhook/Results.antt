-- ===== src/Webhook/Results.antt =====
-- What the result of a webhook event says (internal/webhook/dispatcher.go).
use emby_go.Base.{
  ℕ, suc, ◌≤◌, ◌≡◌, ◌↔◌, ◌⊎◌, refl, ap, ◌∙◌, inl, inr, Bool, true, false, ◌&&◌, List, [], ◌∷◌,
  Option, none, some, String, ltb, ◌==◌, if◌then◌else◌, length, map, arith, Option-cases,
}
use emby_go.Webhook.Dispatch.{
  Target, ResultStatus, TargetOutcome, Fate, any_wants, wants, sender_subscribed, subscribed,
  matched, outcome, count_sent, status_of, send, build, new_dispatcher,
}

module _ (valid : String → Bool) where
  -- The number of deliveries that ended without an error.
  unfoldable pub delivered : (Target → Fate) → List Target → ℕ
  delivered fate [] = 0
  delivered fate (t ∷ l) = elim (fate t) [
    | Fate.no_budget ↦ delivered fate l
    | Fate.delivered ↦ suc (delivered fate l)
    | Fate.broken code ↦ delivered fate l
  ]

  abbrev outcomes : (Target → Fate) → List Target → List TargetOutcome
  outcomes fate = map (λ (u : Target). outcome valid u (fate u))

  count-outcomes :
      (fate : Target → Fate) (l : List Target)
      → count_sent valid (outcomes fate l) ≡ delivered fate l
  unfolding count_sent delivered outcome
  count-outcomes fate [] = refl
  count-outcomes fate (t ∷ l) = ground (arith, count-outcomes fate l)

  length-outcomes : (fate : Target → Fate) (l : List Target) → length (outcomes fate l) ≡ length l
  length-outcomes fate [] = refl
  length-outcomes fate (t ∷ l) = ap suc (length-outcomes fate l)

  matched-any :
      (event : String) (targets : List Target)
      → (matched valid event targets ≡ [])
        ↔ ((valid event && any_wants valid event targets) ≡ false)
  unfolding matched any_wants wants sender_subscribed
  matched-any event [] = ground arith
  matched-any event (t ∷ l) = ground (arith, matched-any event l)

  List-cases : (l : List Target) → (l ≡ []) ⊎ ((t : Target) × (k : List Target) × (l ≡ t ∷ k))
  List-cases [] = inl refl
  List-cases (t ∷ k) = inr (t, k, refl)

  send-status :
      (event : String) (fate : Target → Fate) (targets : List Target)
      → ((send valid event fate (some targets)).status ≡ (
          if length (matched valid event targets) == 0
          then ResultStatus.disabled
          else if delivered fate (matched valid event targets)
              == length (matched valid event targets)
          then ResultStatus.all_sent
          else if ltb 0 (delivered fate (matched valid event targets))
          then ResultStatus.partial
          else ResultStatus.all_failed))
        × (length (send valid event fate (some targets)).targets
            ≡ length (matched valid event targets))
  unfolding send status_of
  send-status event fate targets = elim (List-cases (matched valid event targets)) [
    | inl e ↦ ground (arith, e)
    | inr (t, k, e) ↦ ground (arith, e, count-outcomes fate (t ∷ k), length-outcomes fate (t ∷ k))
  ]

  send-subscribed :
      (event : String) (fate : Target → Fate) (dispatcher : Option (List Target))
      → ((send valid event fate dispatcher).targets ≡ [])
        ↔ (subscribed valid event dispatcher ≡ false)
  unfolding send subscribed
  send-subscribed event fate none = ground arith
  send-subscribed event fate (some targets) = elim (List-cases (matched valid event targets)) [
    | inl e ↦ ground (arith, e, matched-any event targets)
    | inr (t, k, e) ↦ ground (arith, e, matched-any event targets)
  ]

  -- The result of an event: disabled if it goes to no target, sent if every delivery ended without an
  -- error, partial if some did, and failed if none did; it has one outcome for each target that the
  -- event goes to, and none exactly if the dispatcher says that the event is not subscribed to.
  pub send_lem :
      (event : String) (fate : Target → Fate) (targets : List Target)
      → ((send valid event fate (some targets)).status ≡ (
          if length (matched valid event targets) == 0
          then ResultStatus.disabled
          else if delivered fate (matched valid event targets)
              == length (matched valid event targets)
          then ResultStatus.all_sent
          else if ltb 0 (delivered fate (matched valid event targets))
          then ResultStatus.partial
          else ResultStatus.all_failed))
        × (length (send valid event fate (some targets)).targets
            ≡ length (matched valid event targets))
        × (((send valid event fate (some targets)).targets ≡ [])
            ↔ (subscribed valid event (some targets) ≡ false))
  send_lem event fate targets =
      let (status, count) = send-status event fate targets in
      (status, count, send-subscribed event fate (some targets))

module _ (normalize : Target → Option Target) (can_send : Target → Bool) where
  -- Each target is one that `normalize` makes of the one that was asked for, and has a sender.
  abbrev pub AllBuilt : List Target → List Target → Type 0
  AllBuilt [] [] = Unit {0}
  AllBuilt [] (s ∷ specs) = ⊥
  AllBuilt (t ∷ l) [] = ⊥
  AllBuilt (t ∷ l) (s ∷ specs) = (normalize t ≡ some s) × (can_send s ≡ true) × AllBuilt l specs

  build-AllBuilt :
      (targets specs : List Target)
      → build normalize can_send targets ≡ some specs
      → AllBuilt targets specs
  unfolding build
  build-AllBuilt [] [] h = tt
  build-AllBuilt [] (s ∷ specs) h = ground arith
  build-AllBuilt (t ∷ l) [] h = elim (Option-cases (normalize t)) [
    | inl e ↦ ground (arith, e)
    | inr (spec, e) ↦ elim (Option-cases (build normalize can_send l)) [
      | inl g ↦ ground (arith, e, g)
      | inr (k, g) ↦ ground (arith, e, g)
    ]
  ]
  build-AllBuilt (t ∷ l) (s ∷ specs) h = elim (Option-cases (normalize t)) [
    | inl e ↦ ground (arith, e)
    | inr (spec, e) ↦ elim (Option-cases (build normalize can_send l)) [
      | inl g ↦ ground (arith, e, g)
      | inr (k, g) ↦
          let same : k ≡ specs = ground (arith, e, g) in
          let rest = build-AllBuilt l specs (g ∙ ap some same) in
          (ground (arith, e, g), ground (arith, e, g), rest)
    ]
  ]

  -- A dispatcher that is made has at most ten targets, each the normal form of the one that was asked
  -- for, in the same order and with a sender.
  pub new_dispatcher_lem :
      (targets specs : List Target)
      → new_dispatcher normalize can_send targets ≡ some specs
      → (length targets ≤ 10) × AllBuilt targets specs
  unfolding new_dispatcher
  new_dispatcher_lem targets specs h = (ground arith, build-AllBuilt targets specs (ground arith))
