-- ===== src/Webhook/Dispatch.antt =====
-- The dispatcher of webhook events (internal/webhook/dispatcher.go), with the subscription of a sender
-- (internal/webhook/webhook.go).
use emby_go.Base.{
  ℕ, suc, Bool, true, false, ◌&&◌, ◌||◌, List, [], ◌∷◌, Option, none, some, String, ltb, ◌==◌,
  if◌then◌else◌, ite, length, map, string_discrete,
}

abbrev pub max_targets : ℕ
max_targets = 10

pub record Target : Type 0 where
  pub id : String
  pub name : String
  pub enabled : Bool
  pub url : String
  pub events : List String
  pub format : String
  pub timeout_seconds : ℕ
  pub allow_private : Bool

pub data TargetStatus : Type 0 where
  sent failed skipped_budget : TargetStatus

pub data ResultStatus : Type 0 where
  disabled all_sent all_failed partial : ResultStatus

pub record TargetOutcome : Type 0 where
  pub id : String
  pub name : String
  pub status : TargetStatus
  pub error_code : String

pub record Result : Type 0 where
  pub status : ResultStatus
  pub targets : List TargetOutcome

-- What becomes of one delivery: no budget is left before it begins, or the sender ends without an error
-- or with the class of one.
pub data Fate : Type 0 where
  no_budget delivered : Fate
  broken : String → Fate

unfoldable pub contains : String → List String → Bool
contains event [] = false
contains event (e ∷ l) = ite (string_discrete e event) true (contains event l)

-- `valid` is the test of an event's name (internal/config).
module _ (valid : String → Bool) where
  unfoldable pub wants : String → Target → Bool
  unfolding contains
  wants event t = t.enabled && contains event t.events

  unfoldable pub any_wants : String → List Target → Bool
  unfolding wants
  any_wants event [] = false
  any_wants event (t ∷ l) = wants event t || any_wants event l

  -- `Subscribed`; none is a dispatcher that is closed.
  unfoldable pub subscribed : String → Option (List Target) → Bool
  unfolding any_wants
  subscribed event none = false
  subscribed event (some targets) = valid event && any_wants event targets

  -- `Subscribed` of the sender of a target (internal/webhook/webhook.go). A sender that is not enabled
  -- has no client, and its events are those of the target, of which `NormalizeTarget` wants one.
  unfoldable pub sender_subscribed : String → Target → Bool
  unfolding contains
  sender_subscribed event t = t.enabled && valid event && contains event t.events

  -- The targets that an event goes to.
  unfoldable pub matched : String → List Target → List Target
  unfolding sender_subscribed
  matched event [] = []
  matched event (t ∷ l) =
      let rest = matched event l in
      if t.enabled && sender_subscribed event t then t ∷ rest else rest

  unfoldable pub outcome : Target → Fate → TargetOutcome
  outcome t Fate.no_budget = record {
    id = t.id;
    name = t.name;
    status = TargetStatus.skipped_budget;
    error_code = "budget_exhausted";
  }
  outcome t Fate.delivered = record {
    id = t.id;
    name = t.name;
    status = TargetStatus.sent;
    error_code = "";
  }
  outcome t (Fate.broken code) = record {
    id = t.id;
    name = t.name;
    status = TargetStatus.failed;
    error_code = code;
  }

  unfoldable pub count_sent : List TargetOutcome → ℕ
  count_sent [] = 0
  count_sent (o ∷ l) =
      let rest = count_sent l in
      elim o.status [
        | TargetStatus.sent ↦ suc rest
        | TargetStatus.failed ↦ rest
        | TargetStatus.skipped_budget ↦ rest
      ]

  unfoldable pub status_of : List TargetOutcome → ResultStatus
  unfolding count_sent
  status_of outcomes =
      if count_sent outcomes == length outcomes
      then ResultStatus.all_sent
      else if ltb 0 (count_sent outcomes)
      then ResultStatus.partial
      else ResultStatus.all_failed

  -- `Send`, with what becomes of the delivery to each target; each writes its own outcome.
  unfoldable pub send : String → (Target → Fate) → Option (List Target) → Result
  unfolding matched
  send event fate none = record { status = ResultStatus.disabled; targets = [] }
  send event fate (some targets) = elim (matched event targets) [
    | [] ↦ record { status = ResultStatus.disabled; targets = [] }
    | t ∷ l ↦
        let outcomes = map (λ (u : Target). outcome u (fate u)) (t ∷ l) in
        record { status = status_of outcomes; targets = outcomes }
  ]

-- `normalize` is `NormalizeTarget`, and `can_send` whether the sender of a target can be made.
module _ (normalize : Target → Option Target) (can_send : Target → Bool) where
  unfoldable pub build : List Target → Option (List Target)
  build [] = some []
  build (t ∷ l) =
      let rest = build l in
      elim (normalize t) [
        | none ↦ none
        | some spec ↦
            if can_send spec
            then elim rest [ none ↦ none | some specs ↦ some (spec ∷ specs) ]
            else none
      ]

  -- `NewDispatcher`: every target or none.
  unfoldable pub new_dispatcher : List Target → Option (List Target)
  unfolding build
  new_dispatcher targets = if ltb max_targets (length targets) then none else build targets
