-- ===== src/Webhook/Tests.antt =====
-- The dispatcher of internal/webhook/dispatcher.go with one concrete target.
use emby_go.Base.{
  ◌≤◌, ◌≡◌, ◌↔◌, refl, Bool, true, false, List, [], ◌∷◌, Option, some, String, ltb, ◌==◌,
  if◌then◌else◌, length,
}
use emby_go.Webhook.Dispatch.{
  Target, ResultStatus, Fate, subscribed, matched, send, build, new_dispatcher,
}
use emby_go.Webhook.Results.{delivered, send_lem, AllBuilt, new_dispatcher_lem}

abbrev home_target : Target
home_target = record {
  id = "wh_1";
  name = "home";
  enabled = true;
  url = "https://example.org";
  events = "item.deleted" ∷ [];
  format = "json";
  timeout_seconds = 5;
  allow_private = false;
}

abbrev one_target : List Target
one_target = home_target ∷ []

abbrev every_event : String → Bool
every_event event = true

abbrev timed_out : Target → Fate
timed_out t = Fate.broken "timeout"

send_lem_example :
    ((send every_event "item.deleted" timed_out (some one_target)).status ≡ (
      if length (matched every_event "item.deleted" one_target) == 0
      then ResultStatus.disabled
      else if delivered every_event timed_out (matched every_event "item.deleted" one_target)
          == length (matched every_event "item.deleted" one_target)
      then ResultStatus.all_sent
      else if ltb 0
          (delivered every_event timed_out (matched every_event "item.deleted" one_target))
      then ResultStatus.partial
      else ResultStatus.all_failed))
    × (length (send every_event "item.deleted" timed_out (some one_target)).targets
        ≡ length (matched every_event "item.deleted" one_target))
    × (((send every_event "item.deleted" timed_out (some one_target)).targets ≡ [])
        ↔ (subscribed every_event "item.deleted" (some one_target) ≡ false))
send_lem_example = send_lem every_event "item.deleted" timed_out one_target

-- Every target is in normal form and has a sender.
abbrev as_it_is : Target → Option Target
as_it_is t = some t

abbrev always : Target → Bool
always t = true

made : new_dispatcher as_it_is always one_target ≡ some one_target
unfolding new_dispatcher build
made = refl

new_dispatcher_lem_example :
    (length one_target ≤ 10) × AllBuilt as_it_is always one_target one_target
new_dispatcher_lem_example = new_dispatcher_lem as_it_is always one_target one_target made
