-- ===== src/Tests/Action.antt =====
-- The reply outbox at concrete rows.
use wazzap_agent_go.Prelude.{◌≤◌, ◌≡◌, ◌⊎◌, refl, true, none, some, ok, err, [], ◌∷◌, text}
use wazzap_agent_go.Errors.{permission_denied, provider_failure}
use wazzap_agent_go.Turn.{TurnState, DeliveryStatus}
use wazzap_agent_go.Outbox.Row.{pending, executing, World, fine}
use wazzap_agent_go.Outbox.Once.{System, Reach, here, next, enter, act, start_system}
use wazzap_agent_go.Outbox.Action.{Reply}
use wazzap_agent_go.Outbox.Action.Claim.{action_machine, send_once}
use wazzap_agent_go.Outbox.Action.Views.{Agrees, views_agree}
use wazzap_agent_go.Outbox.Action.Outcome.{
  MaySend, reply_settled, reply_returns, reply_sent_cases, reply_succeeds, reply_denied,
  reply_unknown, reply_no_error,
}
use wazzap_agent_go.Outbox.Action

abbrev planned : World
planned = record { row = record { state = pending; receipt = none; last_error = none }; sent = 0 }

abbrev reply : Reply
reply = record {
  world = planned;
  turn = TurnState.response_planned;
  delivery = DeliveryStatus.pending;
}

abbrev sends : Action.Env
sends = record {
  ref_valid = true;
  load_error = none;
  authorize_error = none;
  sender_ready = true;
  start_io = fine;
  sent = ok (text "id");
  complete_io = fine;
  record_io = fine;
}

-- The send fails at the provider.
abbrev loses : Action.Env
loses = record sends { sent = err provider_failure }

abbrev denies : Action.Env
denies = record sends { authorize_error = some permission_denied }

-- Two calls on one reply, the second of which stands after its Load while the first runs to its end.
abbrev two_calls : System action_machine
two_calls = record {
  store = (Action.dispatch sends reply).1;
  threads = (Action.dispatch sends reply).0 ∷ Action.loaded pending ∷ [];
}

two_calls-Reach : Reach action_machine (start_system action_machine reply) two_calls
unfolding Action.dispatch
two_calls-Reach =
    next
      (next
        (next
          (next
            (next
              (next (next (next here (enter refl)) (enter refl))
                (act (Action.entered ∷ []) [] Action.entered sends refl refl))
              (act [] (Action.loaded pending ∷ []) Action.entered sends refl refl))
            (act [] (Action.loaded pending ∷ []) (Action.loaded pending) sends refl refl))
          (act [] (Action.loaded pending ∷ []) Action.authorized sends refl refl))
        (act [] (Action.loaded pending ∷ []) Action.claimed sends refl refl))
      (act [] (Action.loaded pending ∷ []) (Action.answered (ok (text "id"))) sends refl refl)

send_once_example : two_calls.store.world.sent ≤ 1
send_once_example = send_once reply two_calls (refl, refl) two_calls-Reach

views_agree_example : Agrees two_calls.store
views_agree_example = views_agree reply two_calls refl two_calls-Reach

abbrev sends_MaySend : MaySend sends reply
sends_MaySend = record {
  is_valid = refl;
  is_loaded = refl;
  is_unclaimed = refl;
  is_authorized = refl;
  is_ready = refl;
  is_claimed = refl;
}

abbrev loses_MaySend : MaySend loses reply
loses_MaySend = record {
  is_valid = refl;
  is_loaded = refl;
  is_unclaimed = refl;
  is_authorized = refl;
  is_ready = refl;
  is_claimed = refl;
}

-- A reply that another call is sending.
abbrev taken : Reply
taken = record {
  world = record {
    row = record { state = executing; receipt = none; last_error = none };
    sent = 1;
  };
  turn = TurnState.delivery_pending;
  delivery = DeliveryStatus.pending;
}

reply_sent_cases_example :
    MaySend sends reply × ((Action.dispatch sends reply).1.world.sent ≡ 1)
    ⊎ (¬ MaySend sends reply) × ((Action.dispatch sends reply).1.world.sent ≡ 0)
reply_sent_cases_example = reply_sent_cases sends reply

sends_no_error : Action.Outcome.error_of (Action.dispatch sends reply).0 ≡ none
unfolding Action.dispatch
sends_no_error = refl
