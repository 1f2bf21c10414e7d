-- ===== src/Tests/Effect.antt =====
-- The effect outbox at concrete rows.
use wazzap_agent_go.Prelude.{◌≤◌, ◌≡◌, ◌⊎◌, refl, true, false, none, some, ok, [], ◌∷◌, text}
use wazzap_agent_go.Errors.{unknown_outcome}
use wazzap_agent_go.Outbox.Row.{resolve_interrupted, pending, unknown, World, fine}
use wazzap_agent_go.Outbox.Once.{System, Reach, here, next, enter, act, restart, start_system}
use wazzap_agent_go.Outbox.Effect.Claim.{effect_machine, dispatch_once}
use wazzap_agent_go.Outbox.Effect.Outcome.{MayRun, error_of, dispatch-sent_cases}
use wazzap_agent_go.Outbox.Effect

abbrev planned : World
planned = record { row = record { state = pending; receipt = none; last_error = none }; sent = 0 }

abbrev runs : Effect.Env
runs = record {
  ref_error = none;
  load_error = none;
  sender_ready = true;
  is_command = true;
  executor_bound = true;
  authorize_error = none;
  reply_error = none;
  reply_delivered = true;
  start_io = fine;
  execution = ok (text "id");
  complete_io = fine;
  record_io = fine;
}

-- A model's effect whose reply is not sent yet.
abbrev early : Effect.Env
early = record runs { is_command = false; reply_delivered = false }

runs_authorized : Effect.authorize_error runs ≡ none
unfolding Effect.authorize_error
runs_authorized = refl

early_authorized : Effect.authorize_error early ≡ none
unfolding Effect.authorize_error
early_authorized = refl

runs_no_error : error_of (Effect.dispatch runs planned).0 ≡ none
unfolding Effect.dispatch
runs_no_error = refl

abbrev runs_MayRun : MayRun runs planned
runs_MayRun = record {
  is_valid = refl;
  is_loaded = refl;
  is_unclaimed = refl;
  is_ready = refl;
  is_authorized = runs_authorized;
  is_known = refl;
  follows_reply = refl;
  is_claimed = refl;
}

-- A call that stopped right after its claim, a restart, and another call that loads the row.
abbrev cut_off : System effect_machine
cut_off = record {
  store = record {
    row = record { state = unknown; receipt = none; last_error = some unknown_outcome };
    sent = 0;
  };
  threads = Effect.loaded unknown ∷ [];
}

cut_off-Reach : Reach effect_machine (start_system effect_machine planned) cut_off
unfolding Effect.dispatch resolve_interrupted
cut_off-Reach =
    next
      (next
        (next
          (next
            (next (next (next here (enter refl)) (act [] [] Effect.entered runs refl refl))
              (act [] [] (Effect.loaded pending) runs refl refl))
            (act [] [] Effect.authorized runs refl refl))
          (restart refl))
        (enter refl))
      (act [] [] Effect.entered runs refl refl)

dispatch_once_example : cut_off.store.sent ≤ 1
dispatch_once_example = dispatch_once planned cut_off (refl, refl) cut_off-Reach

dispatch-sent_cases_example :
    MayRun runs planned × ((Effect.dispatch runs planned).1.sent ≡ 1)
    ⊎ (¬ MayRun runs planned) × ((Effect.dispatch runs planned).1.sent ≡ 0)
dispatch-sent_cases_example = dispatch-sent_cases runs planned
