-- ===== src/Agents/Channel.antt =====
-- backend/agents/channel_node.py, and the choice of backend/ml/channel_bandit.py among channels.
use revenueguard_ai.Common.{
  ℕ, String, Bool, true, false, ◌&&◌, Option, none, some, List, [], ◌∷◌, ◌++◌, if◌then◌else◌,
  truthy, ltb, Entry, value, Outcome, returned, raised, bad_value,
}
use revenueguard_ai.Models.{
  ActionType, nudge_email, nudge_sms, nudge_whatsapp, stop, RecoveryChannel, sms, email, whatsapp,
  in_app, StrategyDecision, RecoveryState, Customer, customer_from_case, action_of_strategy,
  append_audit,
}
use revenueguard_ai.Agents.External.{External}

abbrev pub is_nudge : Option ActionType → Bool
is_nudge (some nudge_email) = true
is_nudge (some nudge_sms) = true
is_nudge (some nudge_whatsapp) = true
is_nudge _ = false

-- The truth value of a text under a key.
abbrev pub has_text : Entry String → Bool
has_text (value String.[]) = false
has_text (value s) = true
has_text _ = false

-- `whatsapp_eligible is not False`
abbrev pub not_refused : Entry Bool → Bool
not_refused (value b) = b
not_refused _ = true

-- `_eligible_channels`
unfoldable pub eligible_channels : Customer → List RecoveryChannel
eligible_channels c =
    if truthy c.opted_out
    then []
    else (if has_text c.phone then sms ∷ [] else [])
      ++ ((if has_text c.email then email ∷ [] else [])
          ++ (if has_text c.phone && not_refused c.whatsapp_eligible then whatsapp ∷ [] else []))

-- `max(eligible, key=...)`: the first of the best.
unfoldable pub best :
    (RecoveryChannel → ℕ) → RecoveryChannel → List RecoveryChannel → RecoveryChannel
best expectation c [] = c
best expectation c (d ∷ ds) =
    best expectation (if ltb (expectation c) (expectation d) then d else c) ds

-- `_ACTION_BY_CHANNEL`, where `none` is a KeyError.
unfoldable pub action_by_channel : RecoveryChannel → Option ActionType
action_by_channel email = some nudge_email
action_by_channel sms = some nudge_sms
action_by_channel whatsapp = some nudge_whatsapp
action_by_channel in_app = none

abbrev pub no_channel : StrategyDecision → StrategyDecision
no_channel d = record d {
  action_type = stop;
  channel = none;
  reasoning = "No eligible customer communication channel is available.";
  stopping_reason = some "No eligible channel";
}

abbrev pub channel_of : Option StrategyDecision → Option RecoveryChannel
channel_of none = none
channel_of (some d) = d.channel

abbrev pub with_channel : StrategyDecision → RecoveryChannel → ActionType → StrategyDecision
with_channel d channel action = record d { channel = some channel; action_type = action }

abbrev pub nudge_by :
    RecoveryState → StrategyDecision → RecoveryChannel → Option ActionType → Outcome RecoveryState
nudge_by state d channel none = raised bad_value
nudge_by state d channel (some action) = returned (record state {
  strategy = some (with_channel d channel action);
  selected_channel = some channel;
  audit_trail =
      append_audit state "channel_bandit" "select_channel"
        "Thompson Sampling selection among eligible channels." [];
})

abbrev pub nudge_among :
    External → RecoveryState → StrategyDecision → List RecoveryChannel → Outcome RecoveryState
nudge_among ext state d [] = returned (record state {
  strategy = some (no_channel d);
  selected_channel = none;
  audit_trail =
      append_audit state "channel_bandit" "select_channel"
        "No eligible customer communication channel is available." [];
})
nudge_among ext state d (c ∷ cs) =
    let channel = best (ext.expectation (customer_from_case state.case_data)) c cs in
    nudge_by state d channel (action_by_channel channel)

abbrev pub nudge : External → RecoveryState → Option StrategyDecision → Outcome RecoveryState
nudge ext state none = returned state
nudge ext state (some d) =
    nudge_among ext state d (eligible_channels (customer_from_case state.case_data))

-- An absent strategy becomes `{}`, which reads as before.
unfoldable pub select_channel : External → RecoveryState → Outcome RecoveryState
select_channel ext state =
    if is_nudge (action_of_strategy state.strategy)
    then nudge ext state state.strategy
    else returned (record state { selected_channel = channel_of state.strategy })
