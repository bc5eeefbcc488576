-- ===== src/Client/Publish.antt =====
-- What mqttclient.cpp publishes of an object, `publishAll`, and the callback `onConnect`.
use mqmgateway.Base.{
  ℕ, Bool, true, false, not, ◌||◌, none, some, List, [], ◌∷◌, ◌++◌, ◌==◌, if◌then◌else◌,
}
use mqmgateway.Client.{
  connected_state, rpc_disabled, rpc_read, rpc_read_write, subscribe, publish, MqttObjectCommand,
  MqttClient, Outcome, returned, failed, and_then, call, try_call, set_object,
  send_mqtt_network_is_up, same_flag,
}
use mqmgateway.Object.{AvailableFlag, not_set, unavailable, available, MqttObjectRegisterIdent}
use mqmgateway.Object.Payload.{generate}
use mqmgateway.Object.State.{MqttObject}
use mqmgateway.Poll.{on_change, every_poll, once}
use mqmgateway.Value.{same_text}

-- An object in the mode `once` that was published already.
abbrev pub is_published_once : MqttObject → Bool
is_published_once o = elim o.publish_mode [
  | once ↦ elim o.last_publish_time [ none ↦ false | some time ↦ true ]
  | on_change ↦ false
  | every_poll ↦ false
]

-- `publishState`: what an object has to publish at `now`, if anything.
unfoldable pub publish_state : ℕ → ℕ → Bool → MqttClient → Outcome
unfolding generate
publish_state now ref force c =
    let o = c.store ref in
    if not (same_flag o.is_available available) || is_published_once o
    then returned c
    else elim (generate c.json_text o) [
      | none ↦ failed
      | some message ↦
          if not (same_text message o.last_published_payload) || force
          then and_then (try_call (publish o.state_topic message o.retain) c) (λ next. returned (
              set_object ref
                (record o { last_published_payload = message; last_publish_time = some now }) next))
          else returned c
    ]

abbrev pub flag_payload : AvailableFlag → List ℕ
flag_payload available = 49 ∷ []
flag_payload unavailable = 48 ∷ []
flag_payload not_set = 48 ∷ []

-- `publishAvailabilityChange` logs a `MosquittoException`.
unfoldable pub publish_availability_change : MqttObject → MqttClient → MqttClient
publish_availability_change o c =
    if same_flag o.is_available not_set
    then c
    else (let k = publish o.availability_topic (flag_payload o.is_available) true in
        if c.accepts k then call k c else c)

abbrev pub member_ref : ℕ → List ℕ → Bool
member_ref r [] = false
member_ref r (q ∷ qs) = (r == q) || member_ref r qs

-- The sets of `publishAll` and `processModbusNetworkState`: each object once, at its first place.
-- `seen` are those before.
unfoldable pub once_each : List ℕ → List ℕ → List ℕ
once_each seen [] = []
once_each seen (r ∷ rs) =
    if member_ref r seen then once_each seen rs else r ∷ once_each (r ∷ seen) rs

-- The objects of the entries that pass a test, in the order of the map.
unfoldable pub refs_where :
    (MqttObjectRegisterIdent → Bool) → List (MqttObjectRegisterIdent × List ℕ) → List ℕ
refs_where p [] = []
refs_where p ((ident, refs) ∷ entries) =
    if p ident then refs ++ refs_where p entries else refs_where p entries

-- A loop over objects of which each step may throw.
unfoldable pub each_object : (ℕ → MqttClient → Outcome) → List ℕ → MqttClient → Outcome
each_object f [] c = returned c
each_object f (r ∷ rs) c = and_then (f r c) (each_object f rs)

abbrev pub publish_object : ℕ → ℕ → MqttClient → Outcome
publish_object now ref c =
    and_then
      (if same_flag (c.store ref).is_available available
        then publish_state now ref true c
        else returned c)
      (λ next. returned (publish_availability_change (next.store ref) next))

unfoldable pub publish_all : ℕ → MqttClient → Outcome
unfolding publish_state publish_availability_change once_each refs_where each_object
publish_all now c =
    each_object (publish_object now) (once_each [] (refs_where (λ ident. true) c.objects)) c

abbrev pub subscribe_all : List MqttObjectCommand → MqttClient → MqttClient
subscribe_all [] c = c
subscribe_all (cmd ∷ cmds) c = subscribe_all cmds (call (subscribe cmd.topic) c)

-- The callback `onConnect`.
unfoldable pub on_connect : ℕ → MqttClient → Outcome
unfolding publish_all
on_connect now c =
    let subscribed = subscribe_all c.commands c in
    let ready : MqttClient = elim c.rpc_mode [
      | rpc_disabled ↦ subscribed
      | rpc_read ↦ call (subscribe c.rpc_request_topic) subscribed
      | rpc_read_write ↦ call (subscribe c.rpc_request_topic) subscribed
    ] in
    and_then (publish_all now (record ready { connection_state = connected_state }))
      (λ next. returned (send_mqtt_network_is_up true next))
