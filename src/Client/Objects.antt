-- ===== src/Client/Objects.antt =====
-- What holds after each operation on one object, with what it publishes and what it keeps.
use Prim.Native.String.{String}
use mqmgateway.Address.{ModbusMessageBase}
use mqmgateway.Base.{
  ℕ, ◌≡◌, refl, subst, inl, inr, Bool, true, false, not, Option, none, some, List, if◌then◌else◌,
  Bool-cases, Option-cases,
}
use mqmgateway.Client.{publish, MqttClient, returned, failed, call, try_call, set_object, same_flag}
use mqmgateway.Client.Ends.{Ends, on_return, on_publish_failed, on_failed, Ends-and_then, if-Ends}
use mqmgateway.Client.Process.{publish_new_state, process_object, fail_object, take_object_down}
use mqmgateway.Client.Publish.{publish_state, flag_payload, publish_availability_change}
use mqmgateway.Command.{MsgRegisterValues}
use mqmgateway.Executor.Reading.{same-==}
use mqmgateway.Object.{AvailableFlag, not_set, available}
use mqmgateway.Object.Payload.{generate}
use mqmgateway.Object.State.{
  MqttObject, update_register_values, update_registers_read_failed, set_modbus_network_state,
  need_state_republish,
}
use mqmgateway.Poll.{PublishMode, on_change, every_poll, once}

-- `Kept` is what the operations leave of the object, apart from the payload and the time of the last
-- message. A state is published only if the object is available, an availability only if it is set.
module _ (P : MqttClient → Type 0) (ref : ℕ) (Kept : MqttObject → Type 0)
    (kept : (c : MqttClient) → P c → Kept (c.store ref))
    (keep_payload : (o : MqttObject) (m : List ℕ)
      → Kept o
      → Kept (record o { last_published_payload = m }))
    (keep_time : (o : MqttObject) (m : List ℕ) (t : Option ℕ)
      → Kept o
      → Kept (record o { last_published_payload = m; last_publish_time = t }))
    (on_state : (payload : List ℕ) (retain : Bool) (c : MqttClient)
      → P c
      → same_flag (c.store ref).is_available available ≡ true
      → P (call (publish (c.store ref).state_topic payload retain) c))
    (on_availability : (o : MqttObject) (c : MqttClient)
      → P c
      → Kept o
      → same_flag o.is_available not_set ≡ false
      → P (call (publish o.availability_topic (flag_payload o.is_available) true) c))
    (on_set : (o : MqttObject) (c : MqttClient) → P c → Kept o → P (set_object ref o c)) where
  try_state-Ends :
      (payload : List ℕ) (retain : Bool) (c : MqttClient)
      → P c
      → same_flag (c.store ref).is_available available ≡ true
      → Ends P (try_call (publish (c.store ref).state_topic payload retain) c)
  try_state-Ends payload retain c h a =
      if-Ends (c.accepts (publish (c.store ref).state_topic payload retain))
        (on_return (on_state payload retain c h a)) (on_publish_failed h)

  pub publish_state-Ends :
      (now : ℕ) (force : Bool) (c : MqttClient) → P c → Ends P (publish_state now ref force c)
  unfolding publish_state
  publish_state-Ends now force c h =
      let o = c.store ref in
      elim (Bool-cases (same_flag o.is_available available)) [
        | inr a ↦ rw a (on_return h)
        | inl a ↦ elim (Option-cases (generate c.json_text o)) [
          | inl e ↦ rw (a, e) (if-Ends _ (on_return h) on_failed)
          | inr (m, e) ↦
              rw (a, e)
                (if-Ends _ (on_return h) (
                  if-Ends _
                    (Ends-and_then P _
                      (λ d k. on_return (on_set _ d k (keep_time o m (some now) (kept c h))))
                      (try_state-Ends _ _ c h a))
                    (on_return h)))
        ]
      ]

  pub publish_availability_change-P :
      (o : MqttObject) (c : MqttClient) → P c → Kept o → P (publish_availability_change o c)
  unfolding publish_availability_change
  publish_availability_change-P o c h q =
      let k = publish o.availability_topic (flag_payload o.is_available) true in
      elim (Bool-cases (same_flag o.is_available not_set)) [
        | inl e ↦ rw e h
        | inr e ↦ rw e (elim (Bool-cases (c.accepts k)) [
          | inl a ↦ rw a (on_availability o c h q e)
          | inr a ↦ rw a h
        ])
      ]

  remember-Ends :
      (o : MqttObject) (generated : Option (List ℕ)) (c : MqttClient)
      → P c
      → Kept o
      → Ends P (elim generated [
        | none ↦ failed
        | some message ↦ returned (set_object ref (record o { last_published_payload = message }) c)
      ])
  remember-Ends o none c h q = on_failed
  remember-Ends o (some message) c h q = on_return (on_set _ c h (keep_payload o message q))

  every_poll-Ends :
      (now : ℕ) (mode : PublishMode) (c : MqttClient)
      → P c
      → Ends P (elim mode [
        | every_poll ↦ publish_state now ref true c
        | on_change ↦ returned c
        | once ↦ returned c
      ])
  every_poll-Ends now every_poll c h = publish_state-Ends now true c h
  every_poll-Ends now on_change c h = on_return h
  every_poll-Ends now once c h = on_return h

  publish_new_state-Ends :
      (now : ℕ) (old : AvailableFlag) (c : MqttClient)
      → P c
      → same_flag (c.store ref).is_available available ≡ true
      → Ends P (publish_new_state now ref old c)
  unfolding publish_new_state
  publish_new_state-Ends now old c h a =
      let o = c.store ref in
      if-Ends _ (publish_state-Ends now true c h) (
        Ends-and_then P _ (every_poll-Ends now o.publish_mode) (
          if-Ends _
            (Ends-and_then P _ (λ d k. remember-Ends o _ d k (kept c h)) (try_state-Ends _ _ c h a))
            (on_return h)))

  pub process_object-Ends :
      (network : String) (msg : MsgRegisterValues) (now : ℕ) (c : MqttClient)
      → ((o : MqttObject)
          → update_register_values network msg (c.store ref) ≡ some o
          → P (set_object ref o c))
      → Ends P (process_object network msg now ref c)
  unfolding process_object
  process_object-Ends network msg now c set =
      elim (Option-cases (update_register_values network msg (c.store ref))) [
        | inl e ↦ rw (e, process_object) on_failed
        | inr (o, e) ↦
            let old = (c.store ref).is_available in
            let stored : (set_object ref o c).store ref ≡ o = rw (same-== ref) refl in
            rw (e, process_object)
              (if-Ends (not (same_flag old o.is_available))
                (Ends-and_then P
                  (λ after. returned (publish_availability_change (after.store ref) after))
                  (λ d k. on_return (publish_availability_change-P (d.store ref) d k (kept d k)))
                  (elim (Bool-cases (same_flag o.is_available available)) [
                    | inl a ↦ rw a (publish_new_state-Ends now old _ (set o e) (rw stored a))
                    | inr a ↦ rw a (on_return (set o e))
                  ]))
                (publish_state-Ends now (need_state_republish now o) _ (set o e)))
      ]

  if-P : (t : Bool) (c d : MqttClient) → P c → P d → P (if t then c else d)
  if-P true c d h k = h
  if-P false c d h k = k

  pub fail_object-Ends :
      (network : String) (base : ModbusMessageBase) (now : ℕ) (c : MqttClient)
      → ((o : MqttObject)
          → update_registers_read_failed network base (c.store ref) ≡ some o
          → P (set_object ref o c))
      → Ends P (fail_object network base now ref c)
  unfolding fail_object
  fail_object-Ends network base now c set =
      elim (Option-cases (update_registers_read_failed network base (c.store ref))) [
        | inl e ↦ rw (e, fail_object) on_failed
        | inr (o, e) ↦
            rw (e, fail_object)
              (Ends-and_then P _
                (λ d k.
                  on_return
                    (if-P _ _ d (publish_availability_change-P (d.store ref) d k (kept d k)) k))
                (publish_state-Ends now false _ (set o e)))
      ]

  pub take_object_down-Ends :
      (network : String) (is_up : Bool) (c : MqttClient)
      → ((o : MqttObject) (changed : Bool)
          → set_modbus_network_state network is_up (c.store ref) ≡ some (o, changed)
          → P (set_object ref o c))
      → Ends P (take_object_down network is_up ref c)
  unfolding take_object_down
  take_object_down-Ends network is_up c set =
      elim (Option-cases (set_modbus_network_state network is_up (c.store ref))) [
        | inl e ↦ rw (e, take_object_down) on_failed
        | inr ((o, changed), e) ↦
            let h = set o changed e in
            let stored : (set_object ref o c).store ref ≡ o = rw (same-== ref) refl in
            rw (e, take_object_down)
              (on_return
                (if-P _ _ _ (publish_availability_change-P o _ h (subst Kept stored (kept _ h))) h))
      ]
