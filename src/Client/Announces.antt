-- ===== src/Client/Announces.antt =====
-- A change of the availability of an object is published.
use Prim.Native.String.{String}
use mqmgateway.Address.{ModbusMessageBase}
use mqmgateway.Base.{
  ℕ, ◌≡◌, refl, sym, ap, ap₂, subst, ◌∙◌, ◌≢◌, inl, inr, Bool, true, false, some, List, [], ◌∷◌,
  ◌++◌, arith, if◌then◌else◌, Option-cases,
}
use mqmgateway.Client.{
  MqttCall, publish, MqttClient, Outcome, returned, publish_failed, failed, and_then, call,
  set_object, same_flag,
}
use mqmgateway.Client.Ends.{Ends, on_return, on_publish_failed, on_failed}
use mqmgateway.Client.Process.{publish_new_state, process_object, fail_object, take_object_down}
use mqmgateway.Client.Publish.{publish_state, flag_payload, publish_availability_change}
use mqmgateway.Client.Reports.{SameReport, Reports, handle_event, handle_event-Reports}
use mqmgateway.Command.{MsgRegisterValues}
use mqmgateway.Object.{AvailableFlag, not_set, unavailable, available}
use mqmgateway.Object.Flag.{
  ObjectEvent, values_received, operation_failed, network_changed, apply_event,
}
use mqmgateway.Object.State.{
  MqttObject, update_register_values, update_registers_read_failed, set_modbus_network_state,
}

-- The message about the flag of an object.
abbrev pub announcement : MqttObject → MqttCall
announcement o = publish o.availability_topic (flag_payload o.is_available) true

Ends-returned :
    (P : MqttClient → Type 0) (x : Outcome) (d : MqttClient) → Ends P x → x ≡ returned d → P d
Ends-returned P (returned c) d (on_return h) e = subst P (ground (arith, e)) h
Ends-returned P (publish_failed c) d (on_publish_failed h) e = absurd (ground (arith, e))
Ends-returned P failed d on_failed e = absurd (ground (arith, e))

and_then-returned :
    (x : Outcome) (f : MqttClient → Outcome) (d : MqttClient)
    → and_then x f ≡ returned d
    → (c : MqttClient) × (x ≡ returned c) × (f c ≡ returned d)
and_then-returned (returned c) f d e = (c, refl, e)
and_then-returned (publish_failed c) f d e = absurd (ground (arith, e))
and_then-returned failed f d e = absurd (ground (arith, e))

same_flag-set : (a : AvailableFlag) → a ≢ not_set → same_flag a not_set ≡ false
same_flag-set not_set h = absurd (h refl)
same_flag-set unavailable h = refl
same_flag-set available h = refl

same_flag_of-ne : (x y : AvailableFlag) → x ≢ y → same_flag x y ≡ false
same_flag_of-ne not_set not_set h = absurd (h refl)
same_flag_of-ne unavailable unavailable h = absurd (h refl)
same_flag_of-ne available available h = absurd (h refl)
same_flag_of-ne not_set unavailable h = refl
same_flag_of-ne not_set available h = refl
same_flag_of-ne unavailable not_set h = refl
same_flag_of-ne unavailable available h = refl
same_flag_of-ne available not_set h = refl
same_flag_of-ne available unavailable h = refl

module _ (o : MqttObject) (set : o.is_available ≢ not_set) where
  -- The call of `publishAvailabilityChange` for an object that tells the same as `o`.
  announces_last :
      (x : MqttObject) (c d : MqttClient)
      → SameReport o x
      → c.accepts (announcement o) ≡ true
      → publish_availability_change x c ≡ d
      → (before : List MqttCall) × (d.calls ≡ before ++ announcement o ∷ [])
  unfolding publish_availability_change
  announces_last x c d s a e =
      let same : announcement x ≡ announcement o =
        ap₂ (λ t f. publish t (flag_payload f) true) s.1 s.2 in
      let told : same_flag x.is_available not_set ≡ false =
        same_flag-set x.is_available (λ n. set (sym s.2 ∙ n)) in
      let taken : c.accepts (announcement x) ≡ true = ap c.accepts same ∙ a in
      let result : publish_availability_change x c ≡ call (announcement x) c =
        rw told (rw taken refl) in
      (c.calls, ap (λ y. y.calls) (sym e ∙ result) ∙ ap (λ k. c.calls ++ k ∷ []) same)

  publish_availability_change-keeps :
      (x : MqttObject) (c : MqttClient)
      → ((publish_availability_change x c).store ≡ c.store)
        × ((publish_availability_change x c).accepts ≡ c.accepts)
  unfolding publish_availability_change
  publish_availability_change-keeps x c = ground arith

  announces_end :
      (b : MqttClient) (ref : ℕ) (x : Outcome) (d : MqttClient)
      → let f =
          λ (after : MqttClient). returned (publish_availability_change (after.store ref) after) in
        Ends (Reports b ref o) (and_then x f)
        → and_then x f ≡ returned d
        → b.accepts (announcement o) ≡ true
        → (before : List MqttCall) × (d.calls ≡ before ++ announcement o ∷ [])
  announces_end b ref x d r e a =
      let f =
        λ (after : MqttClient). returned (publish_availability_change (after.store ref) after) in
      let (m, _, g) = and_then-returned x f d e in
      let last : publish_availability_change (m.store ref) m ≡ d = ground (arith, g) in
      let rep : Reports b ref o d = Ends-returned (Reports b ref o) (and_then x f) d r e in
      let kept = publish_availability_change-keeps (m.store ref) m in
      let object : d.store ref ≡ m.store ref =
        ap (λ y. y.store ref) (sym last) ∙ ap (λ (t : ℕ → MqttObject). t ref) kept.0 in
      let takes : m.accepts ≡ b.accepts = sym kept.1 ∙ ap (λ y. y.accepts) last ∙ rep.2 in
      announces_last (m.store ref) m d (subst (SameReport o) object rep.1)
        (ap (λ (t : MqttCall → Bool). t (announcement o)) takes ∙ a) last

  module _ (ref : ℕ) (c d : MqttClient)
      (changed : same_flag (c.store ref).is_available o.is_available ≡ false)
      (a : c.accepts (announcement o) ≡ true) where
    process_object-announces :
        (network : String) (msg : MsgRegisterValues) (now : ℕ)
        → update_register_values network msg (c.store ref) ≡ some o
        → Ends (Reports c ref o) (process_object network msg now ref c)
        → process_object network msg now ref c ≡ returned d
        → (before : List MqttCall) × (d.calls ≡ before ++ announcement o ∷ [])
    unfolding process_object
    process_object-announces network msg now e r h =
        let old = (c.store ref).is_available in
        let next = set_object ref o c in
        let x : Outcome =
          if same_flag o.is_available available
          then publish_new_state now ref old next
          else returned next in
        let f =
          λ (after : MqttClient). returned (publish_availability_change (after.store ref) after) in
        let same : process_object network msg now ref c ≡ and_then x f =
          rw (e, process_object) (rw changed refl) in
        announces_end c ref x d (subst (Ends (Reports c ref o)) same r) (sym same ∙ h) a

    fail_object-announces :
        (network : String) (base : ModbusMessageBase) (now : ℕ)
        → update_registers_read_failed network base (c.store ref) ≡ some o
        → Ends (Reports c ref o) (fail_object network base now ref c)
        → fail_object network base now ref c ≡ returned d
        → (before : List MqttCall) × (d.calls ≡ before ++ announcement o ∷ [])
    unfolding fail_object
    fail_object-announces network base now e r h =
        let x = publish_state now ref false (set_object ref o c) in
        let f =
          λ (after : MqttClient). returned (publish_availability_change (after.store ref) after) in
        let same : fail_object network base now ref c ≡ and_then x f =
          rw (e, fail_object) (rw changed refl) in
        announces_end c ref x d (subst (Ends (Reports c ref o)) same r) (sym same ∙ h) a

    take_object_down-announces :
        (network : String) (is_up now_changed : Bool)
        → set_modbus_network_state network is_up (c.store ref) ≡ some (o, now_changed)
        → take_object_down network is_up ref c ≡ returned d
        → (before : List MqttCall) × (d.calls ≡ before ++ announcement o ∷ [])
    unfolding take_object_down
    take_object_down-announces network is_up now_changed e h =
        let next = set_object ref o c in
        let same : take_object_down network is_up ref c
            ≡ returned (publish_availability_change o next) =
          rw (e, take_object_down) (rw changed refl) in
        let last : publish_availability_change o next ≡ d = ground (arith, sym same ∙ h) in
        announces_last o next d (refl, refl, refl) a last

-- A message that changes the flag of an object, to one that is set, while the MQTT library takes the
-- message about it: when the handler returns, the last call that it has made publishes the new flag,
-- retained, on the availability topic.
pub flag_announced :
    (e : ObjectEvent) (now ref : ℕ) (c d : MqttClient) (o : MqttObject)
    → apply_event e (c.store ref) ≡ some o
    → handle_event e now ref c ≡ returned d
    → (c.store ref).is_available ≢ o.is_available
    → o.is_available ≢ not_set
    → c.accepts (announcement o) ≡ true
    → (before : List MqttCall) × (d.calls ≡ before ++ announcement o ∷ [])
unfolding handle_event apply_event
flag_announced (values_received network msg) now ref c d o h r changed set a =
    process_object-announces o set ref c d (same_flag_of-ne _ _ changed) a network msg now h
      (handle_event-Reports (values_received network msg) now ref c o h) r
flag_announced (operation_failed network base) now ref c d o h r changed set a =
    fail_object-announces o set ref c d (same_flag_of-ne _ _ changed) a network base now h
      (handle_event-Reports (operation_failed network base) now ref c o h) r
flag_announced (network_changed network is_up) now ref c d o h r changed set a =
    elim (Option-cases (set_modbus_network_state network is_up (c.store ref))) [
      | inl f ↦ absurd (ground (arith, f, h))
      | inr ((x, now_changed), f) ↦
          let same : x ≡ o = ground (arith, f, h) in
          take_object_down-announces o set ref c d (same_flag_of-ne _ _ changed) a network is_up
            now_changed
            (subst
              (λ y. set_modbus_network_state network is_up (c.store ref) ≡ some (y, now_changed))
              same f)
            r
    ]
