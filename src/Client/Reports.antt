-- ===== src/Client/Reports.antt =====
-- What the client publishes of an object when a message changes it.
use Prim.Native.String.{String}
use mqmgateway.Address.{ModbusMessageBase}
use mqmgateway.Base.{
  ℕ, ◌≡◌, refl, sym, ap, subst, ◌∙◌, ◌≢◌, ◌⊎◌, inl, inr, Bool, true, false, some, List, [], ◌∷◌,
  ◌++◌, append-nil, append_assoc, arith, Option-cases, All, All-append,
}
use mqmgateway.Client.{
  MqttCall, connect_call, reconnect_call, disconnect_call, stop_call, subscribe, publish,
  publish_response, MqttClient, Outcome, call, set_object, same_flag,
}
use mqmgateway.Client.Ends.{Ends}
use mqmgateway.Client.Objects.{process_object-Ends, fail_object-Ends, take_object_down-Ends}
use mqmgateway.Client.Process.{process_object, fail_object, take_object_down}
use mqmgateway.Client.Publish.{flag_payload}
use mqmgateway.Command.{MsgRegisterValues}
use mqmgateway.Executor.Reading.{same-==}
use mqmgateway.Object.{AvailableFlag, not_set, unavailable, available}
use mqmgateway.Object.Flag.{
  ObjectEvent, values_received, operation_failed, network_changed, apply_event,
}
use mqmgateway.Object.State.{
  MqttObject, update_register_values, update_registers_read_failed, set_modbus_network_state,
}

-- A call that tells the truth about an object: a message on its state topic while it is available, or its
-- flag on its availability topic, retained, once the flag is set.
abbrev pub IsReport : MqttObject → MqttCall → Type 0
IsReport o (publish topic payload retain) =
    ((topic ≡ o.state_topic) × (o.is_available ≡ available))
    ⊎ ((topic ≡ o.availability_topic)
        × (o.is_available ≢ not_set)
        × (payload ≡ flag_payload o.is_available)
        × (retain ≡ true))
IsReport o connect_call = ⊥
IsReport o reconnect_call = ⊥
IsReport o disconnect_call = ⊥
IsReport o stop_call = ⊥
IsReport o (subscribe topic) = ⊥
IsReport o (publish_response topic payload correlation err) = ⊥

abbrev pub SameReport : MqttObject → MqttObject → Type 0
SameReport o x =
    (x.state_topic ≡ o.state_topic)
    × (x.availability_topic ≡ o.availability_topic)
    × (x.is_available ≡ o.is_available)

-- The client after an operation on the object `ref`, which is `o` by then: the calls that were made
-- tell the truth about it.
abbrev pub Reports : MqttClient → ℕ → MqttObject → MqttClient → Type 0
Reports b ref o c =
    ((new : List MqttCall) × (c.calls ≡ b.calls ++ new) × All (IsReport o) new)
    × SameReport o (c.store ref)
    × (c.accepts ≡ b.accepts)

pub same_flag-eq : (a b : AvailableFlag) → same_flag a b ≡ true → a ≡ b
same_flag-eq not_set not_set h = refl
same_flag-eq unavailable unavailable h = refl
same_flag-eq available available h = refl
same_flag-eq not_set unavailable h = cc
same_flag-eq not_set available h = cc
same_flag-eq unavailable not_set h = cc
same_flag-eq unavailable available h = cc
same_flag-eq available not_set h = cc
same_flag-eq available unavailable h = cc

pub same_flag-ne : (a b : AvailableFlag) → same_flag a b ≡ false → a ≢ b
same_flag-ne not_set b h e = ground (arith, subst (λ x. same_flag not_set x ≡ false) (sym e) h)
same_flag-ne unavailable b h e =
    ground (arith, subst (λ x. same_flag unavailable x ≡ false) (sym e) h)
same_flag-ne available b h e = ground (arith, subst (λ x. same_flag available x ≡ false) (sym e) h)

module _ (b : MqttClient) (ref : ℕ) (o : MqttObject) where
  adds_report :
      (k : MqttCall) (c : MqttClient)
      → IsReport o k
      → Reports b ref o c
      → Reports b ref o (call k c)
  adds_report k c r ((new, e, all), same, acc) = (
    (
      new ++ k ∷ [],
      ap (λ x. x ++ k ∷ []) e ∙ append_assoc b.calls new (k ∷ []),
      All-append (IsReport o) new (k ∷ []) all (r, tt),
    ),
    same,
    acc,
  )

  on_state :
      (payload : List ℕ) (retain : Bool) (c : MqttClient)
      → Reports b ref o c
      → same_flag (c.store ref).is_available available ≡ true
      → Reports b ref o (call (publish (c.store ref).state_topic payload retain) c)
  on_state payload retain c h a =
      let flag : o.is_available ≡ available = sym h.1.2 ∙ same_flag-eq _ available a in
      adds_report (publish (c.store ref).state_topic payload retain) c (inl (h.1.0, flag)) h

  on_availability :
      (x : MqttObject) (c : MqttClient)
      → Reports b ref o c
      → SameReport o x
      → same_flag x.is_available not_set ≡ false
      → Reports b ref o (call (publish x.availability_topic (flag_payload x.is_available) true) c)
  on_availability x c h s n =
      let set : o.is_available ≢ not_set = λ e. same_flag-ne x.is_available not_set n (s.2 ∙ e) in
      adds_report (publish x.availability_topic (flag_payload x.is_available) true) c
        (inr (s.1, set, ap flag_payload s.2, refl)) h

  stored : (x : MqttObject) (c : MqttClient) → (set_object ref x c).store ref ≡ x
  stored x c = rw (same-== ref) refl

  on_set :
      (x : MqttObject) (c : MqttClient)
      → Reports b ref o c
      → SameReport o x
      → Reports b ref o (set_object ref x c)
  on_set x c h s = (h.0, subst (SameReport o) (sym (stored x c)) s, h.2)

  updated : (x : MqttObject) → x ≡ o → Reports b ref o (set_object ref x b)
  updated x e =
      let same : SameReport o x =
        (ap (λ y. y.state_topic) e, ap (λ y. y.availability_topic) e, ap (λ y. y.is_available) e) in
      (([], sym (append-nil b.calls), tt), subst (SameReport o) (sym (stored x b)) same, refl)

  process_object-Reports :
      (network : String) (msg : MsgRegisterValues) (now : ℕ)
      → update_register_values network msg (b.store ref) ≡ some o
      → Ends (Reports b ref o) (process_object network msg now ref b)
  process_object-Reports network msg now e =
      process_object-Ends (Reports b ref o) ref (SameReport o) (λ c h. h.1) (λ x m k. k)
        (λ x m t k. k) on_state on_availability on_set network msg now b
        (λ x f. updated x (ground (arith, e, f)))

  fail_object-Reports :
      (network : String) (base : ModbusMessageBase) (now : ℕ)
      → update_registers_read_failed network base (b.store ref) ≡ some o
      → Ends (Reports b ref o) (fail_object network base now ref b)
  fail_object-Reports network base now e =
      fail_object-Ends (Reports b ref o) ref (SameReport o) (λ c h. h.1) (λ x m k. k) (λ x m t k. k)
        on_state on_availability on_set network base now b (λ x f. updated x (ground (arith, e, f)))

  take_object_down-Reports :
      (network : String) (is_up changed : Bool)
      → set_modbus_network_state network is_up (b.store ref) ≡ some (o, changed)
      → Ends (Reports b ref o) (take_object_down network is_up ref b)
  take_object_down-Reports network is_up changed e =
      take_object_down-Ends (Reports b ref o) ref (SameReport o) (λ c h. h.1) (λ x m k. k)
        (λ x m t k. k) on_state on_availability on_set network is_up b
        (λ x now_changed f. updated x (ground (arith, e, f)))

-- The handlers of a message for one object: the bodies of the loops over the objects.
unfoldable pub handle_event : ObjectEvent → ℕ → ℕ → MqttClient → Outcome
unfolding process_object fail_object take_object_down
handle_event (values_received network msg) now ref c = process_object network msg now ref c
handle_event (operation_failed network base) now ref c = fail_object network base now ref c
handle_event (network_changed network is_up) now ref c = take_object_down network is_up ref c

-- The three handlers of a message for one object, which the message makes `o`. When the handler returns,
-- or a `MosquittoException` of the library leaves it, every call that it has made tells the truth about
-- `o`; of a handler that another exception leaves this says nothing. So nothing is published on the state topic of an object
-- that is not available, and the availability topic gets nothing but the flag, retained, and nothing
-- while the flag is not set.
pub handle_event-Reports :
    (e : ObjectEvent) (now ref : ℕ) (c : MqttClient) (o : MqttObject)
    → apply_event e (c.store ref) ≡ some o
    → Ends (Reports c ref o) (handle_event e now ref c)
unfolding handle_event apply_event
handle_event-Reports (values_received network msg) now ref c o h =
    process_object-Reports c ref o network msg now h
handle_event-Reports (operation_failed network base) now ref c o h =
    fail_object-Reports c ref o network base now h
handle_event-Reports (network_changed network is_up) now ref c o h =
    elim (Option-cases (set_modbus_network_state network is_up (c.store ref))) [
      | inl f ↦ absurd (ground (arith, f, h))
      | inr ((x, changed), f) ↦
          let same : x ≡ o = ground (arith, f, h) in
          take_object_down-Reports c ref o network is_up changed (
            subst (λ y. set_modbus_network_state network is_up (c.store ref) ≡ some (y, changed))
              same f)
    ]
