-- ===== src/Examples/Objects.antt =====
-- Values, objects and the client.
use mqmgateway.Address.{holding, overlaps}
use mqmgateway.Base.{
  ℤ, pos, negsuc, ℕ, ◌≡◌, refl, inl, true, false, none, some, List, [], ◌∷◌, arith, length,
}
use mqmgateway.Command.{auto, MsgRegisterValues}
use mqmgateway.Examples.Data.{base_at}
use mqmgateway.Object.{
  not_set, MqttObjectRegisterIdent, as_modbus_address_range, new_value, scalar, composite, single,
  several, update_read_failed,
}
use mqmgateway.Object.Flag.{
  ObjectEvent, values_received, operation_failed, network_changed, apply_events,
}
use mqmgateway.Object.History.{Status, initial_status, status_from}
use mqmgateway.Object.Marks.{update_read_failed_below}
use mqmgateway.Object.Refines.{Tells, apply_events_lem}
use mqmgateway.Object.State.{MqttObject}
use mqmgateway.Object.Tracks.{Tracks}
use mqmgateway.Poll.{on_change}
use mqmgateway.Value.{binary, int, int64, get_int, get_int64, get_string}
use mqmgateway.Value.Decimal.{get_int-get_string}

get_int-get_string_example :
    (text : List ℕ) × (get_string (int64 (negsuc 70000)) ≡ some text)
    × (get_int64 (binary text) ≡ some (negsuc 70000))
    × (get_int (binary text) ≡ get_int (int64 (negsuc 70000)))
get_int-get_string_example = get_int-get_string (negsuc 70000) refl

abbrev pub ident_at : ℕ → MqttObjectRegisterIdent
ident_at number = record {
  network_name = "tcptest";
  slave_id = 1;
  register_number = number;
  register_type = holding;
}

abbrev pub sensor : MqttObject
sensor = record {
  topic = "sensor";
  state_topic = "sensor/state";
  availability_topic = "sensor/availability";
  state = record {
    nodes =
        composite "pair" none true (
          several (scalar "" none (ident_at 10) new_value)
            (single (scalar "" none (ident_at 11) new_value)))
        ∷ [];
    output_as_list = false;
  };
  availability = record {
    nodes = scalar "" none (ident_at 20) new_value ∷ [];
    output_as_list = false;
  };
  available_value = int (pos 1);
  is_available = not_set;
  retain = true;
  publish_mode = on_change;
  last_published_payload = [];
  last_publish_time = none;
  every_poll_period = 0;
}

abbrev pub values_at : ℕ → List ℕ → ℤ → MsgRegisterValues
values_at first registers id = record {
  base = base_at 1 first (length registers) id;
  registers = registers;
  creation_time = 0;
  write_mode = auto;
}

abbrev events : List ObjectEvent
events =
    values_received "tcptest" (values_at 10 (7 ∷ 8 ∷ []) (pos 0))
    ∷ operation_failed "tcptest" (base_at 1 20 1 (pos 0))
    ∷ values_received "tcptest" (values_at 20 (1 ∷ []) (pos 0))
    ∷ network_changed "tcptest" false
    ∷ []

apply_events_lem_example :
    let s : MqttObjectRegisterIdent → Status = λ i. status_from events i initial_status in
    (after : MqttObject) × (apply_events events sensor ≡ some after)
    × Tracks s after
    × Tells s after
unfolding get_int
apply_events_lem_example =
    apply_events_lem events sensor (refl, (omega arith, (refl, (tt, tt))))
      (record {
        fresh_flag = refl;
        fresh_state = (((omega arith, refl), (omega arith, refl)), tt);
        fresh_availability = ((omega arith, refl), tt);
        has_register = inl (λ e. cc);
      })
      ((tt, tt), (pos 1, refl))

update_read_failed_below_example :
    let r = update_read_failed "tcptest" (base_at 1 10 3 (pos 0)) (ident_at 8) new_value in
    (r.0.read_ok ≡ false)
    × (r.1 ≡ true)
    × (overlaps (base_at 1 10 3 (pos 0)).range (as_modbus_address_range (ident_at 8)) ≡ false)
update_read_failed_below_example =
    update_read_failed_below "tcptest" (base_at 1 10 3 (pos 0)) (ident_at 8) new_value refl
      (omega arith) (omega arith) (omega arith)
