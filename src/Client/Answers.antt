-- ===== src/Client/Answers.antt =====
-- The account of RPC requests: what each operation of the client does to the answers that were given and
-- the requests that wait.
use Prim.Native.String.{String}
use mqmgateway.Address.{ModbusMessageBase, is_rpc}
use mqmgateway.Base.{
  ℤ, pos, negsuc, ℕ, zero, suc, ◌+◌, ◌^◌, ◌<◌, ◌≡◌, refl, ap, inl, inr, Bool, true, Option, none,
  some, List, [], ◌∷◌, ◌++◌, arith, Bool-cases, Option-cases, All,
}
use mqmgateway.Client.{
  MqttCall, connect_call, reconnect_call, disconnect_call, stop_call, subscribe, publish,
  publish_response, PendingRpcRequest, MqttClient, call, set_object,
}
use mqmgateway.Client.Ends.{Ends, on_return, if-Ends}
use mqmgateway.Client.Frame.{
  process_registers_operation_failed-Ends, process_modbus_network_state-Ends,
  process_register_values-Ends,
}
use mqmgateway.Client.Message.{next_id}
use mqmgateway.Client.Process.{process_message}
use mqmgateway.Client.Responses.{
  find_pending, erase_pending, logged_call, response_payload, publish_rpc_response,
  publish_rpc_error,
}
use mqmgateway.Command.{
  MsgRegisterValues, QueueItem, register_values, register_read_failed, register_write_failed,
  modbus_network_state,
}
use mqmgateway.Object.State.{MqttObject}
use mqmgateway.Value.{same_int}

-- A weight for a request, by its response topic and its correlation data.
abbrev pub Weight : Type 0
Weight = String → List ℕ → ℕ

module _ (w : Weight) where
  -- The weight of the answers among the calls, and of the requests that wait.
  abbrev pub call_weight : MqttCall → ℕ
  call_weight (publish_response topic payload correlation err) = w topic correlation
  call_weight connect_call = 0
  call_weight reconnect_call = 0
  call_weight disconnect_call = 0
  call_weight stop_call = 0
  call_weight (subscribe topic) = 0
  call_weight (publish topic payload retain) = 0

  abbrev pub answered : List MqttCall → ℕ
  answered [] = 0
  answered (k ∷ ks) = call_weight k + answered ks

  abbrev pub waiting : List (ℤ × PendingRpcRequest) → ℕ
  waiting [] = 0
  waiting ((id, p) ∷ ps) = w p.response_topic p.correlation_data + waiting ps

  pub answered-call :
      (ks : List MqttCall) (k : MqttCall) → answered (ks ++ k ∷ []) ≡ answered ks + call_weight k
  answered-call [] k = omega arith
  answered-call (j ∷ ks) k = omega (arith, answered-call ks k)

  waiting-erase :
      (id : ℤ) (ps : List (ℤ × PendingRpcRequest)) (p : PendingRpcRequest)
      → find_pending id ps ≡ some p
      → waiting ps ≡ waiting (erase_pending id ps) + w p.response_topic p.correlation_data
  waiting-erase id [] p h = cc
  waiting-erase id ((key, q) ∷ ps) p h = elim (Bool-cases (same_int key id)) [
    | inl e ↦
        let same : q ≡ p = ground (arith, e, h) in
        rw e (omega (arith, ap (λ x. w x.response_topic x.correlation_data) same))
    | inr e ↦ rw e (omega (arith, waiting-erase id ps p (ground (arith, e, h))))
  ]

  pub erase_missing :
      (id : ℤ) (ps : List (ℤ × PendingRpcRequest))
      → find_pending id ps ≡ none
      → erase_pending id ps ≡ ps
  erase_missing id [] h = refl
  erase_missing id ((key, q) ∷ ps) h = elim (Bool-cases (same_int key id)) [
    | inl e ↦ absurd (ground (arith, e, h))
    | inr e ↦ rw e (ap (λ x. (key, q) ∷ x) (erase_missing id ps (ground (arith, e, h))))
  ]

-- The id after `n` requests, and the ids of the first `n` requests.
abbrev pub id_after : ℕ → ℤ
id_after zero = pos 0
id_after (suc n) = negsuc n

abbrev pub IsUsed : ℕ → ℤ × PendingRpcRequest → Type 0
IsUsed n (pos k, p) = ⊥
IsUsed n (negsuc k, p) = k < n

pub fresh_id :
    (n : ℕ) (ps : List (ℤ × PendingRpcRequest))
    → All (IsUsed n) ps
    → find_pending (negsuc n) ps ≡ none
fresh_id n [] h = refl
fresh_id n ((pos k, p) ∷ ps) h = elim h.0 [ ]
fresh_id n ((negsuc k, p) ∷ ps) h = ground (arith, h.0, fresh_id n ps h.1)

pub erase-IsUsed :
    (n : ℕ) (id : ℤ) (ps : List (ℤ × PendingRpcRequest))
    → All (IsUsed n) ps
    → All (IsUsed n) (erase_pending id ps)
erase-IsUsed n id [] h = tt
erase-IsUsed n id ((key, p) ∷ ps) h = elim (Bool-cases (same_int key id)) [
  | inl e ↦ rw e h.1
  | inr e ↦ rw e (h.0, erase-IsUsed n id ps h.1)
]

pub IsUsed-suc : (n : ℕ) (e : ℤ × PendingRpcRequest) → IsUsed n e → IsUsed (suc n) e
IsUsed-suc n (pos k, p) h = h
IsUsed-suc n (negsuc k, p) h = omega (arith, h)

pub next_id_after : (n : ℕ) → n < 2 ^ 31 → next_id (id_after n) ≡ negsuc n
unfolding next_id
next_id_after zero h = refl
next_id_after (suc n) h = ground arith

-- The state of the account: `asked_for` is the weight of all requests so far, `n` their number. The MQTT
-- library takes responses.
pub record Account (w : Weight) (asked_for n : ℕ) (c : MqttClient) : Type 0 where
  pub balance : answered w c.calls + waiting w c.pending_rpc ≡ asked_for
  pub used : c.next_rpc_id ≡ id_after n
  pub fresh : All (IsUsed n) c.pending_rpc
  pub takes_responses :
      (topic : String) (payload correlation : List ℕ) (err : Option String)
      → c.accepts (publish_response topic payload correlation err) ≡ true

module _ (w : Weight) (asked_for n : ℕ) where
  pub Account-publish :
      (topic : String) (payload : List ℕ) (retain : Bool) (c : MqttClient)
      → Account w asked_for n c
      → Account w asked_for n (call (publish topic payload retain) c)
  Account-publish topic payload retain c h = record {
    balance = omega (arith, h.balance, answered-call w c.calls (publish topic payload retain));
    used = h.used;
    fresh = h.fresh;
    takes_responses = h.takes_responses;
  }

  pub Account-set :
      (ref : ℕ) (o : MqttObject) (c : MqttClient)
      → Account w asked_for n c
      → Account w asked_for n (set_object ref o c)
  Account-set ref o c h = record {
    balance = h.balance;
    used = h.used;
    fresh = h.fresh;
    takes_responses = h.takes_responses;
  }

  -- An answer to a request that waits.
  answer-Account :
      (id : ℤ) (p : PendingRpcRequest) (payload : List ℕ) (err : Option String) (c : MqttClient)
      → find_pending id c.pending_rpc ≡ some p
      → Account w asked_for n c
      → Account w asked_for n (
          logged_call
            (publish_response p.response_topic payload p.correlation_data err)
            (record c { pending_rpc = erase_pending id c.pending_rpc }))
  answer-Account id p payload err c e h =
      let k = publish_response p.response_topic payload p.correlation_data err in
      rw (h.takes_responses p.response_topic payload p.correlation_data err) (record {
        balance =
            omega
              (arith, h.balance, answered-call w c.calls k, waiting-erase w id c.pending_rpc p e);
        used = h.used;
        fresh = erase-IsUsed n id c.pending_rpc h.fresh;
        takes_responses = h.takes_responses;
      })

  pub publish_rpc_response-Account :
      (msg : MsgRegisterValues) (c : MqttClient)
      → Account w asked_for n c
      → Account w asked_for n (publish_rpc_response msg c)
  unfolding publish_rpc_response
  publish_rpc_response-Account msg c h =
      let id = msg.base.command_id in
      elim (Option-cases (find_pending id c.pending_rpc)) [
        | inl e ↦ rw (e, publish_rpc_response) h
        | inr (p, e) ↦ elim (Option-cases (response_payload c.json_text p msg.registers)) [
          | inl f ↦ rw (e, publish_rpc_response) (rw f (answer-Account id p _ _ c e h))
          | inr (payload, f) ↦ rw (e, publish_rpc_response) (rw f (answer-Account id p _ _ c e h))
        ]
      ]

  pub publish_rpc_error-Account :
      (base : ModbusMessageBase) (c : MqttClient)
      → Account w asked_for n c
      → Account w asked_for n (publish_rpc_error base c)
  unfolding publish_rpc_error
  publish_rpc_error-Account base c h =
      elim (Option-cases (find_pending base.command_id c.pending_rpc)) [
        | inl e ↦ rw (e, publish_rpc_error) h
        | inr (p, e) ↦ rw (e, publish_rpc_error) (answer-Account base.command_id p _ _ c e h)
      ]

  pub process_message-Account :
      (network : String) (m : QueueItem) (now : ℕ) (c : MqttClient)
      → Account w asked_for n c
      → Ends (Account w asked_for n) (process_message network m now c)
  unfolding process_message
  process_message-Account network (register_values msg) now c h =
      process_register_values-Ends (Account w asked_for n) Account-publish Account-set network msg
        now c h (publish_rpc_response-Account msg c h)
  process_message-Account network (register_read_failed base) now c h =
      if-Ends (is_rpc base) (on_return (publish_rpc_error-Account base c h)) (
        process_registers_operation_failed-Ends (Account w asked_for n) Account-publish Account-set
          network base now c h)
  process_message-Account network (register_write_failed base) now c h =
      if-Ends (is_rpc base) (on_return (publish_rpc_error-Account base c h)) (
        process_registers_operation_failed-Ends (Account w asked_for n) Account-publish Account-set
          network base now c h)
  process_message-Account network (modbus_network_state name is_up) now c h =
      process_modbus_network_state-Ends (Account w asked_for n) Account-publish Account-set name
        is_up c h
