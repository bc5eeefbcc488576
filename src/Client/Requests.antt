-- ===== src/Client/Requests.antt =====
-- The account of RPC requests after one request, or one command.
use Prim.Native.String.{String}
use text.Mathlib.Text.{◌==◌ as str_eq}
use mqmgateway.Base.{
  ℤ, pos, negsuc, ℕ, suc, ◌+◌, ◌^◌, ◌≤◌, ◌<◌, ◌≡◌, refl, sym, ap, subst, ◌∙◌, inl, inr, false, not,
  Option, none, some, List, [], add-zero, arith, ◌==◌, if◌then◌else◌, Bool-cases, length, All-mono,
}
use mqmgateway.Client.{
  publish_response, ModbusClient, MqttObjectCommand, MqttClient, returned, failed,
}
use mqmgateway.Client.Answers.{
  Weight, answered-call, erase_missing, fresh_id, erase-IsUsed, IsUsed-suc, next_id_after, Account,
}
use mqmgateway.Client.Commands.{
  Outside, Converted, converted, conversion_refused, assertion_failed, command_registers,
  command_message, process_command,
}
use mqmgateway.Client.Ends.{Ends, on_return, on_failed, if-Ends}
use mqmgateway.Client.Message.{
  RpcRequest, check_request, next_id, enqueue_request, enqueue_checked, handle_rpc_request,
}
use mqmgateway.Client.Responses.{publish_error}
use mqmgateway.Client.Rpc.{
  RpcPayload, parse_error, no_object, document, Checked, passed, refused, send_to,
}
use mqmgateway.Command.{QueueItem}
use mqmgateway.Object.{DataConverter}

-- What the client meets: an RPC request, with its response topic and its correlation data, a message on
-- the topic of a command, a message from the thread of a network, and the callbacks of a connection to
-- the broker that is made and of one that ends.
pub data ClientEvent : Type 0 where
  rpc_request : RpcPayload → Option String → List ℕ → ClientEvent
  command_payload : MqttObjectCommand → List ℕ → ClientEvent
  from_thread : String → QueueItem → ClientEvent
  connection_made connection_lost : ClientEvent

-- The weight of a request; one without a response topic cannot be answered.
abbrev pub request_weight : Weight → ClientEvent → ℕ
request_weight w (rpc_request payload none correlation) = 0
request_weight w (rpc_request payload (some topic) correlation) =
    if str_eq topic "" then 0 else w topic correlation
request_weight w (command_payload cmd payload) = 0
request_weight w (from_thread network m) = 0
request_weight w connection_made = 0
request_weight w connection_lost = 0

module _ (w : Weight) (asked_for n : ℕ) (c : MqttClient) (h : Account w asked_for n c) where
  publish_error-Account :
      (topic : String) (correlation : List ℕ) (message : String)
      → Account w (asked_for + w topic correlation) n (publish_error topic correlation message c)
  publish_error-Account topic correlation message =
      rw (h.takes_responses topic [] correlation (some message)) (record {
        balance = omega (
          arith,
          h.balance,
          answered-call w c.calls (publish_response topic [] correlation (some message)),
        );
        used = h.used;
        fresh = h.fresh;
        takes_responses = h.takes_responses;
      })

  enqueue_request-Account :
      (now : ℕ) (topic : String) (correlation : List ℕ) (slave number : ℕ) (r : RpcRequest)
      → n < 2 ^ 31
      → Account w
          (asked_for + w topic correlation)
          (suc n)
          (enqueue_request now topic correlation slave number r c)
  unfolding enqueue_request
  enqueue_request-Account now topic correlation slave number r l =
      let id : next_id c.next_rpc_id ≡ negsuc n = ap next_id h.used ∙ next_id_after n l in
      let missing = fresh_id n c.pending_rpc h.fresh in
      rw id (record {
        balance = rw (erase_missing w (negsuc n) c.pending_rpc missing) (omega (arith, h.balance));
        used = refl;
        fresh = (
          omega arith,
          All-mono (IsUsed-suc n) _ (erase-IsUsed n (negsuc n) c.pending_rpc h.fresh),
        );
        takes_responses = h.takes_responses;
      })

  -- The account after a request of some weight.
  abbrev Grows : ℕ → MqttClient → Type 0
  Grows weight d = (k : ℕ) × (k ≤ suc n) × Account w (asked_for + weight) k d

  stays : (d : MqttClient) → c ≡ d → Grows 0 d
  stays d e = (
    n,
    omega arith,
    subst (λ t. Account w t n d) (sym (add-zero asked_for)) (subst (Account w asked_for n) e h),
  )

  answers_error :
      (topic : String) (correlation : List ℕ) (message : String) (d : MqttClient)
      → publish_error topic correlation message c ≡ d
      → Grows (w topic correlation) d
  answers_error topic correlation message d e =
      (n, omega arith, subst (Account w _ n) e (publish_error-Account topic correlation message))

  enqueues :
      (now : ℕ) (topic : String) (correlation : List ℕ) (r : RpcRequest) (slave number : ℤ)
      (d : MqttClient)
      → n < 2 ^ 31
      → enqueue_checked now topic correlation
          (record r { slave = slave; register_number = number })
          c
        ≡ some d
      → Grows (w topic correlation) d
  enqueues now topic correlation r (negsuc s) number d l e = absurd (ground (arith, e))
  enqueues now topic correlation r (pos s) (negsuc m) d l e = absurd (ground (arith, e))
  enqueues now topic correlation r (pos s) (pos m) d l e =
      let request = record r { slave = pos s; register_number = pos m } in
      let same : enqueue_request now topic correlation s m request c ≡ d = ground (arith, e) in
      (
        suc n,
        omega arith,
        subst (Account w _ (suc n)) same
            (enqueue_request-Account now topic correlation s m request l),
      )

  handle_document :
      (create : String → Option DataConverter) (now : ℕ) (topic : String) (correlation : List ℕ)
      (checked : Checked RpcRequest) (d : MqttClient)
      → n < 2 ^ 31
      → elim checked as (λ x. Option MqttClient) [
        | refused message ↦ some (publish_error topic correlation message c)
        | passed r ↦ enqueue_checked now topic correlation r c
      ]
        ≡ some d
      → Grows (w topic correlation) d
  handle_document create now topic correlation (refused message) d l e =
      answers_error topic correlation message d (ground (arith, e))
  handle_document create now topic correlation (passed r) d l e =
      enqueues now topic correlation r r.slave r.register_number d l e

  handle_payload :
      (create : String → Option DataConverter) (now : ℕ) (topic : String) (correlation : List ℕ)
      (payload : RpcPayload) (d : MqttClient)
      → n < 2 ^ 31
      → str_eq topic "" ≡ false
      → handle_rpc_request create now payload (some topic) correlation c ≡ some d
      → Grows (w topic correlation) d
  unfolding handle_rpc_request
  handle_payload create now topic correlation (parse_error message) d l named e =
      answers_error topic correlation message d (ground (arith, e, named))
  handle_payload create now topic correlation no_object d l named e =
      answers_error topic correlation "object expected" d (ground (arith, e, named))
  handle_payload create now topic correlation (document doc) d l named e =
      handle_document create now topic correlation
        (check_request c.rpc_mode create c.modbus_clients doc) d l (rw named at e)

  pub handle_rpc_request-Account :
      (create : String → Option DataConverter) (now : ℕ) (payload : RpcPayload)
      (topic : Option String) (correlation : List ℕ) (d : MqttClient)
      → n < 2 ^ 31
      → handle_rpc_request create now payload topic correlation c ≡ some d
      → Grows (request_weight w (rpc_request payload topic correlation)) d
  unfolding handle_rpc_request
  handle_rpc_request-Account create now payload none correlation d l e = stays d (ground (arith, e))
  handle_rpc_request-Account create now payload (some topic) correlation d l e =
      elim (Bool-cases (str_eq topic "")) [
        | inl empty ↦ rw empty (stays d (ground (arith, e, empty)))
        | inr named ↦ rw named (handle_payload create now topic correlation payload d l named e)
      ]

  -- A change of the clients of the modbus threads.
  clients-Account :
      (clients : List ModbusClient) → Account w asked_for n (record c { modbus_clients = clients })
  clients-Account clients = record {
    balance = h.balance;
    used = h.used;
    fresh = h.fresh;
    takes_responses = h.takes_responses;
  }

  command_result :
      (cmd : MqttObjectCommand) (now : ℕ) (regs : Converted)
      → Ends (Account w asked_for n) (elim regs [
        | assertion_failed ↦ failed
        | conversion_refused ↦ returned c
        | converted vs ↦
            if not (length vs == cmd.base.range.count)
            then returned c
            else returned (record c {
              modbus_clients =
                  send_to cmd.network_name (command_message now cmd vs) c.modbus_clients;
            })
      ])
  command_result cmd now assertion_failed = on_failed
  command_result cmd now conversion_refused = on_return h
  command_result cmd now (converted vs) = if-Ends _ (on_return h) (on_return (clients-Account _))

  pub process_command-Account :
      (out : Outside) (now : ℕ) (cmd : MqttObjectCommand) (payload : List ℕ)
      → Ends (Account w asked_for n) (process_command out now cmd payload c)
  unfolding process_command
  process_command-Account out now cmd payload =
      if-Ends _ (on_return h) (command_result cmd now (command_registers out cmd payload))
