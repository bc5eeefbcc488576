-- ===== src/Client/Runs.antt =====
-- Runs of the client, and the RPC requests that it answers, keeps and forgets in them.
use mqmgateway.Base.{
  ℕ, suc, ◌+◌, ◌^◌, ◌≤◌, ◌<◌, ◌≡◌, refl, subst, inl, inr, Option, none, some, List, [], ◌∷◌,
  add-zero, arith, Option-cases, ◌>>=◌, length,
}
use mqmgateway.Client.{MqttClient, Outcome, returned, publish_failed, failed, on_disconnect}
use mqmgateway.Client.Answers.{Weight, answered, waiting, Account, process_message-Account}
use mqmgateway.Client.Commands.{Outside, process_command}
use mqmgateway.Client.Connection.{on_disconnect-Account, on_connect-Account}
use mqmgateway.Client.Ends.{Ends, on_return, on_publish_failed, on_failed}
use mqmgateway.Client.Message.{handle_rpc_request}
use mqmgateway.Client.Process.{process_message}
use mqmgateway.Client.Publish.{on_connect}
use mqmgateway.Client.Requests.{
  ClientEvent, rpc_request, command_payload, from_thread, connection_made, connection_lost,
  request_weight, handle_rpc_request-Account, process_command-Account,
}

-- The client after an operation that has returned.
abbrev pub after_return : Outcome → Option MqttClient
after_return (returned c) = some c
after_return (publish_failed c) = none
after_return failed = none

unfoldable pub client_step : Outside → ClientEvent → ℕ → MqttClient → Option MqttClient
unfolding handle_rpc_request process_command process_message on_connect on_disconnect
client_step out (rpc_request payload topic correlation) now c =
    handle_rpc_request out.create_converter now payload topic correlation c
client_step out (command_payload cmd payload) now c =
    after_return (process_command out now cmd payload c)
client_step out (from_thread network m) now c = after_return (process_message network m now c)
client_step out connection_made now c = after_return (on_connect now c)
client_step out connection_lost now c = some (on_disconnect c)

unfoldable pub client_run : Outside → List (ClientEvent × ℕ) → MqttClient → Option MqttClient
unfolding client_step
client_run out [] c = some c
client_run out ((e, now) ∷ es) c = client_step out e now c >>= client_run out es

abbrev pub requests : Weight → List (ClientEvent × ℕ) → ℕ
requests w [] = 0
requests w ((e, now) ∷ es) = request_weight w e + requests w es

after_return-Ends :
    (P : MqttClient → Type 0) (o : Outcome) (d : MqttClient)
    → Ends P o
    → after_return o ≡ some d
    → P d
after_return-Ends P (returned c) d (on_return h) e = subst P (ground (arith, e)) h
after_return-Ends P (publish_failed c) d (on_publish_failed h) e = absurd (ground (arith, e))
after_return-Ends P failed d on_failed e = absurd (ground (arith, e))

-- The weight of the requests that an event makes the client forget, and of those that it forgets in a
-- run.
abbrev pub forgotten_by : Weight → ClientEvent → MqttClient → ℕ
forgotten_by w connection_lost c = waiting w c.pending_rpc
forgotten_by w (rpc_request payload topic correlation) c = 0
forgotten_by w (command_payload cmd payload) c = 0
forgotten_by w (from_thread network m) c = 0
forgotten_by w connection_made c = 0

unfoldable pub forgotten : Weight → Outside → List (ClientEvent × ℕ) → MqttClient → ℕ
unfolding client_step
forgotten w out [] c = 0
forgotten w out ((e, now) ∷ es) c = elim (client_step out e now c) [
  | none ↦ 0
  | some d ↦ forgotten_by w e c + forgotten w out es d
]

-- The account after an event: what was asked for grows by its request, less what is forgotten.
abbrev Settles : Weight → ClientEvent → ℕ → ℕ → MqttClient → MqttClient → Type 0
Settles w e asked_for n c d =
    (k : ℕ) × (owed : ℕ) × (k ≤ suc n)
    × (owed + forgotten_by w e c ≡ asked_for + request_weight w e)
    × Account w owed k d

after_return-Settles :
    (w : Weight) (asked_for n : ℕ) (o : Outcome) (d : MqttClient)
    → Ends (Account w asked_for n) o
    → after_return o ≡ some d
    → (k : ℕ) × (owed : ℕ) × (k ≤ suc n) × (owed + 0 ≡ asked_for + 0) × Account w owed k d
after_return-Settles w asked_for n o d h e =
    (n, asked_for, omega arith, refl, after_return-Ends (Account w asked_for n) o d h e)

client_step-Account :
    (w : Weight) (asked_for n : ℕ) (out : Outside) (e : ClientEvent) (now : ℕ) (c d : MqttClient)
    → n < 2 ^ 31
    → Account w asked_for n c
    → client_step out e now c ≡ some d
    → Settles w e asked_for n c d
unfolding client_step
client_step-Account w asked_for n out (rpc_request payload topic correlation) now c d l h s =
    let (k, lt, a) =
      handle_rpc_request-Account w asked_for n c h out.create_converter now payload topic
        correlation d l s in
    (k, asked_for + request_weight w (rpc_request payload topic correlation), lt, add-zero _, a)
client_step-Account w asked_for n out (command_payload cmd payload) now c d l h s =
    after_return-Settles w asked_for n _ d
      (process_command-Account w asked_for n c h out now cmd payload) s
client_step-Account w asked_for n out (from_thread network m) now c d l h s =
    after_return-Settles w asked_for n _ d (process_message-Account w asked_for n network m now c h)
      s
client_step-Account w asked_for n out connection_made now c d l h s =
    after_return-Settles w asked_for n _ d (on_connect-Account w asked_for n now c h) s
client_step-Account w asked_for n out connection_lost now c d l h s = (
  n,
  answered w c.calls,
  omega arith,
  omega (arith, h.balance),
  subst (Account w (answered w c.calls) n) (ground (arith, s))
      (on_disconnect-Account w asked_for n c h),
)

client_run-Account :
    (w : Weight) (out : Outside) (es : List (ClientEvent × ℕ)) (asked_for n : ℕ) (c d : MqttClient)
    → n + length es < 2 ^ 31
    → Account w asked_for n c
    → client_run out es c ≡ some d
    → answered w d.calls + waiting w d.pending_rpc + forgotten w out es c
      ≡ asked_for + requests w es
unfolding client_run forgotten
client_run-Account w out [] asked_for n c d l h s =
    let same : c ≡ d = ground (arith, s) in
    omega (arith, (subst (Account w asked_for n) same h).balance)
client_run-Account w out ((e, now) ∷ es) asked_for n c d l h s =
    elim (Option-cases (client_step out e now c)) [
      | inl f ↦ absurd (ground (arith, f, s))
      | inr (next, f) ↦
          let (m, owed, lt, settled, step) =
            client_step-Account w asked_for n out e now c next (omega (arith, l)) h f in
          let rest =
            client_run-Account w out es owed m next d (omega (arith, l, lt)) step
              (ground (arith, f, s)) in
          rw (f, forgotten) (omega (arith, rest, settled))
    ]

-- A client that has given no answers, has no request that waits, and whose library takes responses. It
-- meets fewer than 2 ^ 31 events: RPC requests, commands, messages of the modbus threads, and
-- connections to the broker that are made and lost. The run is one in which no operation ends by an
-- exception or a failed assertion, and no RPC request with a negative slave or register number passes
-- the checks. Then, whatever weight each pair of a response topic and correlation data has: the answers
-- that were given, the requests that wait, and the requests that waited when a connection was lost,
-- which are forgotten without an answer, weigh together as much as the requests that came with a
-- response topic.
pub client_run_answers :
    (w : Weight) (out : Outside) (es : List (ClientEvent × ℕ)) (c d : MqttClient)
    → length es < 2 ^ 31
    → Account w 0 0 c
    → client_run out es c ≡ some d
    → answered w d.calls + waiting w d.pending_rpc + forgotten w out es c ≡ requests w es
client_run_answers w out es c d l h s =
    omega (arith, client_run-Account w out es 0 0 c d (omega (arith, l)) h s)
