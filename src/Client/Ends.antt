-- ===== src/Client/Ends.antt =====
-- How the operations of the client end.
use mqmgateway.Base.{ℕ, Bool, true, false, List, [], ◌∷◌, if◌then◌else◌}
use mqmgateway.Client.{
  MqttClient, Outcome, returned, publish_failed, failed, and_then, catch_publish,
}
use mqmgateway.Client.Publish.{each_object}

-- A predicate on the client that an operation leaves, unless the program ends.
pub data Ends (P : MqttClient → Type 0) : Outcome → Type 0 where
  on_return : {c : MqttClient} → P c → Ends P (returned c)
  on_publish_failed : {c : MqttClient} → P c → Ends P (publish_failed c)
  on_failed : Ends P failed

pub Ends-and_then :
    (P : MqttClient → Type 0) {o : Outcome} (f : MqttClient → Outcome)
    → ((c : MqttClient) → P c → Ends P (f c))
    → Ends P o
    → Ends P (and_then o f)
Ends-and_then P f step (on_return {c = c} h) = step c h
Ends-and_then P f step (on_publish_failed h) = on_publish_failed h
Ends-and_then P f step on_failed = on_failed

pub Ends-catch_publish :
    (P : MqttClient → Type 0) {o : Outcome} → Ends P o → Ends P (catch_publish o)
Ends-catch_publish P (on_return h) = on_return h
Ends-catch_publish P (on_publish_failed h) = on_return h
Ends-catch_publish P on_failed = on_failed

pub Ends-each_object :
    (P : MqttClient → Type 0) (f : ℕ → MqttClient → Outcome)
    → ((r : ℕ) (c : MqttClient) → P c → Ends P (f r c))
    → (rs : List ℕ) (c : MqttClient) → P c
    → Ends P (each_object f rs c)
unfolding each_object
Ends-each_object P f step [] c h = on_return h
Ends-each_object P f step (r ∷ rs) c h =
    Ends-and_then P (each_object f rs) (λ d k. Ends-each_object P f step rs d k) (step r c h)

pub if-Ends :
    {P : MqttClient → Type 0} (t : Bool) {x y : Outcome}
    → Ends P x
    → Ends P y
    → Ends P (if t then x else y)
if-Ends true h k = h
if-Ends false h k = k
