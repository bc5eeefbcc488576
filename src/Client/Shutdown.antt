-- ===== src/Client/Shutdown.antt =====
-- The end of the connection to the broker.
use mqmgateway.Base.{
  ◌≡◌, refl, sym, ◌≢◌, ◌⊎◌, inl, inr, false, List, [], ◌∷◌, ◌++◌, append-nil, append_assoc, All,
}
use mqmgateway.Client.{
  ConnectionState, disconnected, connecting, connected_state, disconnecting, MqttCall,
  reconnect_call, disconnect_call, stop_call, MqttClient, shutdown, on_disconnect,
}

-- The client after a shutdown and the disconnection that follows it.
abbrev pub after_shutdown : MqttClient → MqttClient
after_shutdown c = on_disconnect (shutdown c)

-- Stopped and disconnected, without a call that connects again.
abbrev pub IsOver : MqttClient → MqttClient → Type 0
IsOver c d =
    (d.connection_state ≡ disconnected)
    × ((new : List MqttCall) × (d.calls ≡ c.calls ++ new) × All (λ k. k ≢ reconnect_call) new)

abbrev ShutsDown : MqttClient → Type 0
ShutsDown c =
    let d = after_shutdown c in
    (d.is_started ≡ false)
    × (d.modbus_clients ≡ [])
    × (d.pending_rpc ≡ [])
    × (((c.connection_state ≢ connecting) × IsOver c d)
        ⊎ ((c.connection_state ≡ connecting)
            × (d.connection_state ≡ connecting)
            × (d.calls ≡ c.calls ++ reconnect_call ∷ [])))

shuts_down : (s : ConnectionState) (c : MqttClient) → ShutsDown (record c { connection_state = s })
unfolding on_disconnect shutdown
shuts_down disconnected c =
    (refl, refl, refl, inl ((λ e. cc), (refl, ([], sym (append-nil c.calls), tt))))
shuts_down connecting c = (refl, refl, refl, inr (refl, refl, refl))
shuts_down connected_state c =
    let two = append_assoc c.calls (disconnect_call ∷ []) (stop_call ∷ []) in
    (
      refl,
      refl,
      refl,
      inl (
        (λ e. cc),
        (refl, (disconnect_call ∷ stop_call ∷ [], two, ((λ e. cc), ((λ e. cc), tt)))),
      ),
    )
shuts_down disconnecting c =
    (refl, refl, refl, inl ((λ e. cc), (refl, (stop_call ∷ [], refl, ((λ e. cc), tt)))))

-- A shutdown, and the disconnection that follows it: the client counts as stopped, nothing more is sent
-- to the modbus threads and no request waits. From every state but one it is disconnected then, and
-- the library was not told to connect again. In the state `CONNECTING` it goes on: the
-- disconnection connects again.
pub on_disconnect-shutdown :
    (c : MqttClient)
    → let d = after_shutdown c in
      (d.is_started ≡ false)
      × (d.modbus_clients ≡ [])
      × (d.pending_rpc ≡ [])
      × (((c.connection_state ≢ connecting) × IsOver c d)
          ⊎ ((c.connection_state ≡ connecting)
              × (d.connection_state ≡ connecting)
              × (d.calls ≡ c.calls ++ reconnect_call ∷ [])))
on_disconnect-shutdown c = shuts_down c.connection_state c
