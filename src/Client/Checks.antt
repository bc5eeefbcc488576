-- ===== src/Client/Checks.antt =====
-- What a request has passed when it goes to a modbus thread.
use Prim.Native.String.{String, ◌++◌ as append}
use mqmgateway.Address.{RegisterType, coil, bit, holding, input}
use mqmgateway.Base.{
  ℤ, pos, negsuc, ℕ, ◌≤◌, ◌≡◌, refl, subst, ◌⊎◌, inl, inr, Bool, true, false, not, ◌||◌, Option,
  none, some, List, arith, ltb, Bool-cases, Option-cases, length,
}
use mqmgateway.Client.{RpcMode, rpc_disabled, rpc_read, rpc_read_write, ModbusClient}
use mqmgateway.Client.Message.{
  RpcRequest, is_read_only, max_count, count_in_range, count_of, can_write, converted_values,
  count_and_values, is_some, check_target, check_request,
}
use mqmgateway.Client.Rpc.{
  codes, RpcValue, RpcDocument, Checked, passed, refused, bind_checked, check, text_member,
  int_member, register_type_of, converter_of, register_of, has_client, raw_write_values,
  rpc_write_value_from_json,
}
use mqmgateway.Object.{DataConverter}

bind_checked-passed :
    {A B : Type 0} (x : Checked A) (f : A → Checked B) (b : B)
    → bind_checked x f ≡ passed b
    → (a : A) × (x ≡ passed a) × (f a ≡ passed b)
bind_checked-passed (passed a) f b h = (a, refl, h)
bind_checked-passed (refused message) f b h = absurd (ground (arith, h))

-- The same, for a goal that follows from the parts.
after_bind :
    {A B : Type 0} (x : Checked A) (f : A → Checked B) (b : B) (P : Type 0)
    → bind_checked x f ≡ passed b
    → ((a : A) → x ≡ passed a → f a ≡ passed b → P)
    → P
after_bind (passed a) f b P h k = k a refl h
after_bind (refused message) f b P h k = absurd (ground (arith, h))

check-passed : (t : Bool) (message : String) (u : Unit {0}) → check t message ≡ passed u → t ≡ true
check-passed true message u h = refl
check-passed false message u h = absurd (ground (arith, h))

max_count-pos : (type : RegisterType) → 1 ≤ max_count type
max_count-pos coil = omega arith
max_count-pos bit = omega arith
max_count-pos holding = omega arith
max_count-pos input = omega arith

count_in_range_bounds :
    (type : RegisterType) (z : ℤ) (n : ℕ)
    → count_in_range type z ≡ passed n
    → (1 ≤ n) × (n ≤ max_count type)
count_in_range_bounds type (pos m) n h = elim (Bool-cases (ltb m 1 || ltb (max_count type) m)) [
  | inl e ↦ absurd (ground (arith, e, h))
  | inr e ↦ ground (arith, e, h)
]
count_in_range_bounds type (negsuc m) n h = absurd (ground (arith, h))

count_of_bounds :
    (type : RegisterType) (count : Option RpcValue) (n : ℕ)
    → count_of type count ≡ passed n
    → (1 ≤ n) × (n ≤ max_count type)
count_of_bounds type none n h = ground (arith, h, max_count-pos type)
count_of_bounds type (some v) n h =
    let (z, _, g) =
      bind_checked-passed (int_member (some v) "invalid field: count") (count_in_range type) n h in
    count_in_range_bounds type z n g

-- What a checked request asks for: a read, or a write that the mode and the type allow.
abbrev pub IsRead : RpcRequest → Type 0
IsRead r = (r.values_to_write ≡ none) × (1 ≤ r.count) × (r.count ≤ max_count r.register_type)

abbrev pub IsWrite : RpcMode → RpcRequest → Type 0
IsWrite mode r =
    (mode ≡ rpc_read_write)
    × (is_read_only r.register_type ≡ false)
    × ((values : List ℕ) × (r.values_to_write ≡ some values) × (length values ≡ r.count))

can_write-eq : (mode : RpcMode) → can_write mode ≡ true → mode ≡ rpc_read_write
can_write-eq rpc_disabled h = cc
can_write-eq rpc_read h = cc
can_write-eq rpc_read_write h = refl

converted_values-length :
    (conv : DataConverter) (v : RpcValue) (n : ℕ) (vs : List ℕ)
    → converted_values conv v n ≡ passed vs
    → length vs ≡ n
converted_values-length conv v n vs h =
    let (value, _, g) = bind_checked-passed (rpc_write_value_from_json v) _ vs h in
    elim (Option-cases (conv.to_modbus value n)) [
      | inl e ↦ absurd (ground (arith, e, g))
      | inr (regs, e) ↦ ground (arith, e, g)
    ]

-- The count and the values of a request.
count_and_values_cases :
    (type : RegisterType) (conv : Option DataConverter) (count value : Option RpcValue) (n : ℕ)
    (vs : Option (List ℕ))
    → count_and_values type conv count value ≡ passed (n, vs)
    → ((vs ≡ none) × (value ≡ none) × (1 ≤ n) × (n ≤ max_count type))
      ⊎ ((is_some value ≡ true) × ((xs : List ℕ) × (vs ≡ some xs) × (length xs ≡ n)))
unfolding count_and_values
count_and_values_cases type none count (some v) n vs h =
    let (xs, _, g) = bind_checked-passed (raw_write_values v) _ (n, vs) h in
    inr (refl, (xs, ground (arith, g), ground (arith, g)))
count_and_values_cases type none count none n vs h =
    let (m, e, g) = bind_checked-passed (count_of type count) _ (n, vs) h in
    inl (
      ground (arith, g),
      refl,
      ground (arith, g, count_of_bounds type count m e),
      ground (arith, g, count_of_bounds type count m e),
    )
count_and_values_cases type (some c) count none n vs h =
    let (m, e, g) = bind_checked-passed (count_of type count) _ (n, vs) h in
    inl (
      ground (arith, g),
      refl,
      ground (arith, g, count_of_bounds type count m e),
      ground (arith, g, count_of_bounds type count m e),
    )
count_and_values_cases type (some c) count (some v) n vs h =
    let (m, e, g) = bind_checked-passed (count_of type count) _ (n, vs) h in
    let (xs, f, k) = bind_checked-passed (converted_values c v m) _ (n, vs) g in
    inr (refl, (xs, ground (arith, k), ground (arith, k, converted_values-length c v m xs f)))

target_result :
    (mode : RpcMode) (clients : List ModbusClient) (d : RpcDocument) (network : String)
    (slave number : ℤ) (type : RegisterType) (conv : Option DataConverter) (r : RpcRequest) (n : ℕ)
    (vs : Option (List ℕ))
    → has_client network clients ≡ true
    → (not (is_some d.value) || can_write mode) ≡ true
    → (not (is_some d.value) || not (is_read_only type)) ≡ true
    → count_and_values type conv d.count d.value ≡ passed (n, vs)
    → record {
      network_name = network;
      slave = slave;
      register_number = number;
      register_type = type;
      converter = conv;
      count = n;
      values_to_write = vs;
    }
      ≡ r
    → (has_client r.network_name clients ≡ true) × (IsRead r ⊎ IsWrite mode r)
target_result mode clients d network slave number type conv r n vs known allowed writable counted
      e =
    subst (λ q. (has_client q.network_name clients ≡ true) × (IsRead q ⊎ IsWrite mode q)) e
      (
        known,
        elim (count_and_values_cases type conv d.count d.value n vs counted) [
          | inl (none_given, no_value, low, high) ↦ inl (none_given, low, high)
          | inr (given, values) ↦ inr (
            can_write-eq mode (ground (arith, allowed, given)),
            ground (arith, writable, given),
            values,
          )
        ],
      )

check_target_lem :
    (mode : RpcMode) (clients : List ModbusClient) (d : RpcDocument) (network : String)
    (slave number : ℤ) (type : RegisterType) (conv : Option DataConverter) (r : RpcRequest)
    → check_target mode clients d network slave number type conv ≡ passed r
    → (has_client r.network_name clients ≡ true) × (IsRead r ⊎ IsWrite mode r)
unfolding check_target
check_target_lem mode clients d network slave number type conv r h =
    let Goal : Type 0 = (has_client r.network_name clients ≡ true) × (IsRead r ⊎ IsWrite mode r) in
    after_bind (check (has_client network clients) (append "network not found: " network)) _ r Goal
      h
      (λ u known h1.
        after_bind
          (check (not (is_some d.value) || can_write mode) "writes are disabled (mode: read)") _ r
          Goal h1
          (λ u' allowed h2.
            after_bind
              (check (not (is_some d.value) || not (is_read_only type))
                "register_type is read-only")
              _ r Goal h2
              (λ u'' writable h3.
                after_bind (count_and_values type conv d.count d.value) _ r Goal h3
                  (λ counts counted h4.
                    target_result mode clients d network slave number type conv r counts.0 counts.1
                      (check-passed _ (append "network not found: " network) u known)
                      (check-passed _ "writes are disabled (mode: read)" u' allowed)
                      (check-passed _ "register_type is read-only" u'' writable) counted
                      (ground (arith, h4))))))

-- A request that passes the checks is for a network that has a client. It reads, and its count is in the
-- limits of its type; or it writes, and then writes are enabled, its type can be written, and it has as
-- many values as its count.
pub check_request_lem :
    (mode : RpcMode) (create : String → Option DataConverter) (clients : List ModbusClient)
    (d : RpcDocument) (r : RpcRequest)
    → check_request mode create clients d ≡ passed r
    → (has_client r.network_name clients ≡ true) × (IsRead r ⊎ IsWrite mode r)
unfolding check_request
check_request_lem mode create clients d r h =
    let Goal : Type 0 = (has_client r.network_name clients ≡ true) × (IsRead r ⊎ IsWrite mode r) in
    after_bind (text_member d.network "missing or invalid field: network") _ r Goal h
      (λ network _ h1.
        after_bind (int_member d.slave "missing or invalid field: slave") _ r Goal h1 (λ slave _ h2.
          after_bind (text_member d.register "missing or invalid field: register") _ r Goal h2
            (λ register _ h3. after_bind (register_of (codes register)) _ r Goal h3 (λ number _ h4.
              after_bind (register_type_of d.register_type) _ r Goal h4 (λ type _ h5.
                after_bind (converter_of create d.converter) _ r Goal h5 (λ conv _ h6.
                  check_target_lem mode clients d network slave number type conv r h6))))))
