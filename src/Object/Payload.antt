-- ===== src/Object/Payload.antt =====
-- libmodmqttsrv/mqttpayload.cpp: the payload of the state topic of an object. A JSON document is the
-- tree of the calls of `rapidjson::Writer`; the text that rapidjson writes for it is an argument.
-- `none` is an exception of a converter, or `nodes[0]` of an object without nodes.
use Prim.Native.String.{String}
use text.Mathlib.Text.{◌==◌ as str_eq}
use mqmgateway.Base.{
  ℤ, ℕ, zero, suc, Bool, true, false, not, ◌&&◌, ◌||◌, Option, none, some, List, [], ◌∷◌,
  if◌then◌else◌, ◌>>=◌,
}
use mqmgateway.Object.{
  MqttObjectDataNode, scalar, composite, MqttObjectDataNodeList, single, several, node_name,
  get_converted_value,
}
use mqmgateway.Object.State.{MqttObject}
use mqmgateway.Value.{MqttValue, binary, int, int64, double, get_int64, get_string}

-- A number with a fraction carries the most decimal places that are written.
mutual
  pub data Json : Type 0 where
    json_int : ℤ → Json
    json_double : ℤ → ℕ → ℕ → Json
    json_string : List ℕ → Json
    json_array : JsonItems → Json
    json_object : JsonMembers → Json

  pub data JsonItems : Type 0 where
    no_items : JsonItems
    next_item : Json → JsonItems → JsonItems

  pub data JsonMembers : Type 0 where
    no_members : JsonMembers
    next_member : String → Json → JsonMembers → JsonMembers

unfoldable pub create_converted_value : MqttValue → Option Json
unfolding get_int64
create_converted_value (binary text) = some (json_string text)
create_converted_value (int z) = some (json_int z)
create_converted_value (int64 z) = some (json_int z)
create_converted_value (double m k none) = some (json_double m k 6)
create_converted_value (double m k (some zero)) =
    get_int64 (double m k (some 0)) >>= λ z. some (json_int z)
create_converted_value (double m k (some (suc p))) = some (json_double m k (suc p))

abbrev pub is_unnamed : MqttObjectDataNode → Bool
is_unnamed n = str_eq (node_name n) ""

abbrev pub front : MqttObjectDataNodeList → MqttObjectDataNode
front (single n) = n
front (several n ns) = n

abbrev pub is_map : MqttObjectDataNodeList → Bool
is_map ns = not (is_unnamed (front ns))

abbrev pub has_many : MqttObjectDataNodeList → Bool
has_many (single n) = false
has_many (several n ns) = true

abbrev pub is_list : Bool → MqttObjectDataNodeList → Bool
is_list as_list ns = as_list || (has_many ns && is_unnamed (front ns))

abbrev pub converted_json : MqttObjectDataNode → Option Json
converted_json n = get_converted_value n >>= create_converted_value

-- The choice that `generateJson` makes, over the members and the items that the loops write.
abbrev pub choose_json :
    Bool → MqttObjectDataNodeList → Option JsonMembers → Option JsonItems → Option Json
choose_json as_list ns members items =
    if is_map ns
    then (members >>= λ ms. some (json_object ms))
    else (if is_list as_list ns
        then (items >>= λ js. some (json_array js))
        else converted_json (front ns))

-- `generateJson`: what is written for one node, and the loops over a list of nodes.
unfoldable mutual
  pub node_json : MqttObjectDataNode → Option Json
  node_json (scalar name conv ident value) = converted_json (scalar name conv ident value)
  node_json (composite name (some conv) as_list nodes) =
      converted_json (composite name (some conv) as_list nodes)
  node_json (composite name none as_list nodes) =
      choose_json as_list nodes (member_list nodes) (item_list nodes)

  pub member_list : MqttObjectDataNodeList → Option JsonMembers
  member_list (single n) = node_json n >>= λ j. some (next_member (node_name n) j no_members)
  member_list (several n ns) =
      node_json n >>= λ j. member_list ns >>= λ rest. some (next_member (node_name n) j rest)

  pub item_list : MqttObjectDataNodeList → Option JsonItems
  item_list (single n) = node_json n >>= λ j. some (next_item j no_items)
  item_list (several n ns) = node_json n >>= λ j. item_list ns >>= λ rest. some (next_item j rest)

unfoldable pub generate_json : Bool → MqttObjectDataNodeList → Option Json
unfolding node_json
generate_json as_list ns = choose_json as_list ns (member_list ns) (item_list ns)

abbrev pub node_list : MqttObjectDataNode → List MqttObjectDataNode → MqttObjectDataNodeList
node_list n [] = single n
node_list n (m ∷ ns) = several n (node_list m ns)

-- A scalar, or a node with a converter.
abbrev pub is_single_value : MqttObjectDataNode → Bool
is_single_value (scalar name conv ident value) = true
is_single_value (composite name (some conv) as_list nodes) = true
is_single_value (composite name none as_list nodes) = false

-- `MqttPayload::generate`; `text` is what rapidjson writes for a document.
unfoldable pub generate : (Json → List ℕ) → MqttObject → Option (List ℕ)
unfolding generate_json get_converted_value get_string
generate text o = elim o.state.nodes [
  | [] ↦ none
  | n ∷ ns ↦
      if not o.state.output_as_list && is_unnamed n && is_single_value n
      then get_converted_value n >>= get_string
      else (generate_json o.state.output_as_list (node_list n ns) >>= λ j. some (text j))
]
