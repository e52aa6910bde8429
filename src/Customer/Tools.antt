-- ===== src/Customer/Tools.antt =====
-- services/user-service/src/tools.rs: the MCP tools, which all answer that they are not implemented.
mod Tests
use drone_dispatch.Common.{ℕ, Bool, Option, List}
use drone_dispatch.Common.Int.{ℤ}
use drone_dispatch.Text.{Text, text}

pub record CartItem : Type 0 where
  pub item_id : Text
  pub qty : ℕ

pub record SearchNearbyShops : Type 0 where
  pub category : Text
  pub pickup_location_id : Option Text
  pub radius_m : Option ℕ

pub record SearchPlaces : Type 0 where
  pub query : Text
  pub pickup_location_id : Option Text

pub record GetMenu : Type 0 where
  pub place_id : Text
  pub query : Option Text

pub record OrderHistory : Type 0 where
  pub limit : Option ℕ
  pub place_id : Option Text

pub record NewPickupLocation : Type 0 where
  pub address : Text
  pub label : Text

pub record UpdateCart : Type 0 where
  pub place_id : Text
  pub items : List CartItem
  pub pickup_location_id : Text

pub record PlaceOrder : Type 0 where
  pub quote_id : Text
  pub expected_total_cents : ℤ
  pub customer_confirmed : Bool

-- A call of a tool with its parameters; those with a single field are that field.
pub data Call : Type 0 where
  search_nearby_shops : SearchNearbyShops → Call
  search_places : SearchPlaces → Call
  get_shop_details : Text → Call
  get_menu : GetMenu → Call
  list_past_order_locations : Option ℕ → Call
  list_order_history : OrderHistory → Call
  reorder : Text → Call
  list_pickup_locations : Call
  request_new_pickup_location : NewPickupLocation → Call
  update_cart : UpdateCart → Call
  place_order : PlaceOrder → Call
  get_order_status : Option Text → Call
  cancel_order : Text → Call

unfoldable pub tool_name : Call → Text
tool_name (search_nearby_shops params) = text "search_nearby_shops"
tool_name (search_places params) = text "search_places"
tool_name (get_shop_details params) = text "get_shop_details"
tool_name (get_menu params) = text "get_menu"
tool_name (list_past_order_locations params) = text "list_past_order_locations"
tool_name (list_order_history params) = text "list_order_history"
tool_name (reorder params) = text "reorder"
tool_name list_pickup_locations = text "list_pickup_locations"
tool_name (request_new_pickup_location params) = text "request_new_pickup_location"
tool_name (update_cart params) = text "update_cart"
tool_name (place_order params) = text "place_order"
tool_name (get_order_status params) = text "get_order_status"
tool_name (cancel_order params) = text "cancel_order"

-- The JSON object of the reply.
pub record ToolReply : Type 0 where
  pub status : Text
  pub tool : Text
  pub next_step : Text

unfoldable pub not_implemented : Text → ToolReply
not_implemented tool = record {
  status = text "not_implemented";
  tool = tool;
  next_step = text "Tell the customer this Drone Drop feature is not available yet.";
}

unfoldable pub answer : Call → ToolReply
unfolding tool_name not_implemented
answer call = not_implemented (tool_name call)
