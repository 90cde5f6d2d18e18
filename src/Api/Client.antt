-- ===== src/Api/Client.antt =====
-- `Client` of frontend/src/api/types/client.ts. A byte count is a natural number.
use rx_ui.Base.{ℕ, Bool, Option}
use rx_ui.Js.Text.{Text}

pub record Client : Type 0 where
  pub id : Text
  pub inbound_id : Text
  pub email : Text
  pub uuid : Text
  pub auth : Option Text
  pub flow : Option Text
  pub reverse_tag : Option Text
  pub enabled : Bool
  pub note : Option Text
  pub traffic_limit_bytes : Option ℕ
  pub disabled_reason : Option Text
  pub expires_at : Option Text
  pub sub_token : Text
  pub wg_private_key : Option Text
  pub wg_public_key : Option Text
  pub wg_address : Option Text
  pub wg_preshared_key : Option Text
  pub created_at : Text
  pub updated_at : Text
