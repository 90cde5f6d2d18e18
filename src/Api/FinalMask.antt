-- ===== src/Api/FinalMask.antt =====
-- frontend/src/api/types/finalmask.ts
use rx_ui.Base.{List, Option}
use rx_ui.Js.Text.{Text}
use rx_ui.Js.Number.{Number}

pub record SudokuParams : Type 0 where
  pub password : Text
  pub ascii : Text
  pub custom_table : Text
  pub padding_min : Option Number
  pub padding_max : Option Number
  pub custom_tables : List Text

pub record FragmentParams : Type 0 where
  pub packets_from : Option Number
  pub packets_to : Option Number
  pub lengths_min : List Number
  pub lengths_max : List Number
  pub delays_min : List Number
  pub delays_max : List Number
  pub max_split_min : Option Number
  pub max_split_max : Option Number

pub record NoiseItem : Type 0 where
  pub packet_hex : Text
  pub rand_min : Option Number
  pub rand_max : Option Number
  pub delay_min : Option Number
  pub delay_max : Option Number

pub record NoiseParams : Type 0 where
  pub items : List NoiseItem
  pub reset_min : Option Number
  pub reset_max : Option Number

pub record SalamanderParams : Type 0 where
  pub password : Text

pub record XmcProfile : Type 0 where
  pub username : Text
  pub uuid : Text
  pub textures_value : Text
  pub textures_signature : Text

pub record XmcParams : Type 0 where
  pub hostname : Text
  pub password : Text
  pub profiles : List XmcProfile

pub data FinalMask : Type 0 where
  none : FinalMask
  sudoku : SudokuParams → FinalMask
  fragment : FragmentParams → FinalMask
  noise : NoiseParams → FinalMask
  salamander : SalamanderParams → FinalMask
  xmc : XmcParams → FinalMask

-- `FinalMask['kind']`
pub data FinalMaskKind : Type 0 where
  none sudoku fragment noise salamander xmc : FinalMaskKind

unfoldable pub final_mask_kind : FinalMask → FinalMaskKind
final_mask_kind FinalMask.none = FinalMaskKind.none
final_mask_kind (FinalMask.sudoku p) = FinalMaskKind.sudoku
final_mask_kind (FinalMask.fragment p) = FinalMaskKind.fragment
final_mask_kind (FinalMask.noise p) = FinalMaskKind.noise
final_mask_kind (FinalMask.salamander p) = FinalMaskKind.salamander
final_mask_kind (FinalMask.xmc p) = FinalMaskKind.xmc
