-- ===== src/Activity/ExtInfo.antt =====
-- `parseExtInfo`: eight entries of a JSON object, each taken if it has the type that is expected.
use report_api.Prelude.{List, [], ◌∷◌, if◌then◌else◌}
use report_api.Go.Returns.{Returns, failed, returned}
use report_api.Go.Text.{Str, codes, str_eq}
use report_api.Excel.Sheet.{Float64}

-- A value of `map[string]interface{}`: any but texts and numbers is `other`.
pub data Json : Type 0 where
  string : Str → Json
  float64 : Float64 → Json
  other : Json

-- The map that `json.Unmarshal` fills: its entries have different keys.
abbrev pub Object : Type 0
Object = List (Str × Json)

-- `ExtInfoParsed`.
pub record ExtInfoParsed : Type 0 where
  pub crowd1_reward_uv : Str
  pub crowd2_reward_uv : Str
  pub crowd3_reward_uv : Str
  pub crowd4_reward_uv : Str
  pub crowd5_reward_uv : Str
  pub account_draw_rate : Float64
  pub draw_rate : Float64
  pub update_time : Str

-- The zero value: all bits of the number 0.0 are 0.
unfoldable pub no_ext_info : ExtInfoParsed
no_ext_info = record {
  crowd1_reward_uv = [];
  crowd2_reward_uv = [];
  crowd3_reward_uv = [];
  crowd4_reward_uv = [];
  crowd5_reward_uv = [];
  account_draw_rate = 0;
  draw_rate = 0;
  update_time = [];
}

-- `extData[k]`; a missing key yields nil, which has neither type.
unfoldable pub entry : Str → Object → Json
unfolding str_eq
entry k [] = other
entry k ((j, v) ∷ data_map) = if str_eq j k then v else entry k data_map

unfoldable pub string_or_empty : Json → Str
string_or_empty (string s) = s
string_or_empty (float64 f) = []
string_or_empty other = []

unfoldable pub float64_or_zero : Json → Float64
float64_or_zero (string s) = 0
float64_or_zero (float64 f) = f
float64_or_zero other = 0

unfoldable pub ext_info_of_object : Object → ExtInfoParsed
unfolding entry string_or_empty float64_or_zero
ext_info_of_object data_map = record {
  crowd1_reward_uv = string_or_empty (entry (codes "人群1结算奖励uv") data_map);
  crowd2_reward_uv = string_or_empty (entry (codes "人群2结算奖励uv") data_map);
  crowd3_reward_uv = string_or_empty (entry (codes "人群3结算奖励uv") data_map);
  crowd4_reward_uv = string_or_empty (entry (codes "人群4结算奖励uv") data_map);
  crowd5_reward_uv = string_or_empty (entry (codes "人群5结算奖励uv") data_map);
  account_draw_rate = float64_or_zero (entry (codes "账号总开奖率（奖励计算用)") data_map);
  draw_rate = float64_or_zero (entry (codes "开奖率") data_map);
  update_time = string_or_empty (entry (codes "更新时间") data_map);
}

-- `json.Unmarshal` into the map may fail.
unfoldable pub parse_ext_info : (Str → Returns Object) → Str → ExtInfoParsed
unfolding no_ext_info ext_info_of_object
parse_ext_info unmarshal [] = no_ext_info
parse_ext_info unmarshal (c ∷ s) = elim (unmarshal (c ∷ s)) [
  | failed e ↦ no_ext_info
  | returned data_map ↦ ext_info_of_object data_map
]
