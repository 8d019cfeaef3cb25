-- ===== src/Sign.antt =====
-- The signatures of requests: `generateJdSign` of service/jd_order.go, `generateJdShSign` of
-- service/jd_sh.go and `generateSign` of service/taobao_activity.go.
pub mod Order
use report_api.Prelude.{ℕ, Bool, List, [], ◌∷◌, ◌++◌, map, if◌then◌else◌}
use report_api.Go.Text.{Str, Bytes, codes, utf8, str_eq, str_lt}
use report_api.Go.Sort.{sort}
use report_api.Go.Hex.{hex, to_upper}
use report_api.Go.Md5.{md5}

-- A map of parameters, in the order in which a loop over the map meets them.
abbrev pub Params : Type 0
Params = List (Str × Str)

-- `params[k]`, which is empty for a key that is missing.
unfoldable pub value_of : Str → Params → Str
unfolding str_eq
value_of k [] = []
value_of k ((j, v) ∷ params) = if str_eq j k then v else value_of k params

-- The names and values for the sorted names.
unfoldable pub spelled : Params → List Str → Bytes
unfolding value_of utf8
spelled params [] = []
spelled params (k ∷ keys) = utf8 k ++ utf8 (value_of k params) ++ spelled params keys

unfoldable pub sign_str : Params → Bytes
unfolding spelled sort str_lt
sign_str params = spelled params (sort str_lt (map (λ p. p.0) params))

unfoldable pub generate_jd_sign : Params → Str → Bytes
unfolding sign_str md5 hex to_upper utf8
generate_jd_sign params secret =
    to_upper (hex (md5 (utf8 secret ++ sign_str params ++ utf8 secret)))

-- The same text as `generateJdSign`.
unfoldable pub generate_jd_sh_sign : Params → Str → Bytes
unfolding generate_jd_sign
generate_jd_sh_sign params secret = generate_jd_sign params secret

-- The secret is written before the loop here, with the same result.
unfoldable pub generate_sign : Params → Str → Bytes
unfolding sign_str md5 hex to_upper utf8
generate_sign params secret = to_upper (hex (md5 (utf8 secret ++ sign_str params ++ utf8 secret)))
