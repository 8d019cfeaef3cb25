-- ===== src/Go/Hex.antt =====
-- `hex.EncodeToString` and the verb `%x`, and `strings.ToUpper` and `ToLower` on ASCII text.
pub mod Decode
use report_api.Prelude.{
  ℕ, ◌+◌, ◌-◌, ◌/◌, ◌%◌, ◌≡◌, refl, ◌&&◌, [], ◌∷◌, map, ltb, leb, if◌then◌else◌,
}
use report_api.Go.Text.{Bytes, codes}

unfoldable pub digit : ℕ → ℕ
digit n = if ltb n 10 then b'0' + n else b'a' + (n - 10)

unfoldable pub hex : Bytes → Bytes
unfolding digit
hex [] = []
hex (b ∷ bytes) = digit (b / 16) ∷ digit (b % 16) ∷ hex bytes

unfoldable pub upper : ℕ → ℕ
upper c = if leb b'a' c && leb c b'z' then c - 32 else c

unfoldable pub to_upper : Bytes → Bytes
unfolding upper
to_upper s = map upper s

hex_runs : to_upper (hex (0 ∷ 171 ∷ [])) ≡ codes "00AB"
unfolding hex to_upper
hex_runs = refl
