-- ===== src/Common/Agents.antt =====
-- The kinds of user agents of common/uapar/uapar.go. A user agent is ASCII text, and a map is the list
-- of its entries in the order in which the loop meets them.
use report_api.Prelude.{
  ℕ, ◌≡◌, refl, ap, Bool, true, false, ◌&&◌, Bool-cases, inl, inr, List, [], ◌∷◌, leb,
  if◌then◌else◌, All, arith,
}
use report_api.Go.Text.{Str, codes, has_prefix}
use report_api.Go.Hex.{upper, to_upper}
use report_api.Go.Hex.Decode.{lower, to_lower}

-- `strings.Index(s, p) > -1`.
unfoldable pub occurs : Str → Str → Bool
unfolding has_prefix
occurs [] p = has_prefix [] p
occurs (c ∷ s) p = let rest = occurs s p in if has_prefix (c ∷ s) p then true else rest

abbrev pub Rule : Type 0
Rule = List (Str × ℕ)

abbrev pub os_rule : Rule
os_rule =
    (codes "windows", 4)
    ∷ (codes "macintosh", 3)
    ∷ (codes "android", 1)
    ∷ (codes "cpu iphone os", 2)
    ∷ []

abbrev pub browser_rule : Rule
browser_rule = (codes "micromessenger", 1) ∷ (codes "mqqbrowser", 2) ∷ (codes "aweme", 3) ∷ []

abbrev pub bot_rule : List Str
bot_rule =
    codes "googlebot"
    ∷ codes "baiduspider"
    ∷ codes "yahoo! slurp"
    ∷ codes "msnbot"
    ∷ codes "sosospider"
    ∷ codes "yodaoBot"
    ∷ codes "sogou web spider"
    ∷ codes "fast-webcrawler"
    ∷ codes "gaisbot"
    ∷ codes "ia_archiver"
    ∷ codes "altavista"
    ∷ codes "lycos_spider"
    ∷ codes "inktomi slurp"
    ∷ codes "googlebot-mobile"
    ∷ codes "360spider"
    ∷ codes "haosouspider"
    ∷ codes "sogou news spider"
    ∷ codes "youdaobot"
    ∷ codes "bingbot"
    ∷ codes "yisouspider"
    ∷ codes "easouspider"
    ∷ codes "jikespider"
    ∷ codes "sogou blog"
    ∷ []

unfoldable pub first_match : Rule → Str → ℕ
unfolding occurs
first_match [] ua = 0
first_match ((k, v) ∷ rule) ua = let rest = first_match rule ua in if occurs ua k then v else rest

-- The test `ua != ""`.
unfoldable pub parse_by_ua : Rule → Str → ℕ
unfolding first_match to_lower
parse_by_ua rule [] = 0
parse_by_ua rule (c ∷ ua) = first_match rule (to_lower (c ∷ ua))

-- `rule` is OS_RULE.
unfoldable pub parse_os_by_ua : Rule → Str → ℕ
unfolding parse_by_ua
parse_os_by_ua rule ua = parse_by_ua rule ua

-- `rule` is BROWSER_RULE.
unfoldable pub parse_browser_by_ua : Rule → Str → ℕ
unfolding parse_by_ua
parse_browser_by_ua rule ua = parse_by_ua rule ua

unfoldable pub any_occurs : List Str → Str → Bool
unfolding occurs
any_occurs [] ua = false
any_occurs (v ∷ rules) ua = let rest = any_occurs rules ua in if occurs ua v then true else rest

unfoldable pub filter_bot : Str → Bool
unfolding any_occurs to_lower
filter_bot [] = false
filter_bot (c ∷ ua) = any_occurs bot_rule (to_lower (c ∷ ua))

-- The letter is in lower case, or no letter.
abbrev IsLower : ℕ → Type 0
IsLower c = (leb 65 c && leb c 90) ≡ false

has_prefix-IsLower : (s p : Str) → All IsLower s → has_prefix s p ≡ true → All IsLower p
unfolding has_prefix
has_prefix-IsLower s [] h e = tt
has_prefix-IsLower [] (d ∷ p) h e = cc
has_prefix-IsLower (c ∷ s) (d ∷ p) (h, hs) e =
    (ground arith, has_prefix-IsLower s p hs (ground arith))

occurs-IsLower : (s p : Str) → All IsLower s → occurs s p ≡ true → All IsLower p
unfolding occurs
occurs-IsLower [] p h e = has_prefix-IsLower [] p h e
occurs-IsLower (c ∷ s) p (h, hs) e = elim (Bool-cases (has_prefix (c ∷ s) p)) [
  | inl here ↦ has_prefix-IsLower (c ∷ s) p (h, hs) here
  | inr later ↦ occurs-IsLower s p hs (rw (occurs, later) at e)
]

to_lower-IsLower : (s : Str) → All IsLower (to_lower s)
unfolding to_lower lower
to_lower-IsLower [] = tt
to_lower-IsLower (c ∷ s) = (ground arith, to_lower-IsLower s)

-- A rule with a capital letter matches no user agent, since these are put in lower case before:
-- "yodaoBot" never does.
pub yodao_bot_never : (ua : Str) → occurs (to_lower ua) (codes "yodaoBot") ≡ false
yodao_bot_never ua = elim (Bool-cases (occurs (to_lower ua) (codes "yodaoBot"))) [
  | inr e ↦ e
  | inl e ↦
      absurd
        (ground (arith, occurs-IsLower (to_lower ua) (codes "yodaoBot") (to_lower-IsLower ua) e))
]

lower-upper : (c : ℕ) → lower (upper c) ≡ lower c
unfolding lower upper
lower-upper c = ground arith

to_lower-to_upper : (s : Str) → to_lower (to_upper s) ≡ to_lower s
unfolding to_lower to_upper
to_lower-to_upper [] = refl
to_lower-to_upper (c ∷ s) = rw (lower-upper c, to_lower-to_upper s)

parse_by_ua-to_upper :
    (rule : Rule) (ua : Str) → parse_by_ua rule (to_upper ua) ≡ parse_by_ua rule ua
unfolding parse_by_ua to_upper
parse_by_ua-to_upper rule [] = refl
parse_by_ua-to_upper rule (c ∷ ua) = ap (first_match rule) (to_lower-to_upper (c ∷ ua))

filter_bot-to_upper : (ua : Str) → filter_bot (to_upper ua) ≡ filter_bot ua
unfolding filter_bot to_upper
filter_bot-to_upper [] = refl
filter_bot-to_upper (c ∷ ua) = ap (any_occurs bot_rule) (to_lower-to_upper (c ∷ ua))

-- ParseOsByUA, ParseBrowserByUA and FilterBot do not depend on the case of the letters of a user agent.
pub agents-to_upper :
    (rule : Rule) (ua : Str)
    → (parse_os_by_ua rule (to_upper ua) ≡ parse_os_by_ua rule ua)
      × (parse_browser_by_ua rule (to_upper ua) ≡ parse_browser_by_ua rule ua)
      × (filter_bot (to_upper ua) ≡ filter_bot ua)
unfolding parse_os_by_ua parse_browser_by_ua
agents-to_upper rule ua =
    (parse_by_ua-to_upper rule ua, parse_by_ua-to_upper rule ua, filter_bot-to_upper ua)

-- A run of each, on the rules of the file.
agents_run :
    (parse_os_by_ua os_rule (codes "Mozilla (Linux; Android 12)") ≡ 1)
    × (parse_browser_by_ua browser_rule (codes "x MicroMessenger/8") ≡ 1)
    × (filter_bot (codes "Googlebot/2.1") ≡ true)
    × (filter_bot (codes "Safari") ≡ false)
unfolding parse_os_by_ua parse_browser_by_ua filter_bot lower
agents_run = (refl, refl, refl, refl)
