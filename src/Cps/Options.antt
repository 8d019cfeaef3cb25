-- ===== src/Cps/Options.antt =====
-- NewClient of common/topsdk-go/client.go with its options.
use report_api.Prelude.{
  ℕ, ◌≡◌, refl, ap, ◌∙◌, Bool-cases, inl, inr, List, [], ◌∷◌, ◌++◌, All, if◌then◌else◌,
}
use report_api.Go.Result.{errorf}
use report_api.Go.Returns.{Returns, failed, returned, ◌>>=◌}
use report_api.Go.Text.{Str, codes, str_eq}
use report_api.Cps.{Client, new_client}

-- The timeout is in seconds.
pub record ClientOptions : Type 0 where
  pub app_key : Str
  pub app_secret : Str
  pub api_url : Str
  pub api_batch_url : Str
  pub session : Str
  pub api_timeout : ℕ

abbrev pub default_options : ClientOptions
default_options = record {
  app_key = [];
  app_secret = [];
  api_url = codes "https://eco.taobao.com/router/rest";
  api_batch_url = codes "https://eco.taobao.com/router/batch";
  session = [];
  api_timeout = 30;
}

abbrev pub ClientOption : Type 0
ClientOption = ClientOptions → ClientOptions

unfoldable pub with_api_url : Str → ClientOption
with_api_url url opts = record opts { api_url = url }

unfoldable pub with_api_batch_url : Str → ClientOption
with_api_batch_url batch_url opts = record opts { api_batch_url = batch_url }

unfoldable pub with_session : Str → ClientOption
with_session session opts = record opts { session = session }

unfoldable pub apply_options : List ClientOption → ClientOptions → ClientOptions
apply_options [] opt = opt
apply_options (o ∷ opts) opt = apply_options opts (o opt)

-- The options that the client is made of.
unfoldable pub client_options : Str → Str → List ClientOption → Returns ClientOptions
unfolding apply_options
client_options app_key app_secret opts =
    if str_eq app_key []
    then failed (errorf "app key cannot be empty")
    else if str_eq app_secret []
    then failed (errorf "app secret cannot be empty")
    else returned
        (apply_options opts (record default_options { app_key = app_key; app_secret = app_secret }))

-- The fields that requests are made with.
abbrev pub client_of : ClientOptions → Client
client_of opt = record { app_key = opt.app_key; app_secret = opt.app_secret; session = opt.session }

-- An option that sets no key and no session: it only moves the client to other addresses.
abbrev pub IsAddress : ClientOption → Type 0
IsAddress o = (opt : ClientOptions) → client_of (o opt) ≡ client_of opt

apply_options-addresses :
    (opts : List ClientOption) (opt : ClientOptions)
    → All IsAddress opts
    → client_of (apply_options opts opt) ≡ client_of opt
unfolding apply_options
apply_options-addresses [] opt h = refl
apply_options-addresses (o ∷ opts) opt (h, hs) = apply_options-addresses opts (o opt) hs ∙ h opt

-- The options of a session between options of addresses.
apply_options-session :
    (before after : List ClientOption) (session : Str) (opt : ClientOptions)
    → All IsAddress before
    → All IsAddress after
    → client_of (apply_options (before ++ with_session session ∷ after) opt)
      ≡ record (client_of opt) { session = session }
unfolding apply_options with_session
apply_options-session [] after session opt b a = apply_options-addresses after _ a
apply_options-session (o ∷ before) after session opt (b, bs) a =
    apply_options-session before after session (o opt) bs a
    ∙ ap {A = Client} (λ c. record c { session = session }) (b opt)

-- With one session among any options of addresses, in any order, NewClient makes the client that it makes
-- with the session alone, or fails with the same error.
pub client_options-new_client :
    (app_key app_secret session : Str) (before after : List ClientOption)
    → All IsAddress before
    → All IsAddress after
    → (client_options app_key app_secret (before ++ with_session session ∷ after) >>= λ opt.
        returned (client_of opt))
      ≡ new_client app_key app_secret session
unfolding client_options new_client
client_options-new_client app_key app_secret session before after b a =
    elim (Bool-cases (str_eq app_key [])) [
      | inl no_key ↦ rw no_key
      | inr key ↦ elim (Bool-cases (str_eq app_secret [])) [
        | inl no_secret ↦ rw (key, no_secret)
        | inr secret ↦
            rw (key, secret)
              (ap returned (
                apply_options-session before after session
                  (record default_options { app_key = app_key; app_secret = app_secret }) b a))
      ]
    ]

-- WithApiURL is an option of an address.
pub with_api_url-IsAddress : (url : Str) → IsAddress (with_api_url url)
unfolding with_api_url
with_api_url-IsAddress url opt = refl

-- WithApiBatchURL is an option of an address.
pub with_api_batch_url-IsAddress : (batch_url : Str) → IsAddress (with_api_batch_url batch_url)
unfolding with_api_batch_url
with_api_batch_url-IsAddress batch_url opt = refl
