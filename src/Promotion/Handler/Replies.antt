-- ===== src/Promotion/Handler/Replies.antt =====
-- What the replies of `GetJdShPromotion` say.
use report_api.Prelude.{◌≡◌, refl, true, false, Bool-cases, inl, inr, [], ◌∷◌, ◌++◌, String}
use report_api.Prelude.Int.{pos, eqb_ℤ}
use report_api.Go.Result.{errorf}
use report_api.Go.Returns.{Returns, failed, returned, ◌>>=◌, wrap_error}
use report_api.Go.Text.{Str, Bytes, codes, str_eq, str_eq→eq}
use report_api.Callback.Http.{Log}
use report_api.Order.Client.{jd_http_get}
use report_api.Promotion.{
  Service, PromotionRequest, PromotionResponse, PromotionResult, inner_req, or_default, request_url,
  checked_result, result_of_response, fetch_jd_sh_promotion, jd_sh_app_key, jd_sh_app_secret,
}
use report_api.Promotion.Handler.{fetched, missing, fetched_reply, get_jd_sh_promotion}

-- What comes with a value was returned, before it and behind it.
>>=-returned {u v} :
    {V : Type u} {W : Type v} (call : Returns V) (rest : V → Returns W) {result : W}
    → (call >>= rest) ≡ returned result
    → (value : V) × (call ≡ returned value) × (rest value ≡ returned result)
>>=-returned (returned value) rest h = (value, refl, h)
>>=-returned (failed e) rest h = cc

wrap_error-returned {u} :
    {V : Type u} (text : String) (call : Returns V) {value : V}
    → wrap_error text call ≡ returned value
    → call ≡ returned value
wrap_error-returned text (failed e) h = cc
wrap_error-returned text (returned v) h = h

checked_result-code :
    (result : PromotionResult) {r : PromotionResult}
    → checked_result result ≡ returned r
    → (result ≡ r) × (eqb_ℤ result.code (pos 200) ≡ true)
unfolding checked_result
checked_result-code result h = elim (Bool-cases (eqb_ℤ result.code (pos 200))) [
  | inl e ↦ (returned-injective (rw e at h), e)
  | inr e ↦ absurd (not_returned (rw e at h))
]
  where
    not_returned : {r : PromotionResult} → failed (errorf "JD API query error") ≡ returned r → ⊥
    not_returned h = cc

    returned-injective : {r : PromotionResult} → returned result ≡ returned r → result ≡ r
    returned-injective h = cc

-- Both codes of a result's response say success.
result_of_response-returned :
    (unmarshal_result : Str → Returns PromotionResult) (response : PromotionResponse)
    {r : PromotionResult}
    → result_of_response unmarshal_result response ≡ returned r
    → (response.code ≡ codes "0")
      × (unmarshal_result response.get_result ≡ returned r)
      × (eqb_ℤ r.code (pos 200) ≡ true)
unfolding result_of_response
result_of_response-returned unmarshal_result response {r} h =
    elim (Bool-cases (str_eq response.code (codes "0"))) [
      | inl e ↦
          let (result, read, checked) =
            >>=-returned
              (wrap_error "failed to parse getResult" (unmarshal_result response.get_result))
              checked_result (rw e at h) in
          let (same, code) = checked_result-code result checked in
          (
            str_eq→eq _ _ e,
            wrap_error-returned "failed to parse getResult" (unmarshal_result response.get_result)
                (rw (← same) read),
            rw (← same) code,
          )
      | inr e ↦ absurd (not_returned (rw e at h))
    ]
  where
    not_returned : failed (errorf "JD API error") ≡ returned r → ⊥
    not_returned h = cc

missing_not_fetched : {field : String} {r : PromotionResult} → missing field ≡ fetched r → ⊥
missing_not_fetched h = cc

fetched_reply-fetched :
    (result : Returns PromotionResult) {r : PromotionResult}
    → fetched_reply result ≡ fetched r
    → result ≡ returned r
unfolding fetched_reply
fetched_reply-fetched (failed e) h = cc
fetched_reply-fetched (returned result) h = cc

module _ (jd : Service) (req : PromotionRequest) (log : Log) where
  abbrev sent_url : Str → Str → Bytes
  sent_url app_key secret =
      request_url (or_default app_key jd_sh_app_key) (or_default secret jd_sh_app_secret)
        (jd.timestamp log) (jd.marshal (inner_req req))

  fetch-returned :
      (app_key secret : Str) {r : PromotionResult}
      → (fetch_jd_sh_promotion jd req app_key secret log).0 ≡ returned r
      → (content : Bytes) × (response : PromotionResponse) × (jd.server log
            (sent_url app_key secret)
          ≡ returned content)
        × (jd.unmarshal_response content ≡ returned response)
        × (response.code ≡ codes "0")
        × (jd.unmarshal_result response.get_result ≡ returned r)
        × (eqb_ℤ r.code (pos 200) ≡ true)
  unfolding fetch_jd_sh_promotion jd_http_get
  fetch-returned app_key secret h =
      let (response, got, rest) = >>=-returned _ (result_of_response jd.unmarshal_result) h in
      let (content, replied, read) = >>=-returned _ jd.unmarshal_response got in
      let (zero, inner, code) = result_of_response-returned jd.unmarshal_result response rest in
      (content, response, wrap_error-returned _ _ replied, read, zero, inner, code)

  fetch-sent :
      (fetch_jd_sh_promotion jd req jd_sh_app_key jd_sh_app_secret log).1
      ≡ log ++ sent_url jd_sh_app_key jd_sh_app_secret ∷ []
  unfolding fetch_jd_sh_promotion jd_http_get
  fetch-sent = refl

  -- A promotion link is sent only for a request with an account, a material and a scene, after the one
  -- request whose reply has the code "0" and holds the link with the code 200.
  pub get_jd_sh_promotion_fetched :
      {r : PromotionResult}
      → let (reply, sent) = get_jd_sh_promotion jd (returned req) log in
        reply ≡ fetched r
        → let url = sent_url jd_sh_app_key jd_sh_app_secret in
          (content : Bytes) × (response : PromotionResponse) × (str_eq req.account [] ≡ false)
          × (str_eq req.material_id [] ≡ false)
          × (eqb_ℤ req.scene_id (pos 0) ≡ false)
          × (jd.server log url ≡ returned content)
          × (jd.unmarshal_response content ≡ returned response)
          × (response.code ≡ codes "0")
          × (jd.unmarshal_result response.get_result ≡ returned r)
          × (eqb_ℤ r.code (pos 200) ≡ true)
          × (sent ≡ log ++ url ∷ [])
  unfolding get_jd_sh_promotion fetched_reply
  get_jd_sh_promotion_fetched {r} h = elim (Bool-cases (str_eq req.account [])) [
    | inl a ↦ absurd (missing_not_fetched (rw a at h))
    | inr a ↦ elim (Bool-cases (str_eq req.material_id [])) [
      | inl m ↦ absurd (missing_not_fetched (rw (a, m) at h))
      | inr m ↦ elim (Bool-cases (eqb_ℤ req.scene_id (pos 0))) [
        | inl s ↦ absurd (missing_not_fetched (rw (a, m, s) at h))
        | inr s ↦
            let (content, response, replied, read, zero, inner, code) =
              fetch-returned jd_sh_app_key jd_sh_app_secret (
                fetched_reply-fetched
                  (fetch_jd_sh_promotion jd req jd_sh_app_key jd_sh_app_secret log).0
                  (rw (a, m, s) at h)) in
            (content, response, a, m, s, replied, read, zero, inner, code, rw (a, m, s) fetch-sent)
      ]
    ]
  ]
