-- ===== src/Server/Config.antt =====
-- core/loadConfig.go: the settings, each of which must be given.
use report_api.Prelude.{
  false, ◌≡◌, refl, sym, Bool-cases, inl, inr, List, [], ◌∷◌, All, if◌then◌else◌,
}
use report_api.Go.Result.{Result, ok, panic, ◌>>=◌, ok-injective, raised_error}
use report_api.Go.Text.{Str, codes}
use report_api.Go.Text.Split.{is_empty}

pub record Config : Type 0 where
  pub mysql_db : Str
  pub doris_db : Str
  pub redis_db : Str
  pub redis_pool_db : Str
  pub server_port : Str
  pub server_address : Str
  pub log_path : Str
  pub system_mode : Str
  pub callback_base_url : Str
  pub pprof : Str
  pub taobao_app_key : Str
  pub taobao_app_secret : Str

abbrev pub config_keys : List Str
config_keys =
    codes "MYSQL_DB"
    ∷ codes "DORIS_DB"
    ∷ codes "REDIS_DB"
    ∷ codes "REDIS_POOL_DB"
    ∷ codes "SERVER_PORT"
    ∷ codes "SERVER_ADDRESS"
    ∷ codes "LOG_PATH"
    ∷ codes "SYSTEM_MODE"
    ∷ codes "CALLBACK_BASE_URL"
    ∷ codes "PPROF"
    ∷ codes "TAOBAO_APP_KEY"
    ∷ codes "TAOBAO_APP_SECRET"
    ∷ []

refused : {P : Type 0} {config : Config} → panic raised_error ≡ ok config → P
refused h = cc

-- `viper` is viper.GetString after the file and the environment were read. The panic of a key without
-- a value has an error as its value.
module _ (viper : Str → Str) where
  unfoldable pub get_viper_string_value : Str → Result Str
  unfolding is_empty
  get_viper_string_value key = if is_empty (viper key) then panic raised_error else ok (viper key)

  unfoldable pub load_config : Result Config
  unfolding get_viper_string_value
  load_config = get_viper_string_value (codes "MYSQL_DB") >>= λ mysql_db.
      get_viper_string_value (codes "DORIS_DB") >>= λ doris_db.
      get_viper_string_value (codes "REDIS_DB") >>= λ redis_db.
      get_viper_string_value (codes "REDIS_POOL_DB") >>= λ redis_pool_db.
      get_viper_string_value (codes "SERVER_PORT") >>= λ server_port.
      get_viper_string_value (codes "SERVER_ADDRESS") >>= λ server_address.
      get_viper_string_value (codes "LOG_PATH") >>= λ log_path.
      get_viper_string_value (codes "SYSTEM_MODE") >>= λ system_mode.
      get_viper_string_value (codes "CALLBACK_BASE_URL") >>= λ callback_base_url.
      get_viper_string_value (codes "PPROF") >>= λ pprof.
      get_viper_string_value (codes "TAOBAO_APP_KEY") >>= λ taobao_app_key.
      get_viper_string_value (codes "TAOBAO_APP_SECRET") >>= λ taobao_app_secret. ok (record {
        mysql_db = mysql_db;
        doris_db = doris_db;
        redis_db = redis_db;
        redis_pool_db = redis_pool_db;
        server_port = server_port;
        server_address = server_address;
        log_path = log_path;
        system_mode = system_mode;
        callback_base_url = callback_base_url;
        pprof = pprof;
        taobao_app_key = taobao_app_key;
        taobao_app_secret = taobao_app_secret;
      })

  abbrev pub IsGiven : Str → Type 0
  IsGiven key = is_empty (viper key) ≡ false

  -- Code that reads a key and succeeds went on with its value.
  read_key :
      {config : Config} (key : Str) (rest : Str → Result Config)
      → (get_viper_string_value key >>= rest) ≡ ok config
      → IsGiven key × (rest (viper key) ≡ ok config)
  unfolding get_viper_string_value
  read_key key rest h = elim (Bool-cases (is_empty (viper key))) [
    | inl missing ↦ refused (rw missing at h)
    | inr given ↦ (given, rw given at h)
  ]

  -- The settings as `viper` has them.
  abbrev pub config_of : Config
  config_of = record {
    mysql_db = viper (codes "MYSQL_DB");
    doris_db = viper (codes "DORIS_DB");
    redis_db = viper (codes "REDIS_DB");
    redis_pool_db = viper (codes "REDIS_POOL_DB");
    server_port = viper (codes "SERVER_PORT");
    server_address = viper (codes "SERVER_ADDRESS");
    log_path = viper (codes "LOG_PATH");
    system_mode = viper (codes "SYSTEM_MODE");
    callback_base_url = viper (codes "CALLBACK_BASE_URL");
    pprof = viper (codes "PPROF");
    taobao_app_key = viper (codes "TAOBAO_APP_KEY");
    taobao_app_secret = viper (codes "TAOBAO_APP_SECRET");
  }

  -- Where LoadConfig returns, each of the twelve keys has a value, and the settings are these values.
  pub load_config-IsGiven :
      (config : Config) → load_config ≡ ok config → All IsGiven config_keys × (config ≡ config_of)
  unfolding load_config
  load_config-IsGiven config h =
      let (k1, h1) = read_key _ _ h in
      let (k2, h2) = read_key _ _ h1 in
      let (k3, h3) = read_key _ _ h2 in
      let (k4, h4) = read_key _ _ h3 in
      let (k5, h5) = read_key _ _ h4 in
      let (k6, h6) = read_key _ _ h5 in
      let (k7, h7) = read_key _ _ h6 in
      let (k8, h8) = read_key _ _ h7 in
      let (k9, h9) = read_key _ _ h8 in
      let (k10, h10) = read_key _ _ h9 in
      let (k11, h11) = read_key _ _ h10 in
      let (k12, h12) = read_key _ _ h11 in
      (
        (k1, (k2, (k3, (k4, (k5, (k6, (k7, (k8, (k9, (k10, (k11, (k12, tt)))))))))))),
        sym (ok-injective h12),
      )

  next_key :
      {config : Config} (key : Str) (rest : Str → Result Config)
      → IsGiven key
      → rest (viper key) ≡ ok config
      → (get_viper_string_value key >>= rest) ≡ ok config
  unfolding get_viper_string_value
  next_key key rest given h = rw given h

  -- Where each of the twelve keys has a value, LoadConfig returns the settings.
  pub load_config-config_of : All IsGiven config_keys → load_config ≡ ok config_of
  unfolding load_config
  load_config-config_of
        (k1, (k2, (k3, (k4, (k5, (k6, (k7, (k8, (k9, (k10, (k11, (k12, h)))))))))))) =
      next_key _ _ k1 (
        next_key _ _ k2 (
          next_key _ _ k3 (
            next_key _ _ k4 (
              next_key _ _ k5 (
                next_key _ _ k6 (
                  next_key _ _ k7 (
                    next_key _ _ k8 (
                      next_key _ _ k9
                        (next_key _ _ k10 (next_key _ _ k11 (next_key _ _ k12 refl)))))))))))
