-- ===== src/Config.antt =====
-- internal/master/manager/config_manager.go: the proxy to a Nacos server, with the token that a login
-- gives it. What the server answers and which statement SQLite refuses are arguments; `requests`
-- is what was sent to it, the latest first. The stored JSON is read back as what was stored.
pub mod Token
use ops_system.Prelude.{
  ◌≡◌, refl, ℕ, zero, suc, String, List, [], ◌∷◌, Option, none, some, Bool, true, false, ◌==◌,
  string_key, if◌then◌else◌, ◌&&◌, not,
}
use ops_system.Table.{exec}
use Prim.Native.String.{◌++◌ as append, len, slice}

pub record NacosConfig : Type 0 where
  pub url : String
  pub username : String
  pub password : String

pub data NacosRequest : Type 0 where
  signs_in : String → String → String → NacosRequest  -- URL, user and password
  gets posts : String → String → List (String × String) → NacosRequest  -- URL, token, values
  removes : String → String → String → String → String → NacosRequest  -- URL, token, id, group, tenant

pub record ConfigManager : Type 0 where
  pub settings : Option NacosConfig  -- the row nacos_config of sys_settings
  pub nacos_token : String
  pub nacos_base : String
  pub requests : List NacosRequest

unfoldable pub save_nacos_config : Bool → NacosConfig → ConfigManager → ConfigManager × Bool
save_nacos_config fault cfg cm = (
  record cm {
    settings = exec fault (λ _. some cfg) cm.settings;
    nacos_token = "";
    nacos_base = "";
  },
  fault,
)

unfoldable pub get_nacos_config : Bool → ConfigManager → Option NacosConfig
get_nacos_config fault cm = if fault then none else cm.settings

-- how a login ends: no answer, another status than 200, no token in the body, or a token
pub data SignIn : Type 0 where
  unreachable refused garbled : SignIn
  granted : String → SignIn

abbrev pub keep_token : String → SignIn → ConfigManager → ConfigManager × Bool
keep_token base (granted token) cm = (record cm { nacos_token = token; nacos_base = base }, false)
keep_token base other cm = (cm, true)

-- strings.TrimRight(s, "/"), with `n` bytes left
unfoldable pub trim_right : ℕ → String → String
trim_right zero s = ""
trim_right (suc n) s =
    let shorter = trim_right n s in if slice s n (suc n) == "/" then shorter else slice s 0 (suc n)

abbrev pub base_url : NacosConfig → String
base_url cfg = trim_right (len cfg.url) cfg.url

abbrev pub send : NacosRequest → ConfigManager → ConfigManager
send r cm = record cm { requests = r ∷ cm.requests }

-- The Boolean is the error.
unfoldable pub login : Bool → SignIn → ConfigManager → ConfigManager × Bool
login fault answer cm =
    if not (cm.nacos_token == "") && not (cm.nacos_base == "")
    then (cm, false)
    else elim (get_nacos_config fault cm) [
      | none ↦ (cm, true)
      | some cfg ↦ keep_token (base_url cfg) answer (
          send (signs_in (append (base_url cfg) "/nacos/v1/auth/login") cfg.username cfg.password)
            cm)
    ]

-- what a request brings: no answer, the status 403 with a body, or another status with a body
pub data Answer : Type 0 where
  lost : Answer
  forbidden : String → Answer
  answered : Bool → String → Answer  -- whether the status is 200, and the body

abbrev pub read_get : Answer → ConfigManager → ConfigManager × Option String
read_get lost cm = (cm, none)
read_get (forbidden _) cm = (record cm { nacos_token = "" }, none)
read_get (answered _ body) cm = (cm, some body)

abbrev pub if_signed_in :
    (ConfigManager → ConfigManager × Option String)
    → ConfigManager × Bool
    → ConfigManager × Option String
if_signed_in go (cm, err) = if err then (cm, none) else go cm

-- none is the error
unfoldable pub proxy_get :
    Bool
    → SignIn
    → Answer
    → String
    → List (String × String)
    → ConfigManager
    → ConfigManager × Option String
proxy_get fault sign_in answer api_path params cm =
    if_signed_in
      (λ (c : ConfigManager).
        read_get answer (send (gets (append c.nacos_base api_path) c.nacos_token params) c))
      (login fault sign_in cm)

-- A body is returned whatever the status is.
abbrev pub read_post : Answer → ConfigManager → ConfigManager × Option String
read_post lost cm = (cm, none)
read_post (forbidden body) cm = (cm, some body)
read_post (answered _ body) cm = (cm, some body)

unfoldable pub proxy_post :
    Bool
    → SignIn
    → Answer
    → String
    → List (String × String)
    → ConfigManager
    → ConfigManager × Option String
proxy_post fault sign_in answer api_path values cm =
    if_signed_in
      (λ (c : ConfigManager).
        read_post answer (send (posts (append c.nacos_base api_path) c.nacos_token values) c))
      (login fault sign_in cm)

-- the end of ProxyDelete: some "" is success
abbrev pub read_delete : Answer → ConfigManager → ConfigManager × Option String
read_delete (answered true body) cm = (cm, some "")
read_delete other cm = (cm, none)

unfoldable pub proxy_delete :
    Bool
    → SignIn
    → Answer
    → String
    → String
    → String
    → ConfigManager
    → ConfigManager × Option String
proxy_delete fault sign_in answer data_id group tenant cm =
    if_signed_in
      (λ (c : ConfigManager). read_delete answer (
        send
          (removes (append c.nacos_base "/nacos/v1/cs/configs") c.nacos_token data_id group tenant)
          c))
      (login fault sign_in cm)

trim_right_slashes :
    base_url (record { url = "http://n//"; username = ""; password = "" }) ≡ "http://n"
unfolding trim_right
trim_right_slashes = refl
