-- ===== src/Config/Token.antt =====
-- When the proxy signs in again.
use ops_system.Prelude.{
  String, ◌≡◌, ◌≢◌, refl, List, ◌∷◌, none, some, Bool, true, false, arith, string_key, eq_iff,
}
use Prim.Native.String.{◌++◌ as append}
use ops_system.Config.{
  NacosConfig, ConfigManager, SignIn, granted, forbidden, answered, signs_in, gets, posts, send,
  save_nacos_config, get_nacos_config, login, proxy_get, proxy_post, base_url, Answer, read_post,
}

-- After SaveNacosConfig the next ProxyGet signs in at the new server with the new account, and
-- sends its request there with the token that it is given: nothing of an older login is used.
pub proxy_get-save_nacos_config :
    (cfg : NacosConfig) (token api_path body : String) (params : List (String × String))
    (cm : ConfigManager)
    → let (after, result) =
        proxy_get false
          (granted token)
          (answered true body)
          api_path
          params
          (save_nacos_config false cfg cm).0 in
      (result ≡ some body)
      × (after.requests
          ≡ gets (append (base_url cfg) api_path) token params
            ∷ signs_in (append (base_url cfg) "/nacos/v1/auth/login") cfg.username cfg.password
            ∷ cm.requests)
unfolding proxy_get save_nacos_config login get_nacos_config
proxy_get-save_nacos_config cfg token api_path body params cm = (refl, refl)

signed_in :
    (fault : Bool) (sign_in : SignIn) (cm : ConfigManager)
    → cm.nacos_token ≢ ""
    → cm.nacos_base ≢ ""
    → login fault sign_in cm ≡ (cm, false)
unfolding login
signed_in fault sign_in cm t b =
    ground (arith, eq_iff cm.nacos_token "", eq_iff cm.nacos_base "", t, b)

read_post-token :
    (answer : Answer) (cm : ConfigManager) → (read_post answer cm).0.nacos_token ≡ cm.nacos_token
read_post-token answer cm = ground arith

read_post-base :
    (answer : Answer) (cm : ConfigManager) → (read_post answer cm).0.nacos_base ≡ cm.nacos_base
read_post-base answer cm = ground arith

read_post-requests :
    (answer : Answer) (cm : ConfigManager) → (read_post answer cm).0.requests ≡ cm.requests
read_post-requests answer cm = ground arith

-- While a token is held, ProxyGet forgets it on the status 403 and reports an error; ProxyPost keeps
-- it, and the server's address, whatever the answer is. So ProxyPost returns the body of a 403 as a
-- result, and the next ProxyPost sends its request with the same token, again without signing in,
-- and keeps it too.
pub proxy_post-keeps_token :
    (fault : Bool) (sign_in : SignIn) (api_path body : String) (params : List (String × String))
    (answer : Answer) (cm : ConfigManager)
    → cm.nacos_token ≢ ""
    → cm.nacos_base ≢ ""
    → (proxy_get fault sign_in (forbidden body) api_path params cm ≡ (
      record cm {
        nacos_token = "";
        requests = gets (append cm.nacos_base api_path) cm.nacos_token params ∷ cm.requests;
      },
      none,
    ))
      × (let once = proxy_post fault sign_in answer api_path params cm in
          (once.0.nacos_token ≡ cm.nacos_token) × (once.0.nacos_base ≡ cm.nacos_base))
      × (let once = proxy_post fault sign_in (forbidden body) api_path params cm in
          let twice = proxy_post fault sign_in answer api_path params once.0 in
          (once.1 ≡ some body)
          × (twice.0.nacos_token ≡ cm.nacos_token)
          × (twice.0.requests
              ≡ posts (append cm.nacos_base api_path) cm.nacos_token params
                ∷ posts (append cm.nacos_base api_path) cm.nacos_token params
                ∷ cm.requests))
unfolding proxy_get proxy_post
proxy_post-keeps_token fault sign_in api_path body params answer cm t b =
    let again : ConfigManager =
      send (posts (append cm.nacos_base api_path) cm.nacos_token params) cm in
    let twice : ConfigManager =
      send (posts (append cm.nacos_base api_path) cm.nacos_token params) again in
    (
      rw (signed_in fault sign_in cm t b) refl,
      (
        rw (signed_in fault sign_in cm t b) (read_post-token answer again),
        rw (signed_in fault sign_in cm t b) (read_post-base answer again),
      ),
      (
        rw (signed_in fault sign_in cm t b) refl,
        rw (signed_in fault sign_in cm t b)
            (rw (signed_in fault sign_in again t b) (read_post-token answer twice)),
        rw (signed_in fault sign_in cm t b)
            (rw (signed_in fault sign_in again t b) (read_post-requests answer twice)),
      ),
    )
