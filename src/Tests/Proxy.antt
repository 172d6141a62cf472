-- ===== src/Tests/Proxy.antt =====
-- The theorems on the Nacos proxy at concrete inputs.
use ops_system.Prelude.{◌≡◌, [], ◌∷◌, none, some, false, arith, eq_iff}
use ops_system.Config.{
  NacosConfig, ConfigManager, garbled, forbidden, lost, gets, posts, proxy_get, proxy_post,
}
use ops_system.Config.Token.{proxy_post-keeps_token}

abbrev nacos : NacosConfig
nacos = record { url = "http://n/"; username = "u"; password = "p" }

abbrev proxy : ConfigManager
proxy = record {
  settings = some nacos;
  nacos_token = "old";
  nacos_base = "http://m";
  requests = [];
}

proxy_post-keeps_token_example :
    (proxy_get false garbled (forbidden "no") "/list" [] proxy
      ≡ (record proxy { nacos_token = ""; requests = gets "http://m/list" "old" [] ∷ [] }, none))
    × (let once = proxy_post false garbled lost "/list" [] proxy in
        (once.0.nacos_token ≡ "old") × (once.0.nacos_base ≡ "http://m"))
    × (let once = proxy_post false garbled (forbidden "no") "/list" [] proxy in
        let twice = proxy_post false garbled lost "/list" [] once.0 in
        (once.1 ≡ some "no")
        × (twice.0.nacos_token ≡ "old")
        × (twice.0.requests ≡ posts "http://m/list" "old" [] ∷ posts "http://m/list" "old" [] ∷ []))
proxy_post-keeps_token_example =
    proxy_post-keeps_token false garbled "/list" "no" [] lost proxy
      (λ same. ground (arith, eq_iff "old" "", same))
      (λ same. ground (arith, eq_iff "http://m" "", same))
