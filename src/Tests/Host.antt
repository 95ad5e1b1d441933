-- ===== src/Tests/Host.antt =====
-- The host functions at concrete calls.
use athena_voice.Base.{
  ◌≡◌, refl, ◌↔◌, true, false, ◌&&◌, some, List, [], ◌∷◌, ◌+◌, if◌then◌else◌, ok, leb,
}
use athena_voice.Base.Dict.{Distinct, lookup}
use athena_voice.Base.Ints.{pos}
use athena_voice.Text.{Text, codes, text_eq}
use athena_voice.Storage.Tmp.{keys, u64}
use athena_voice.Wasm.Host.{
  SkillCtx, Host, UrlLib, host_state_get, host_state_set, host_tmp_set, host_tmp_get,
  http_url_allowed,
}
use athena_voice.Wasm.Host.Reach.{
  HostCall, publishes, schedules, run_calls, IsConfined, run_calls-IsConfined,
}
use athena_voice.Wasm.Host.State.{
  lapsed, host_state_set-other, host_state_get-host_state_set, host_tmp_get-host_tmp_set,
}
use athena_voice.Wasm.Host.Urls.{IsReachable, http_url_allowed_iff}

abbrev skill : Text → SkillCtx
skill name = record {
  name = name;
  http_allowlist = codes "box" ∷ [];
  mqtt_publish_allowlist = codes "home/+/light" ∷ [];
  retention_gc_after_sec = some 60;
}

abbrev host : Host
host = record {
  kv = ((codes "meteo", codes "k"), (pos 100, 1 ∷ [])) ∷ [];
  events = record { rows = []; seq = 0 };
  tmp = record { store = [] };
  published = [];
}

abbrev calls : List HostCall
calls =
    publishes true (codes "home/hall/light") (1 ∷ [])
    ∷ publishes true (codes "other") (2 ∷ [])
    ∷ schedules true (pos 0) (1 ∷ 0 ∷ 0 ∷ 0 ∷ 0 ∷ 0 ∷ 0 ∷ 0 ∷ []) (codes "athena/skills/jeedom/x")
        []
    ∷ []

no_key_twice : Distinct keys host.kv
unfolding lookup
no_key_twice = (refl, tt)

apart : text_eq (codes "meteo") (codes "jeedom") ≡ false
unfolding text_eq
apart = refl

run_calls-IsConfined_example :
    IsConfined (skill (codes "jeedom")) host (run_calls (skill (codes "jeedom")) calls host)
run_calls-IsConfined_example = run_calls-IsConfined (skill (codes "jeedom")) calls host

host_state_set-other_example :
    host_state_get true
      (skill (codes "meteo"))
      (codes "k")
      (host_state_set true true (pos 500) 500 (skill (codes "jeedom")) (codes "k") (9 ∷ []) host).1
    ≡ host_state_get true (skill (codes "meteo")) (codes "k") host
host_state_set-other_example =
    host_state_set-other true true (pos 500) 500 (skill (codes "jeedom")) (skill (codes "meteo"))
      (codes "k") (codes "k") (9 ∷ []) host no_key_twice apart

host_state_get-host_state_set_example :
    host_state_get true
      (skill (codes "meteo"))
      (codes "k")
      (host_state_set true true (pos 500) 500 (skill (codes "meteo")) (codes "k") (9 ∷ []) host).1
    ≡ some (if true && lapsed (skill (codes "meteo")) (pos 500) 500 then [] else 9 ∷ [])
host_state_get-host_state_set_example =
    host_state_get-host_state_set true (pos 500) 500 (skill (codes "meteo")) (codes "k") (9 ∷ [])
      host no_key_twice

host_tmp_get-host_tmp_set_example :
    (host_tmp_get
      (skill (codes "meteo"))
      12
      (codes "timer")
      (codes "k")
      (host_tmp_set (skill (codes "timer")) 10 (codes "timer") (codes "k") (7 ∷ []) 5 host)).0
    ≡ (if leb (u64 (10 + 5)) 12 then [] else 7 ∷ [])
host_tmp_get-host_tmp_set_example =
    host_tmp_get-host_tmp_set (skill (codes "timer")) (skill (codes "meteo")) 10 12 5
      (codes "timer") (codes "k") (7 ∷ []) host tt

-- An address that is its own host.
abbrev plain_urls : UrlLib
plain_urls = record {
  Url = Text;
  parse = λ t. some t;
  scheme = λ u. codes "http";
  host_str = λ u. some u;
}

http_url_allowed_iff_example :
    (http_url_allowed plain_urls (codes "box" ∷ []) (codes "box") ≡ ok (codes "box"))
    ↔ IsReachable plain_urls (codes "box" ∷ []) (codes "box") (codes "box")
http_url_allowed_iff_example =
    http_url_allowed_iff plain_urls (codes "box" ∷ []) (codes "box") (codes "box")
