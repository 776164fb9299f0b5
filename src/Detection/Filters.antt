-- ===== src/Detection/Filters.antt =====
-- `ip_filters.py`, and the filters of `suspicious.py` that use it. What Python's library answers is a
-- parameter: `str.lower`, `in` on texts, and `ip_address`, as the number of an IPv4 address.
use fraudhunter.Common.{
  ℕ, ◌+◌, ◌-◌, ◌*◌, ◌/◌, ◌^◌, String, Bool, false, not, ◌&&◌, Option, none, some, List, [], ◌∷◌,
  ◌==◌, str_eq, if◌then◌else◌, exists_where,
}
use fraudhunter.Detection.Rules.{RuleSet, Rollup}

abbrev pub browser_ua_includes : List String
browser_ua_includes =
    "chrome/" ∷ "firefox/" ∷ "safari/" ∷ "edg/" ∷ "edge/" ∷ "opera/" ∷ "opr/" ∷ "msie " ∷ "trident/"
    ∷ []

abbrev pub bot_ua_markers : List String
bot_ua_markers =
    "bot" ∷ "crawler" ∷ "spider" ∷ "curl" ∷ "python" ∷ "axios" ∷ "node-fetch" ∷ "go-http-client"
    ∷ "java/" ∷ "apache-httpclient" ∷ "libwww-perl" ∷ "wget" ∷ "headlesschrome" ∷ []

pub record Network : Type 0 where
  pub base : ℕ
  pub prefix : ℕ

-- `a.b.c.d/prefix`
abbrev pub network : (a b c d prefix : ℕ) → Network
network a b c d prefix = record { base = ((a * 256 + b) * 256 + c) * 256 + d; prefix = prefix }

-- `DATACENTER_IP_NETWORKS`
abbrev pub datacenter_ip_networks : List Network
datacenter_ip_networks =
    network 3 5 140 0 22
    ∷ network 13 124 0 0 14
    ∷ network 18 176 0 0 15
    ∷ network 20 33 0 0 16
    ∷ network 34 84 0 0 15
    ∷ network 34 96 0 0 20
    ∷ network 35 72 0 0 13
    ∷ network 40 74 0 0 15
    ∷ network 52 192 0 0 11
    ∷ network 54 64 0 0 10
    ∷ network 104 154 0 0 15
    ∷ network 104 196 0 0 14
    ∷ network 142 250 0 0 15
    ∷ network 142 251 0 0 16
    ∷ network 168 63 129 16 32
    ∷ network 172 253 0 0 16
    ∷ network 173 194 0 0 16
    ∷ network 209 85 128 0 17
    ∷ network 216 58 192 0 19
    ∷ network 216 239 32 0 19
    ∷ []

-- `candidate in network`
abbrev pub in_network : (candidate : ℕ) → Network → Bool
in_network candidate n = let size = 2 ^ (32 - n.prefix) in candidate / size == n.base / size

pub record Texts : Type 0 where
  pub lower : String → String
  -- `key in text`
  pub has_part : (key text : String) → Bool
  pub ip_address : String → Option ℕ

module _ (texts : Texts) where
  -- `_is_browser_useragent`
  unfoldable pub is_browser_useragent : String → Bool
  is_browser_useragent ua =
      let ua_lower = texts.lower ua in
      if str_eq ua ""
      then false
      else if not (exists_where (λ key. texts.has_part key ua_lower) browser_ua_includes)
      then false
      else not (exists_where (λ marker. texts.has_part marker ua_lower) bot_ua_markers)

  -- `is_datacenter_ip`
  unfoldable pub is_datacenter_ip : String → Bool
  is_datacenter_ip ip = if str_eq ip "" then false else elim (texts.ip_address ip) [
    | none ↦ false
    | some candidate ↦ exists_where (in_network candidate) datacenter_ip_networks
  ]

  -- `_passes_filters`
  unfoldable pub passes_filters : RuleSet → Rollup → Bool
  passes_filters rules r =
      if rules.browser_only && not (is_browser_useragent r.useragent)
      then false
      else not (rules.exclude_datacenter_ip && is_datacenter_ip r.ipaddress)
