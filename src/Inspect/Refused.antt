-- ===== src/Inspect/Refused.antt =====
-- What the engine refuses on a host in log-only mode.
use waf.Base.{◌≡◌, Bool, true, false, ◌&&◌, ◌||◌, not, String, Option, none, some}
use waf.Inspect.{Libraries, RequestCtx, RuleStore, is_allowed, url_matches, ip_matches}
use waf.Inspect.Phases.{Setup}
use waf.Inspect.Recorded.{Out}

abbrev is_some : Option String → Bool
is_some none = false
is_some (some s) = true

module _ (lib : Libraries) (S : Type 0) (setup : Setup lib) where
  abbrev Answers : Bool → Out lib S setup → Type 0
  Answers b o = is_allowed o.decision ≡ b

  abbrev url_refused : RuleStore lib → RequestCtx lib → Bool
  url_refused store ctx =
      not (is_some (url_matches store.allow_urls ctx.host_code ctx.path))
      && is_some (url_matches store.block_urls ctx.host_code ctx.path)

  -- The address is on no whitelist, and it is on the blacklist, or the path is on its blacklist and
  -- on no whitelist.
  abbrev pub refused : RuleStore lib → RequestCtx lib → Bool
  refused store ctx =
      not (ip_matches lib store.allow_ips ctx.host_code ctx.client_ip)
      && (ip_matches lib store.block_ips ctx.host_code ctx.client_ip || url_refused store ctx)
