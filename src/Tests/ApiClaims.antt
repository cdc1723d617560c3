-- ===== src/Tests/ApiClaims.antt =====
-- The theorems on the `Api`, at concrete inputs.
use mosfet_rs.Prelude.{◌≡◌, refl, true, false}
use mosfet_rs.Exec.{returns, panics, repeat, no_feature}
use mosfet_rs.Exec.Keeps.{Ends}
use mosfet_rs.Agent.Status.{OnHost}
use mosfet_rs.Http.Wire as Wire
use mosfet_rs.Api.{over_http, Features, new, http_client, poll, default_settings}
use mosfet_rs.Api.Startup.{Reported, api_comes_up}
use mosfet_rs.Tests.RunClaims.{http_log, welcome}
use mosfet_rs.Tests.WsClaims.{socket_log, listening}
use mosfet_rs.Api.Safety.{Inv, IsExternal, api_safe, default_panics}
use mosfet_rs.Tests.World.{settings, empty_room}
use mosfet_rs.Tests.HttpRuns.{up, fresh}

-- The features that the crate is built with by default.
abbrev http_only : Features
http_only = record { http = true; websocket = false }

made : new up http_only settings ≡ returns (over_http fresh)
unfolding new http_client Wire.new
made = refl

api_safe_example :
    Ends (λ u. Inv up settings) IsExternal (repeat 5 (poll up) (over_http fresh) empty_room)
api_safe_example = api_safe up settings http_only 5 empty_room made

default_panics_example :
    Ends (λ s u. new up http_only s ≡ panics no_feature) OnHost (default_settings up tt empty_room)
default_panics_example = default_panics up http_only empty_room refl

api_comes_up_example :
    Reported up settings http_log welcome socket_log listening
      (over_http fresh)
      empty_room
      (repeat 8 (poll up) (over_http fresh) empty_room)
api_comes_up_example =
    api_comes_up up settings http_log welcome socket_log listening http_only empty_room made
