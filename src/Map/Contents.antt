-- ===== src/Map/Contents.antt =====
-- What map_get returns after map_set.
use ds_service.Base.{◌≡◌, arith, ◌==◌, if◌then◌else◌}
use ds_service.Error.{ok}
use ds_service.Map.{Map, set, get}
use ds_service.Messages.{MapSetRequest, MapGetRequest}
use ds_service.ThirdParty.{ThirdParty}

-- map_get of the key that was set returns the value that was set, replacing any before, and map_get of
-- every other key returns what it returned before, be that a value or a refusal.
pub get-set :
    (P : ThirdParty) (m : Map P) (s : MapSetRequest) (g : MapGetRequest)
    → get P (set P m s).1 g
      ≡ (if s.key == g.key then ok (record { value = s.value }) else get P m g)
unfolding get set
get-set P m s g = ground (arith, P.find-assign m.entries s.key s.value g.key)
