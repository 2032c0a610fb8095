-- ===== src/Balance/Fastest/Tests.antt =====
-- A refresh of the response times of two connections.
use emicro.Common.{ℕ, ◌≡◌, refl, none, some, List, [], ◌∷◌, map, ok, Option, if◌then◌else◌}
use emicro.Common.Maps.{Bytes, bytes_of, bytes_eq}
use emicro.Balance.Types.{str, other}
use emicro.Balance.Fastest.{Conn, update_resp_time}
use emicro.Balance.Fastest.Refresh.{Reading, update_all, update_resp_time-map}

abbrev nine : Bytes → Option ℕ
nine bs = if bytes_eq bs (bytes_of "9") then some 9 else none

abbrev con_at : Bytes → Conn
con_at addr = record {
  sub_conn = 1;
  address = record { addr = addr; server_name = []; attributes = [] };
  resp_duration = 5;
}

abbrev reading : Bytes → Bytes → Reading
reading address text = record {
  result = record { metric = (bytes_of "address", address) ∷ []; value = other 0 ∷ str text ∷ [] };
  address = address;
  text = text;
  has_address = refl;
  has_text = refl;
}

abbrev readings : List Reading
readings = reading (bytes_of "a") (bytes_of "9") ∷ reading (bytes_of "b") (bytes_of "x") ∷ []

update_resp_time-map_example :
    update_resp_time nine
      (map (λ r. r.result) readings)
      (con_at (bytes_of "a") ∷ con_at (bytes_of "b") ∷ [])
    ≡ ok (map (update_all nine readings) (con_at (bytes_of "a") ∷ con_at (bytes_of "b") ∷ []))
update_resp_time-map_example =
    update_resp_time-map nine readings (con_at (bytes_of "a") ∷ con_at (bytes_of "b") ∷ [])
