-- ===== src/Config.antt =====
-- src/config.rs: the options of a connection, their builder, and the upgrade request. The `http`
-- crate's `HeaderMap` and `Request` and tungstenite's `into_client_request` are parameters.
pub mod Headers
pub mod UnitTests
use socketeer.Common.{
  ℕ, String, ◌≡◌, Bool, true, false, List, [], ◌∷◌, Option, none, some, Result, ok, err, map_err,
  if◌then◌else◌, ◌>>=◌,
}
use socketeer.Message.{Message, Error, websocket_error}

-- `HeaderMap`, a multimap `H` from names `K` to values `V`: `insert` replaces all values of its name,
-- and iteration gives a pair for each value.
pub record HeaderMap (K V H : Type 0) : Type 0 where
  pub same_name : K → K → Bool
  pub empty : H
  pub insert : H → K → V → H
  pub get_all : H → K → List V
  pub entries : H → List (K × V)
  pub get_all-empty : (j : K) → get_all empty j ≡ []
  pub get_all-insert :
      (h : H) (k j : K) (v : V)
      → get_all (insert h k v) j ≡ (if same_name k j then v ∷ [] else get_all h j)

-- `Request<()>`, and the request that tungstenite makes of an address.
pub record ClientRequest (X H Q : Type 0) : Type 0 where
  pub into_client_request : String → Result Q X
  pub headers : Q → H
  pub set_headers : Q → H → Q
  pub headers-set_headers : (q : Q) (h : H) → headers (set_headers q h) ≡ h

-- Durations are milliseconds.
pub record ConnectOptions (H : Type 0) : Type 0 where
  pub extra_headers : H
  pub keepalive_interval : Option ℕ
  pub custom_keepalive_message : Option Message

pub record ConnectOptionsBuilder (H : Type 0) : Type 0 where
  pub options : ConnectOptions H

module _ {K V H : Type 0} (map : HeaderMap K V H) where
  unfoldable pub default : ConnectOptions H
  default = record {
    extra_headers = map.empty;
    keepalive_interval = some 2000;
    custom_keepalive_message = none;
  }

  unfoldable pub builder : ConnectOptionsBuilder H
  unfolding default
  builder = record { options = default }

  unfoldable pub header : ConnectOptionsBuilder H → K → V → ConnectOptionsBuilder H
  header b name value = record {
    options = record b.options { extra_headers = map.insert b.options.extra_headers name value };
  }

  -- The loop of `build_request`.
  insert_each : List (K × V) → H → H
  insert_each [] h = h
  insert_each ((key, value) ∷ l) h = insert_each l (map.insert h key value)

  -- `url` is the text of the address.
  unfoldable pub build_request :
      {X Q : Type 0} → ClientRequest X H Q → ConnectOptions H → String → Result Q (Error X)
  unfolding insert_each
  build_request c o url = do
    request ← map_err websocket_error (c.into_client_request url)
    ok (c.set_headers request (insert_each (map.entries o.extra_headers) (c.headers request)))

module _ {H : Type 0} where
  unfoldable pub keepalive_interval : ConnectOptionsBuilder H → Option ℕ → ConnectOptionsBuilder H
  keepalive_interval b interval = record {
    options = record b.options { keepalive_interval = interval };
  }

  unfoldable pub headers : ConnectOptionsBuilder H → H → ConnectOptionsBuilder H
  headers b h = record { options = record b.options { extra_headers = h } }

  unfoldable pub custom_keepalive_message :
      ConnectOptionsBuilder H → Option Message → ConnectOptionsBuilder H
  custom_keepalive_message b message = record {
    options = record b.options { custom_keepalive_message = message };
  }

  unfoldable pub build : ConnectOptionsBuilder H → ConnectOptions H
  build b = b.options
