-- ===== src/Config/Headers.antt =====
-- Which headers the upgrade request carries, and what a chain of setters builds.
use socketeer.Common.{ℕ, String, ◌≡◌, refl, List, [], ◌∷◌, Option, ok, if◌then◌else◌, arith}
use socketeer.Message.{Message}
use socketeer.Config.{
  HeaderMap, ClientRequest, ConnectOptions, builder, header, insert_each, build_request,
  keepalive_interval, headers, custom_keepalive_message, build,
}

module _ {K V H : Type 0} (map : HeaderMap K V H) where
  -- The last value that a list gives to a name, as the only one; `old` if it gives none.
  abbrev pub last_value : K → List (K × V) → List V → List V
  last_value j [] old = old
  last_value j ((k, v) ∷ l) old = last_value j l (if map.same_name k j then v ∷ [] else old)

  get_all-insert_each :
      (l : List (K × V)) (h : H) (j : K)
      → map.get_all (insert_each map l h) j ≡ last_value j l (map.get_all h j)
  unfolding insert_each
  get_all-insert_each [] h j = refl
  get_all-insert_each ((k, v) ∷ l) h j =
      rw (get_all-insert_each l (map.insert h k v) j, map.get_all-insert h k j v)

  -- Every name for which an extra header is given stands in the request with one value, the last one
  -- given; all other names have the values that tungstenite's request gives them.
  pub build_request_headers :
      {X Q : Type 0} (c : ClientRequest X H Q) (o : ConnectOptions H) (url : String) (base q : Q)
      (j : K)
      → c.into_client_request url ≡ ok base
      → build_request map c o url ≡ ok q
      → map.get_all (c.headers q) j
        ≡ last_value j (map.entries o.extra_headers) (map.get_all (c.headers base) j)
  unfolding build_request
  build_request_headers c o url base q j b e = ground (
    arith,
    c.headers-set_headers base (insert_each map (map.entries o.extra_headers) (c.headers base)),
    get_all-insert_each (map.entries o.extra_headers) (c.headers base) j,
  )

  -- In a chain of all the setters each field has the value of the last setter that wrote it: `headers`
  -- discards the headers set before it, `header` adds to those set before it and replaces the values of
  -- its own name, and the other fields are as they were set.
  pub builder_chain :
      (h : H) (k j : K) (v w : V) (interval : Option ℕ) (message : Option Message)
      → let o = build (
          custom_keepalive_message
            (keepalive_interval
              (header map (headers (header map (builder map) k w) h) k v)
              interval)
            message) in
        (o.keepalive_interval ≡ interval)
        × (o.custom_keepalive_message ≡ message)
        × (map.get_all o.extra_headers j ≡ (if map.same_name k j then v ∷ [] else map.get_all h j))
  unfolding builder header headers keepalive_interval custom_keepalive_message build
  builder_chain h k j v w interval message = (refl, refl, map.get_all-insert h k j v)
