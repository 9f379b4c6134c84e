-- ===== src/Config/UnitTests.antt =====
-- src/config.rs: its unit tests, each as a Boolean: a test is false where it panics. What the tests
-- use of the `http` crate beside its map, and the equality of tungstenite's messages, are parameters.
use socketeer.Common.{
  ℕ, String, ◌≡◌, ◌∙◌, arith, refl, Bool, true, false, ◌&&◌, ◌==◌, List, [], ◌∷◌, All, Option, none,
  some, suc,
}
use socketeer.Message.{Message, text}
use socketeer.Config.{
  HeaderMap, default, builder, header, keepalive_interval, headers, custom_keepalive_message, build,
}

-- Names and values as they are parsed, the number of values of a map, and the equalities.
record Http {K V H : Type 0} (map : HeaderMap K V H) : Type 0 where
  pub name : String → K
  pub value : String → V
  pub len : H → ℕ
  pub same_value : V → V → Bool
  pub same_map : H → H → Bool
  pub same_message : Message → Message → Bool
  pub len-empty : len map.empty ≡ 0
  pub len-insert :
      (h : H) (k : K) (v : V) → map.get_all h k ≡ [] → len (map.insert h k v) ≡ suc (len h)
  pub same_value_refl : (v : V) → same_value v v ≡ true
  pub same_map_refl : (h : H) → same_map h h ≡ true
  pub same_message_refl : (m : Message) → same_message m m ≡ true

-- `assert_eq!` on two options.
abbrev same_option : {A : Type 0} → (A → A → Bool) → Option A → Option A → Bool
same_option same none none = true
same_option same (some a) (some b) = same a b
same_option same none (some b) = false
same_option same (some a) none = false

-- Whether the first value, as `HeaderMap::get` returns it, is the given one; `unwrap` panics if there
-- is none.
abbrev first_is : {V : Type 0} → (V → V → Bool) → List V → V → Bool
first_is same [] v = false
first_is same (u ∷ us) v = same u v

abbrev is_none : {V : Type 0} → List V → Bool
is_none [] = true
is_none (v ∷ vs) = false

module _ {K V H : Type 0} (map : HeaderMap K V H) (http : Http map) where
  builder_default_matches_default : Bool
  builder_default_matches_default =
      same_option ◌==◌ (build (builder map)).keepalive_interval (default map).keepalive_interval
      && same_option http.same_message (build (builder map)).custom_keepalive_message
          (default map).custom_keepalive_message
      && http.same_map (build (builder map)).extra_headers (default map).extra_headers

  builder_sets_each_field : Bool
  builder_sets_each_field =
      let opts = build (
        header map
          (custom_keepalive_message (keepalive_interval (builder map) none) (some (text "ping")))
          (http.name "x-test") (http.value "v")) in
      same_option ◌==◌ opts.keepalive_interval none
      && same_option http.same_message opts.custom_keepalive_message (some (text "ping"))
      && first_is http.same_value (map.get_all opts.extra_headers (http.name "x-test"))
          (http.value "v")

  headers_replaces_whole_map : Bool
  headers_replaces_whole_map =
      let two =
        map.insert (map.insert map.empty (http.name "a") (http.value "1")) (http.name "b")
          (http.value "2") in
      let opts = build (headers (header map (builder map) (http.name "z") (http.value "0")) two) in
      http.len opts.extra_headers == 2
      && first_is http.same_value (map.get_all opts.extra_headers (http.name "a")) (http.value "1")
      && is_none (map.get_all opts.extra_headers (http.name "z"))

  inserted :
      (h : H) (k j : K) (v : V)
      → map.same_name k j ≡ true
      → map.get_all (map.insert h k v) j ≡ v ∷ []
  inserted h k j v same = ground (arith, map.get_all-insert h k j v)

  passed_over :
      (h : H) (k j : K) (v : V)
      → map.same_name k j ≡ false
      → map.get_all (map.insert h k v) j ≡ map.get_all h j
  passed_over h k j v other = ground (arith, map.get_all-insert h k j v)

  -- All unit tests of the file, in its order.
  abbrev builder_tests : List Bool
  builder_tests =
      builder_default_matches_default ∷ builder_sets_each_field ∷ headers_replaces_whole_map ∷ []

  -- The unit tests of the options pass with any map of headers that counts its values, given that the
  -- names of the tests are different names.
  builder_tests_pass :
      map.same_name (http.name "x-test") (http.name "x-test") ≡ true
      → map.same_name (http.name "a") (http.name "a") ≡ true
      → map.same_name (http.name "a") (http.name "b") ≡ false
      → map.same_name (http.name "b") (http.name "a") ≡ false
      → map.same_name (http.name "a") (http.name "z") ≡ false
      → map.same_name (http.name "b") (http.name "z") ≡ false
      → All (λ passes. passes ≡ true) builder_tests
  unfolding default builder header keepalive_interval headers custom_keepalive_message build
      builder_default_matches_default builder_sets_each_field headers_replaces_whole_map
  builder_tests_pass x a ab ba az bz =
      let k1 = http.name "a" in
      let k2 = http.name "b" in
      let v1 = http.value "1" in
      let v2 = http.value "2" in
      let one = map.insert map.empty k1 v1 in
      let free = passed_over map.empty k1 k2 v1 ab ∙ map.get_all-empty k2 in
      let size = http.len-insert one k2 v2 free in
      let size1 = http.len-insert map.empty k1 v1 (map.get_all-empty k1) in
      let first = passed_over one k2 k1 v2 ba ∙ inserted map.empty k1 k1 v1 a in
      let gone =
        passed_over one k2 (http.name "z") v2 bz
        ∙ (passed_over map.empty k1 (http.name "z") v1 az ∙ map.get_all-empty (http.name "z")) in
      (
        rw (http.same_map_refl map.empty) refl,
        (
          rw
              (
                http.same_message_refl (text "ping"),
                inserted map.empty (http.name "x-test") (http.name "x-test") (http.value "v") x,
                http.same_value_refl (http.value "v"),
              )
              refl,
          (rw (size, size1, http.len-empty, first, gone, http.same_value_refl v1) refl, tt),
        ),
      )
