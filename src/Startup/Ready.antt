-- ===== src/Startup/Ready.antt =====
-- main.rs, `main`: how far it comes, and when it panics.
use flutter_21_client.Prelude.{
  String, Bool, true, false, List, [], ◌∷◌, ◌&&◌, if◌then◌else◌, ◌≡◌, refl, ◌⊎◌, inl, inr,
  Bool-cases,
}
use flutter_21_client.Errors.{Result, ok, err, Result-cases}
use flutter_21_client.Services.{Services}
use flutter_21_client.Config.{Config, Environment, from_env}
use flutter_21_client.Config.Startup.{from_env-ok}
use flutter_21_client.Crypto.{returns, signaling_key}
use flutter_21_client.Startup.{
  Platform, Action, installed_recorder, described, descriptions, install, connected_database,
  migrated, connected_manager, connected_pubsub, subscribed, spawned_subscriber, listening, crashes,
  cors_layer, all_values, new_redis_store, start_hub, connect_pool, take_cors, listen, start_with,
  start, attempt, expect, settled, demand, unpanicked, ◌>>=◌,
}

abbrev is_ok : {A : Type 0} → Result A String → Bool
is_ok (ok a) = true
is_ok (err e) = false

-- The actions before the first one that does not go through.
abbrev pub take_while : (Action → Bool) → List Action → List Action
take_while test [] = []
take_while test (a ∷ rest) = if test a then a ∷ take_while test rest else []

module _ (E : Services) (H : Platform) where
  -- All that `main` does outside before it serves, in its order.
  abbrev pub plan : Config E → List Action
  plan c =
      installed_recorder
      ∷ described descriptions
      ∷ connected_database c.database_url
      ∷ migrated
      ∷ connected_manager c.redis_url
      ∷ connected_pubsub c.redis_url
      ∷ subscribed "signaling:messages"
      ∷ spawned_subscriber
      ∷ listening c.port
      ∷ []

  -- The calls that an action takes succeed; before it listens, the origins are header values, and
  -- the routers take the CORS layer.
  abbrev pub goes_through : Config E → Action → Bool
  goes_through c installed_recorder = is_ok H.install_recorder
  goes_through c (described metrics) = true
  goes_through c (connected_database url) = is_ok (H.connect_database url)
  goes_through c migrated = is_ok H.execute_migrations
  goes_through c (connected_manager url) = is_ok (H.open_redis url) && is_ok (H.connect_manager url)
  goes_through c (connected_pubsub url) = is_ok (H.open_redis url) && is_ok (H.connect_pubsub url)
  goes_through c (subscribed channel) = is_ok (H.subscribe channel)
  goes_through c spawned_subscriber = true
  goes_through c (listening port) =
      all_values H.is_header_value c.allowed_origins
      && (H.takes_layer (cors_layer c.allowed_origins)
          && (is_ok (H.parse_address port) && is_ok (H.bind port)))

  -- The reasons for which `main` may panic.
  abbrev pub Panics : Config E → Type 0
  Panics c =
      ((e : String) × (H.install_recorder ≡ err e))
      ⊎ ((all_values H.is_header_value c.allowed_origins ≡ false)
          ⊎ (H.takes_layer (cors_layer c.allowed_origins) ≡ false))

  abbrev pub ComesThrough : Config E → Environment → Type 0
  ComesThrough c env =
      ((start E H env []).1 ≡ take_while (goes_through c) (plan c))
      × ((text : String) → (start E H env []).0 ≡ crashes text → Panics c)

  -- From the CORS layer on.
  from_cors :
      (env : Environment) (c : Config E) (recorder : H.Recorder)
      → from_env E env ≡ ok c
      → signaling_key E c.signaling_secret ≡ returns c.signaling_secret
      → H.install_recorder ≡ ok recorder
      → H.connect_database c.database_url ≡ ok tt
      → H.execute_migrations ≡ ok tt
      → H.open_redis c.redis_url ≡ ok tt
      → H.connect_manager c.redis_url ≡ ok tt
      → H.connect_pubsub c.redis_url ≡ ok tt
      → H.subscribe "signaling:messages" ≡ ok tt
      → ComesThrough c env
  unfolding start start_with install connect_pool new_redis_store start_hub take_cors listen ◌>>=◌
      attempt expect settled demand unpanicked
  from_cors env c recorder read key a1 a2 a3 a4 a5 a6 a7 =
      elim (Bool-cases (all_values H.is_header_value c.allowed_origins)) [
        | inl values ↦ elim (Bool-cases (H.takes_layer (cors_layer c.allowed_origins))) [
          | inl takes ↦ elim (Result-cases (H.parse_address c.port)) [
            | inl (_, address) ↦ elim (Result-cases (H.bind c.port)) [
              | inl (_, bound) ↦
                  rw (read, a1, a2, a3, a4, a5, a6, a7, key, values, takes, address, bound)
                    (refl, λ text h. cc)
              | inr (e, wrong) ↦
                  rw (read, a1, a2, a3, a4, a5, a6, a7, key, values, takes, address, wrong)
                    (refl, λ text h. cc)
            ]
            | inr (e, wrong) ↦
                rw (read, a1, a2, a3, a4, a5, a6, a7, key, values, takes, wrong)
                  (refl, λ text h. cc)
          ]
          | inr wrong ↦
              rw (read, a1, a2, a3, a4, a5, a6, a7, key, values, wrong)
                (refl, λ text h. inr (inr refl))
        ]
        | inr wrong ↦
            rw (read, a1, a2, a3, a4, a5, a6, a7, key, wrong) (refl, λ text h. inr (inl refl))
      ]

  -- From Redis on.
  from_redis :
      (env : Environment) (c : Config E) (recorder : H.Recorder)
      → from_env E env ≡ ok c
      → signaling_key E c.signaling_secret ≡ returns c.signaling_secret
      → H.install_recorder ≡ ok recorder
      → H.connect_database c.database_url ≡ ok tt
      → H.execute_migrations ≡ ok tt
      → ComesThrough c env
  unfolding start start_with install connect_pool new_redis_store start_hub take_cors listen ◌>>=◌
      attempt expect settled demand unpanicked
  from_redis env c recorder read key a1 a2 a3 = elim (Result-cases (H.open_redis c.redis_url)) [
    | inl (_, a4) ↦ elim (Result-cases (H.connect_manager c.redis_url)) [
      | inl (_, a5) ↦ elim (Result-cases (H.connect_pubsub c.redis_url)) [
        | inl (_, a6) ↦ elim (Result-cases (H.subscribe "signaling:messages")) [
          | inl (_, a7) ↦ from_cors env c recorder read key a1 a2 a3 a4 a5 a6 a7
          | inr (e, wrong) ↦ rw (read, a1, a2, a3, a4, a5, a6, wrong) (refl, λ text h. cc)
        ]
        | inr (e, wrong) ↦ rw (read, a1, a2, a3, a4, a5, wrong) (refl, λ text h. cc)
      ]
      | inr (e, wrong) ↦ rw (read, a1, a2, a3, a4, wrong) (refl, λ text h. cc)
    ]
    | inr (e, wrong) ↦ rw (read, a1, a2, a3, wrong) (refl, λ text h. cc)
  ]

  -- From the metrics on.
  from_metrics :
      (env : Environment) (c : Config E)
      → from_env E env ≡ ok c
      → signaling_key E c.signaling_secret ≡ returns c.signaling_secret
      → ComesThrough c env
  unfolding start start_with install connect_pool new_redis_store start_hub take_cors listen ◌>>=◌
      attempt expect settled demand unpanicked
  from_metrics env c read key = elim (Result-cases H.install_recorder) [
    | inl (recorder, a1) ↦ elim (Result-cases (H.connect_database c.database_url)) [
      | inl (_, a2) ↦ elim (Result-cases H.execute_migrations) [
        | inl (_, a3) ↦ from_redis env c recorder read key a1 a2 a3
        | inr (e, wrong) ↦ rw (read, a1, a2, wrong) (refl, λ text h. cc)
      ]
      | inr (e, wrong) ↦ rw (read, a1, wrong) (refl, λ text h. cc)
    ]
    | inr (e, wrong) ↦ rw (read, wrong) (refl, λ text h. inl (e, refl))
  ]

  -- `main` with settings that could be read does its work in one order - metrics, database,
  -- migrations, Redis, the subscription to the hub's channel and its task, and the listener - and
  -- does all of it that comes before the first action whose calls do not succeed, where a listener
  -- also needs origins that are header values and routers that take the CORS layer. It panics only
  -- if the recorder is not installed, an origin is no header value, or the routers refuse the layer;
  -- the key of the settings never makes it panic.
  pub start-order :
      (env : Environment) (c : Config E)
      → from_env E env ≡ ok c
      → ((start E H env []).1 ≡ take_while (goes_through c) (plan c))
        × ((text : String) → (start E H env []).0 ≡ crashes text → Panics c)
  start-order env c read = from_metrics env c read (from_env-ok E env c read).0
