-- ===== src/Api/Private.antt =====
-- main.rs: the routes under /api are for users, those of accounts apart.
use flutter_21_client.Prelude.{
  String, Bool, true, false, ◌&&◌, Option, none, some, List, [], ◌∷◌, ◌==◌, text_eq, if◌then◌else◌,
  ◌≡◌, refl, arith,
}
use flutter_21_client.Services.{Services, Uuid}
use flutter_21_client.World.{World}
use flutter_21_client.Config.{Config}
use flutter_21_client.Middleware.{Headers}
use flutter_21_client.Api.{Endpoint, searches, asks_user, serve}
use flutter_21_client.Api.Paths.{
  Method, get, head, post, delete, other, Payload, on_get, on_post, on_delete, contact_routes,
  nested, route,
}
use flutter_21_client.Api.Gate.{is_public, HasNoToken, IsRefused, serve-IsRefused}

-- The route is for users only, whatever the method.
abbrev Private : (Method → Option Endpoint) → Type 0
Private r = (m : Method) (e : Endpoint) → r m ≡ some e → is_public e ≡ false

Private-if :
    (b : Bool) (r q : Method → Option Endpoint)
    → Private r
    → Private q
    → Private (if b then r else q)
Private-if true r q hr hq = hr
Private-if false r q hr hq = hq

-- `else if`, past a test that fails.
Private-else :
    (b : Bool) (r q : Method → Option Endpoint)
    → b ≡ false
    → Private q
    → Private (if b then r else q)
Private-else true r q h hq = cc
Private-else false r q h hq = hq

Private-on_get : (f : Endpoint) → is_public f ≡ false → Private (on_get f)
Private-on_get f h get e found = ground arith
Private-on_get f h head e found = ground arith
Private-on_get f h post e found = cc
Private-on_get f h delete e found = cc
Private-on_get f h other e found = cc

Private-on_post : (f : Endpoint) → is_public f ≡ false → Private (on_post f)
Private-on_post f h get e found = cc
Private-on_post f h head e found = cc
Private-on_post f h post e found = ground arith
Private-on_post f h delete e found = cc
Private-on_post f h other e found = cc

Private-on_delete : (f : Endpoint) → is_public f ≡ false → Private (on_delete f)
Private-on_delete f h get e found = cc
Private-on_delete f h head e found = cc
Private-on_delete f h post e found = cc
Private-on_delete f h delete e found = ground arith
Private-on_delete f h other e found = cc

Private-no_route : Private (λ m. none)
Private-no_route m e found = cc

is_public-users :
    (b : Bool) (q : Option String) (u : Option Uuid)
    → is_public (if b then searches q else asks_user u) ≡ false
is_public-users true q u = refl
is_public-users false q u = refl

module _ (parse : String → Option Uuid) (p : Payload) where
  Private-contact_routes : (s : String) → Private (contact_routes parse p s)
  unfolding contact_routes
  Private-contact_routes s = Private-if (s == "pending") _ _ (Private-on_get _ refl) (
      Private-if (s == "sent") _ _ (Private-on_get _ refl) (
        Private-if (s == "request") _ _ (Private-on_post _ refl) (
          Private-if (s == "accept") _ _ (Private-on_post _ refl) (
            Private-if (s == "decline") _ _ (Private-on_post _ refl) (
              Private-if (s == "block") _ _ (Private-on_post _ refl) (
                Private-if (s == "invite-link") _ _ (Private-on_post _ refl)
                  (Private-on_delete _ refl)))))))

  Private-nested :
      (router : String) (rest : List String)
      → (router == "auth") ≡ false
      → Private (nested parse p router rest)
  unfolding nested
  Private-nested router [] apart = Private-if (router == "rooms") _ _ (Private-on_post _ refl) (
      Private-if (router == "contacts") _ _ (Private-on_get _ refl)
        (Private-if (router == "ice-config") _ _ (Private-on_get _ refl) Private-no_route))
  Private-nested router (s ∷ []) apart = Private-else (router == "auth") _ _ apart (
      Private-if (router == "users") _ _
        (Private-on_get _ (is_public-users (s == "search") p.search_query (parse s)))
        (Private-if (router == "rooms") _ _ (Private-on_get _ refl)
          (Private-if (router == "contacts") _ _ (Private-contact_routes s) Private-no_route)))
  Private-nested router (s ∷ t ∷ []) apart =
      Private-if (router == "users" && s == "by-handle") _ _ (Private-on_get _ refl) (
        Private-if (router == "contacts" && (s == "invite" && t == "use")) _ _
          (Private-on_post _ refl) Private-no_route)
  Private-nested router (s ∷ t ∷ u ∷ rest) apart = Private-no_route

  -- A request by any method to any path under /api that has a route, but for those under /api/auth, is
  -- refused with the status 401 and changes nothing, unless its Authorization header has a Bearer
  -- token that verifies now as an access token.
  pub api-IsRefused :
      {E : Services} (c : Config E) (headers : Headers) (w : World E) (router : String)
      (rest : List String) (m : Method) (e : Endpoint)
      → (router == "auth") ≡ false
      → route parse p ("api" ∷ router ∷ rest) m ≡ some e
      → HasNoToken c headers w
      → IsRefused c headers w (serve c headers e w)
  unfolding route
  api-IsRefused c headers w router rest m e apart h unproved =
      serve-IsRefused c headers w e unproved (Private-nested router rest apart m e h)
