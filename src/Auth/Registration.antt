-- ===== src/Auth/Registration.antt =====
-- routes/auth.rs, `register` and `login`: whose account a success is about.
use flutter_21_client.Prelude.{
  String, Bool, true, false, ◌&&◌, ◌||◌, some, ◌∷◌, find, Option-cases, ◌≡◌, refl, sym, ap, ◌∙◌,
  subst, arith, inl, inr, ◌==◌, text_eq,
}
use flutter_21_client.Errors.{ok, AppError, ApiResult, conflict, Result-cases}
use flutter_21_client.Services.{Services}
use flutter_21_client.World.{World, M, pure, lift, ◌>>=◌}
use flutter_21_client.World.Keeps.{Keeps}
use flutter_21_client.World.Runs.{bind-ok}
use flutter_21_client.World.Tables.{Db, User, public_user}
use flutter_21_client.Config.{Config}
use flutter_21_client.Auth.{
  RegisterRequest, LoginRequest, AuthResponse, Tokens, validate_registration, reject_if,
  issue_tokens, register, login,
}
use flutter_21_client.Crypto.{hash_password, verify_password}
use flutter_21_client.Database.{
  create_user, insert_user, user_conflicts, username_exists, email_exists, find_user_by_identifier,
}
use flutter_21_client.System.Stable.{Property, Keeps-hash_password}
use flutter_21_client.System.Accounts.{
  Keeps-username_exists, Keeps-email_exists, Keeps-issue_tokens,
}

abbrev SameTables : Db → Property
SameTables d e cs = e ≡ d

-- The row that `create_user` adds.
abbrev pub IsAdded : (username email display_name hash : String) → User → Db → Db → Type 0
IsAdded username email display_name hash u d e =
    (e.users ≡ u ∷ d.users)
    × (user_conflicts d u ≡ false)
    × (u.username ≡ username)
    × (u.email ≡ email)
    × (u.display_name ≡ display_name)
    × (u.password_hash ≡ hash)
    × (u.is_active ≡ true)

-- What `register` answers and leaves.
abbrev pub HasRegistered : (E : Services) → RegisterRequest → AuthResponse → Db → Db → Type 0
HasRegistered E body r d e =
    (u : User) × (e.users ≡ u ∷ d.users)
    × (user_conflicts d u ≡ false)
    × (u.username ≡ body.username)
    × (u.email ≡ body.email)
    × (u.is_active ≡ true)
    × (verify_password E body.password u.password_hash ≡ ok true)
    × (r.user ≡ public_user u)

module _ {E : Services} where
  hash_password-ok :
      (password hash : String) (w : World E)
      → (hash_password password w).0 ≡ ok hash
      → verify_password E password hash ≡ ok true
  unfolding hash_password verify_password
  hash_password-ok password hash w h = elim (Result-cases (E.argon2_params 19456 2 1)) [
    | inl (params, e) ↦
        let hashed : E.argon2_hash params w.drawn password ≡ ok hash = ground arith in
        let (parsed, given, fits) = E.verify-hash params w.drawn password hash hashed in
        ground (arith, given, fits)
    | inr (x, e) ↦ absurd (ground arith)
  ]

  pub create_user-ok :
      (username email display_name hash : String) (u : User) (w : World E)
      → (create_user username email display_name hash w).0 ≡ ok u
      → IsAdded username email display_name hash u w.db
          (create_user username email display_name hash w).1.db
  unfolding create_user insert_user
  create_user-ok username email display_name hash u w h = (
    ground arith,
    ground arith,
    ground arith,
    ground arith,
    ground arith,
    ground arith,
    ground arith,
  )

  module _ (c : Config E) where
    -- The ends of `register`: from the tokens on, from the row on, and from the checks on.
    abbrev reply : User → Tokens → M E AuthResponse
    reply u tokens = pure (record { user = public_user u; tokens = tokens })

    abbrev enter : User → M E AuthResponse
    enter u = issue_tokens c u.user_id >>= reply u

    abbrev store_user : RegisterRequest → String → M E AuthResponse
    store_user body hash = create_user body.username body.email body.display_name hash >>= enter

    abbrev sign_up : RegisterRequest → M E AuthResponse
    sign_up body = hash_password body.password >>= store_user body

    enter-ok :
        (u : User) (r : AuthResponse) (w : World E)
        → (enter u w).0 ≡ ok r
        → (r.user ≡ public_user u) × ((enter u w).1.db ≡ w.db)
    unfolding Keeps
    enter-ok u r w h =
        let (tokens, issued, h', s) = bind-ok (issue_tokens c u.user_id) (reply u) w r h in
        (
          ground (arith, h'),
          ap (λ (v : World E). v.db) s ∙ Keeps-issue_tokens E (SameTables w.db) c u.user_id w refl,
        )

    sign_up-ok :
        (body : RegisterRequest) (r : AuthResponse) (w : World E)
        → (sign_up body w).0 ≡ ok r
        → HasRegistered E body r w.db (sign_up body w).1.db
    unfolding Keeps
    sign_up-ok body r w h =
        let (hash, hashed, h₁, s₁) =
          bind-ok (hash_password body.password) (store_user body) w r h in
        let w₁ : World E = (hash_password body.password w).1 in
        let (u, created, h₂, s₂) =
          bind-ok (create_user body.username body.email body.display_name hash) enter w₁ r h₁ in
        let w₂ : World E = (create_user body.username body.email body.display_name hash w₁).1 in
        let same = Keeps-hash_password E (SameTables w.db) body.password w refl in
        let (answers, kept) = enter-ok u r w₂ h₂ in
        let (new, free, name, email, shown, secret, active) =
          create_user-ok body.username body.email body.display_name hash u w₁ created in
        let at : (sign_up body w).1.db ≡ w₂.db =
          ap (λ (v : World E). v.db) s₁ ∙ (ap (λ (v : World E). v.db) s₂ ∙ kept) in
        (
          u,
          ap (λ (d : Db). d.users) at ∙ (new ∙ ap (λ (d : Db). u ∷ d.users) same),
          ap (λ d. user_conflicts d u) (sym same) ∙ free,
          name,
          email,
          active,
          ap (verify_password E body.password) secret
              ∙ hash_password-ok body.password hash w hashed,
          answers,
        )

    -- One of the two checks for a name or an address that is taken.
    abbrev unless_taken : M E Bool → AppError → M E AuthResponse → Bool → M E AuthResponse
    unless_taken m e k taken = reject_if taken e >>= (λ _. k)

    abbrev check : M E Bool → AppError → M E AuthResponse → M E AuthResponse
    check m e k = m >>= unless_taken m e k

    -- A check that passes changes nothing.
    reject_if-ok :
        (b : Bool) (e : AppError) (k : M E AuthResponse) (r : AuthResponse) (w : World E)
        → ((reject_if b e >>= (λ _. k)) w).0 ≡ ok r
        → (reject_if b e >>= (λ _. k)) w ≡ k w
    reject_if-ok true e k r w h = cc
    reject_if-ok false e k r w h = refl

    check-HasRegistered :
        (body : RegisterRequest) (m : M E Bool) (e : AppError) (k : M E AuthResponse)
        (r : AuthResponse) (w : World E)
        → Keeps {E = E} (SameTables w.db) m
        → ((v : World E) → (k v).0 ≡ ok r → HasRegistered E body r v.db (k v).1.db)
        → (check m e k w).0 ≡ ok r
        → HasRegistered E body r w.db (check m e k w).1.db
    unfolding Keeps
    check-HasRegistered body m e k r w keeps rest h =
        let (taken, asked, h₁, s₁) = bind-ok m (unless_taken m e k) w r h in
        let w₁ : World E = (m w).1 in
        let passed = reject_if-ok taken e k r w₁ h₁ in
        let base = rest w₁ (sym (ap (λ (x : ApiResult AuthResponse × World E). x.0) passed) ∙ h₁) in
        let last : (check m e k w).1 ≡ (k w₁).1 =
          s₁ ∙ ap (λ (x : ApiResult AuthResponse × World E). x.1) passed in
        subst (λ d. HasRegistered E body r d (check m e k w).1.db) (keeps w refl)
          (subst (λ (v : World E). HasRegistered E body r w₁.db v.db) (sym last) base)

    abbrev check_email : RegisterRequest → M E AuthResponse
    check_email body =
        check (email_exists body.email) (conflict "Email already in use") (sign_up body)

    abbrev check_name : RegisterRequest → M E AuthResponse
    check_name body =
        check (username_exists body.username) (conflict "Username already taken") (check_email body)

    check_name-ok :
        (body : RegisterRequest) (r : AuthResponse) (w : World E)
        → (check_name body w).0 ≡ ok r
        → HasRegistered E body r w.db (check_name body w).1.db
    check_name-ok body r w h =
        check-HasRegistered body (username_exists body.username) (conflict "Username already taken")
          (check_email body) r w (Keeps-username_exists E (SameTables w.db) body.username)
          (λ v.
            check-HasRegistered body (email_exists body.email) (conflict "Email already in use")
              (sign_up body) r v (Keeps-email_exists E (SameTables v.db) body.email)
              (sign_up-ok body r))
          h

    -- A registration that succeeds was valid, and the database had no user of its name or address; it
    -- has added one active user with the given name, address and a hash that the password fits, and
    -- nothing else to the users, and answers that user.
    pub register-ok :
        (body : RegisterRequest) (r : AuthResponse) (w : World E)
        → (register c body w).0 ≡ ok r
        → (validate_registration E.regex_is_match body ≡ ok tt)
          × HasRegistered E body r w.db (register c body w).1.db
    unfolding register
    register-ok body r w h =
        let (done, valid, h₁, s₁) =
          bind-ok (lift (validate_registration E.regex_is_match body)) (λ _. check_name body) w r
            h in
        (
          valid,
          subst (λ (v : World E). HasRegistered E body r w.db v.db) (sym s₁)
              (check_name-ok body r w h₁),
        )

  -- A login that succeeds is of an active user whom the identifier names by address, in lower case, or
  -- by name, and whose stored hash the password fits; the answer is that user's.
  pub login-ok :
      (c : Config E) (body : LoginRequest) (r : AuthResponse) (w : World E)
      → (login c body w).0 ≡ ok r
      → (u : User) × (find
            (λ v.
              (v.email == E.lower body.identifier || v.username == body.identifier) && v.is_active)
            w.db.users
          ≡ some u)
        × (verify_password E body.password u.password_hash ≡ ok true)
        × (r.user ≡ public_user u)
  unfolding login find_user_by_identifier
  login-ok c body r w h =
      elim (Option-cases (
        find
          (λ v.
            (v.email == E.lower body.identifier || v.username == body.identifier) && v.is_active)
          w.db.users)) [
            | inl missing ↦ absurd (ground arith)
            | inr (u, found) ↦ (u, found, ground arith, ground arith)
          ]
