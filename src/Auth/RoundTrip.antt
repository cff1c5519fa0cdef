-- ===== src/Auth/RoundTrip.antt =====
-- A registered user can log in, and the token names them.
use express_monorepo_bank_te.Base.{
  ℕ, ◌+◌, ◌≤◌, ◌<◌, true, false, none, some, List, [], ◌∷◌, ◌++◌, ◌≡◌, refl, sym, ◌∙◌, arith,
}
use express_monorepo_bank_te.Base.Table.{find_by, find_by-append_self}
use express_monorepo_bank_te.Bank.Errors.{
  invalid_credentials, unauthorized_error, app, is_unique_violation,
}
use express_monorepo_bank_te.Bank.Tx.{ok, err, is_ok}
use express_monorepo_bank_te.Bank.Api.Access.{same_text, bearer}
use express_monorepo_bank_te.Auth.{
  Text, User, RegisterInput, Tools, email_used, find_by_email, insert_user, register,
  verify_credentials, get_by_id, TokenConfig, Claims, claims_of, Jose, sign_token, verify_token,
}
use express_monorepo_bank_te.Auth.Routes.{
  registration, login, me, token, profile, reply, Draw, handle,
}

-- What the service relies on: bcrypt accepts the password that a hash was made of; lowering a text that has
-- been lowered changes nothing; and jose gives back the claims of a token that is not out of date.
pub record IsReliable (tools : Tools) (jose : Jose) : Type 0 where
  pub compare_hash :
      (salt : ℕ) (password : Text) → tools.compare password (tools.hash salt password) ≡ true
  pub lower_again : (t : Text) → tools.sql_lower (tools.to_lower t) ≡ tools.to_lower t
  pub verify_sign :
      (now : ℕ) (c : Claims)
      → c.iat ≤ now
      → now < c.exp
      → jose.jwt_verify now c.iss c.aud (jose.sign c) ≡ some c

pub same_text_refl : (t : Text) → same_text t t ≡ true
same_text_refl [] = refl
same_text_refl (c ∷ t) = ground (arith, same_text_refl t)

module _ (tools : Tools) where
  find_by_email-append :
      (row : User) (rows : List User) (email : Text)
      → tools.sql_lower row.email ≡ email
      → email_used tools row.email rows ≡ false
      → find_by_email tools email (rows ++ row ∷ []) ≡ some row
  find_by_email-append row [] email same h = ground (arith, same_text_refl email)
  find_by_email-append row (u ∷ rows) email same h =
      ground (arith, find_by_email-append row rows email same)

module _ (tools : Tools) (jose : Jose) (config : TokenConfig) (draw : Draw) where
  login_matches :
      (email password : Text) (rows : List User) (u : User)
      → find_by_email tools (tools.to_lower email) rows ≡ some u
      → tools.compare password u.password_hash ≡ true
      → handle tools jose config draw (login email password) rows
        ≡ (ok (reply 200 (token (sign_token jose config draw.now u) config.ttl_seconds)), rows)
  unfolding handle verify_credentials
  login_matches email password rows u found good = ground (arith, found, good)

  login_mismatch :
      (email password : Text) (rows : List User) (u : User)
      → find_by_email tools (tools.to_lower email) rows ≡ some u
      → tools.compare password u.password_hash ≡ false
      → handle tools jose config draw (login email password) rows
        ≡ (err (app (unauthorized_error invalid_credentials)), rows)
  unfolding handle verify_credentials
  login_mismatch email password rows u found bad = ground (arith, found, bad)

  me_shows :
      (issued : Text) (rows : List User) (c : Claims) (u : User)
      → jose.jwt_verify draw.now config.issuer config.audience issued ≡ some c
      → find_by User.id c.sub rows ≡ some u
      → handle tools jose config draw (me (bearer ++ issued)) rows
        ≡ (ok (reply 200 (profile u.id u.email u.name)), rows)
  unfolding handle verify_token get_by_id
  me_shows issued rows c u valid found = ground (arith, valid, found)

module _ (tools : Tools) (jose : Jose) (config : TokenConfig) (draw : Draw) (input : RegisterInput)
    (rows : List User) where
  abbrev new_user : User
  new_user = record {
    id = draw.id;
    email = tools.to_lower input.email;
    password_hash = tools.hash draw.salt input.password;
    name = input.name;
    created_at = draw.now;
  }

  -- A registration either adds the user or is refused.
  register-adds :
      is_ok (handle tools jose config draw (registration input) rows).0 ≡ true
      → (email_used tools (tools.to_lower input.email) rows ≡ false)
        × (find_by User.id draw.id rows ≡ none)
        × ((handle tools jose config draw (registration input) rows).1 ≡ rows ++ new_user ∷ [])
  unfolding handle register insert_user is_unique_violation
  register-adds done = ground (arith, done)

  -- After a registration that succeeded, the password logs in, under any spelling of the email that lowers to
  -- the same, and the token that it gives shows the user's profile until it expires; a password that bcrypt
  -- does not match with the hash is refused with the 401 `INVALID_CREDENTIALS`.
  pub register-login :
      (at later : Draw) (email other_password : Text)
      → IsReliable tools jose
      → is_ok (handle tools jose config draw (registration input) rows).0 ≡ true
      → tools.to_lower email ≡ tools.to_lower input.email
      → at.now ≤ later.now
      → later.now < at.now + config.ttl_seconds
      → tools.compare other_password (tools.hash draw.salt input.password) ≡ false
      → let (_, after) = handle tools jose config draw (registration input) rows in
        let issued = sign_token jose config at.now (record {
          id = draw.id;
          email = tools.to_lower input.email;
          password_hash = tools.hash draw.salt input.password;
          name = input.name;
          created_at = draw.now;
        }) in
        (handle tools jose config at (login email input.password) after
          ≡ (ok (reply 200 (token issued config.ttl_seconds)), after))
        × (handle tools jose config later (me (bearer ++ issued)) after
            ≡ (ok (reply 200 (profile draw.id (tools.to_lower input.email) input.name)), after))
        × (handle tools jose config at (login email other_password) after
            ≡ (err (app (unauthorized_error invalid_credentials)), after))
  register-login at later email other_password laws done same began lasts wrong =
      let (unused, free, after) = register-adds done in
      let listed =
        find_by_email-append tools new_user rows (tools.to_lower email)
          (laws.lower_again input.email ∙ sym same) unused in
      let found = find_by-append_self User.id new_user rows free in
      let valid = laws.verify_sign later.now (claims_of config at.now new_user) began lasts in
      rw after (
        login_matches tools jose config at email input.password _ new_user listed
            (laws.compare_hash draw.salt input.password),
        me_shows tools jose config later _ _ (claims_of config at.now new_user) new_user
            (unfold sign_token in valid) found,
        login_mismatch tools jose config at email other_password _ new_user listed wrong,
      )
