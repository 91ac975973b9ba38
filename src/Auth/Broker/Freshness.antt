-- ===== src/Auth/Broker/Freshness.antt =====
-- EnsureFreshToken: where a token comes from, and that a renewed one serves until it runs out.
use gigmcp.Base.{
  Text, ℕ, ℤ, ◌+◌, ◌<◌, true, false, Option, none, some, Result, Result-cases, ok, >>=-eq-ok, sym,
  subst, ◌≡◌, ◌≢◌, ◌⊎◌, inl, inr, refl, arith, Bool-cases,
}
use gigmcp.Store.AuthConfigs.{get_auth_config}
use gigmcp.Store.Types.{Db, AuthConfig, ConnectedAccount, Error, from_unix, unix}
use gigmcp.Store.Accounts.{get_connected_account, update_connected_account_tokens}
use gigmcp.Store.Accounts.Rotation.{update_connected_account_tokens-get}
use gigmcp.Auth.Broker.{
  Broker, OauthConfig, Token, refresh_skew, is_fresh, load_account, load_config, client_secret_of,
  oauth_config_for, granted_token, persisted, stored_token, renewed, refresh_and_persist,
  ensure_fresh_token,
}

module _ (b : Broker) (user : ℤ) (vendor : Text) where
  -- The stored token of the user's account, which does not run out within the skew.
  pub record IsCached (now : ℕ) (db : Db) (token : Text) : Type 0 where
    pub acct : ConnectedAccount
    pub at : get_connected_account user vendor db ≡ ok acct
    pub lasting : now + refresh_skew < acct.expires_at
    pub opened : b.decrypt acct.encrypted_access_token ≡ ok token

  -- The token is what the vendor answers to the account's refresh token, for the scopes that the
  -- account was granted.
  pub record IsAsked (db : Db) (acct : ConnectedAccount) (tok : Token) : Type 0 where
    pub ac : AuthConfig
    pub secret : Text
    pub refresh : Text
    pub configured : get_auth_config vendor db ≡ ok ac
    pub client : client_secret_of b ac ≡ ok secret
    pub kept : b.decrypt acct.encrypted_refresh_token ≡ ok refresh
    pub answered :
        b.refresh_grant
          (record {
            client_id = ac.client_id;
            client_secret = secret;
            auth_url = ac.authorize_url;
            token_url = ac.token_url;
            redirect_url = b.redirect;
            scopes = acct.granted_scopes;
          })
          refresh
        ≡ ok tok

  configured_of :
      (db : Db) (ac : AuthConfig)
      → load_config b vendor db ≡ ok ac
      → get_auth_config vendor db ≡ ok ac
  unfolding load_config
  configured_of db ac h = ground arith

  granted-IsAsked :
      (db : Db) (acct : ConnectedAccount) (tok : Token)
      → granted_token b vendor db acct ≡ ok tok
      → IsAsked db acct tok
  unfolding granted_token oauth_config_for
  granted-IsAsked db acct tok h =
      let (ac, found, h1) = >>=-eq-ok (load_config b vendor db) _ h in
      let (conf, made, h2) = >>=-eq-ok (oauth_config_for b ac acct.granted_scopes) _ h1 in
      let (refresh, kept, answered) = >>=-eq-ok (b.decrypt acct.encrypted_refresh_token) _ h2 in
      let (secret, client, h3) = >>=-eq-ok (client_secret_of b ac) _ made in
      record {
        ac = ac;
        secret = secret;
        refresh = refresh;
        configured = configured_of db ac found;
        client = client;
        kept = kept;
        answered =
            subst (λ (c : OauthConfig). b.refresh_grant c refresh ≡ ok tok)
              (sym (ok_config _ conf h3)) answered;
      }
    where
      ok_config : (c d : OauthConfig) → ◌≡◌ {A = Result Error OauthConfig} (ok c) (ok d) → c ≡ d
      ok_config c d e = cc

  -- The token of one grant for the user's account, of which only the token columns change.
  pub record IsGranted (now : ℕ) (db : Db) (token : Text) (after : Db) : Type 0 where
    pub acct : ConnectedAccount
    pub tok : Token
    pub box : Text
    pub at : get_connected_account user vendor db ≡ ok acct
    pub ended : ¬ (now + refresh_skew < acct.expires_at)
    pub asked : IsAsked db acct tok
    pub encrypted : b.encrypt tok.access ≡ ok box
    pub same : token ≡ tok.access
    pub written : after ≡ persisted b user vendor box tok.expiry db

  loaded :
      (db : Db) (acct : ConnectedAccount)
      → load_account b user vendor db ≡ ok acct
      → get_connected_account user vendor db ≡ ok acct
  unfolding load_account
  loaded db acct h = ground arith

  lasting_of :
      (now : ℕ) (acct : ConnectedAccount)
      → is_fresh now acct ≡ true
      → now + refresh_skew < acct.expires_at
  unfolding is_fresh
  lasting_of now acct h = ground arith

  ended_of :
      (now : ℕ) (acct : ConnectedAccount)
      → is_fresh now acct ≡ false
      → ¬ (now + refresh_skew < acct.expires_at)
  unfolding is_fresh
  ended_of now acct h = ground arith

  renewed-IsGranted :
      (now : ℕ) (db : Db) (acct : ConnectedAccount) (token : Text) (after : Db)
      → get_connected_account user vendor db ≡ ok acct
      → ¬ (now + refresh_skew < acct.expires_at)
      → renewed b user vendor db acct ≡ (ok token, after)
      → IsGranted now db token after
  unfolding renewed stored_token
  renewed-IsGranted now db acct token after at ended h =
      elim (Result-cases (granted_token b vendor db acct)) [
        | inr (e, g) ↦ ground (arith, g)
        | inl (tok, g) ↦ elim (Result-cases (b.encrypt tok.access)) [
          | inr (e, x) ↦ ground (arith, g, x)
          | inl (box, x) ↦ record {
            acct = acct;
            tok = tok;
            box = box;
            at = at;
            ended = ended;
            asked = granted-IsAsked db acct tok g;
            encrypted = x;
            same = ground (arith, g, x);
            written = ground (arith, g, x);
          }
        ]
      ]

  refresh-IsCached :
      (now : ℕ) (db : Db) (token : Text) (after : Db)
      → refresh_and_persist b now user vendor db ≡ (ok token, after)
      → (IsCached now db token × (after ≡ db)) ⊎ IsGranted now db token after
  unfolding refresh_and_persist
  refresh-IsCached now db token after h = elim (Result-cases (load_account b user vendor db)) [
    | inr (e, l) ↦ ground (arith, l)
    | inl (acct, l) ↦ elim (Bool-cases (is_fresh now acct)) [
      | inl f ↦ inl (
        record {
          acct = acct;
          at = loaded db acct l;
          lasting = lasting_of now acct f;
          opened = ground (arith, l, f);
        },
        ground (arith, l, f),
      )
      | inr f ↦ inr (
          renewed-IsGranted now db acct token after (loaded db acct l) (ended_of now acct f)
            (ground (arith, l, f)))
    ]
  ]

  -- A token that is handed out is that of the user's own account for the vendor, which lasted
  -- longer than the skew when it was read and leaves the store as it was, or what the vendor
  -- answered to the refresh token of that account, which did not last that long, or the answer of
  -- the flight that it joined.
  pub ensure_fresh_token-IsEntitled :
      (now later : ℕ) (flight : Option (Result Error Text)) (seen db : Db) (token : Text)
      (after : Db)
      → ensure_fresh_token b now later flight user vendor seen db ≡ (ok token, after)
      → (IsCached now seen token × (after ≡ db))
        ⊎ (IsCached later db token × (after ≡ db))
        ⊎ IsGranted later db token after
        ⊎ ((flight ≡ some (ok token)) × (after ≡ db))
  unfolding ensure_fresh_token
  ensure_fresh_token-IsEntitled now later flight seen db token after h =
      elim (Result-cases (load_account b user vendor seen)) [
        | inr (e, l) ↦ ground (arith, l)
        | inl (acct, l) ↦ elim (Bool-cases (is_fresh now acct)) [
          | inl f ↦ inl (
            record {
              acct = acct;
              at = loaded seen acct l;
              lasting = lasting_of now acct f;
              opened = ground (arith, l, f);
            },
            ground (arith, l, f),
          )
          | inr f ↦ inr (turn flight (ground (arith, l, f)))
        ]
      ]
    where
      turn :
          (flight : Option (Result Error Text))
          → (elim flight [
            | some answer ↦ (answer, db)
            | none ↦ refresh_and_persist b later user vendor db
          ])
            ≡ (ok token, after)
          → (IsCached later db token × (after ≡ db))
            ⊎ IsGranted later db token after
            ⊎ ((flight ≡ some (ok token)) × (after ≡ db))
      turn none k = elim (refresh-IsCached later db token after k) [
        | inl c ↦ inl c
        | inr g ↦ inr (inl g)
      ]
      turn (some answer) k = inr (inr (ground arith, ground arith))

module _ (b : Broker) (user : ℤ) (vendor : Text) (db : Db) (acct : ConnectedAccount) (tok : Token)
    (box : Text) where
  cached_after :
      (t : ℕ) (flight : Option (Result Error Text))
      (grant : OauthConfig → Text → Result Error Token) (after : Db)
      → b.account_fault ≡ none
      → b.decrypt box ≡ ok tok.access
      → get_connected_account user vendor after
        ≡ ok
            (record acct { encrypted_access_token = box; expires_at = from_unix (unix tok.expiry) })
      → t + refresh_skew < from_unix (unix tok.expiry)
      → ensure_fresh_token (record b { refresh_grant = grant }) t t flight user vendor after after
        ≡ (ok tok.access, after)
  unfolding ensure_fresh_token load_account is_fresh
  cached_after t flight grant after calm opens at lasts = ground (arith, calm, opens, at, lasts)

  granted_once :
      (now : ℕ)
      → b.account_fault ≡ none
      → b.write_fault ≡ none
      → get_connected_account user vendor db ≡ ok acct
      → ¬ (now + refresh_skew < acct.expires_at)
      → granted_token b vendor db acct ≡ ok tok
      → b.encrypt tok.access ≡ ok box
      → ensure_fresh_token b now now none user vendor db db
        ≡ (ok tok.access, (update_connected_account_tokens user vendor box tok.expiry db).1)
  unfolding ensure_fresh_token refresh_and_persist load_account is_fresh renewed stored_token
      persisted
  granted_once now calm writes at ended granted enc =
      ground (arith, calm, writes, at, ended, granted, enc)

  -- If the token of an account has run out and the grant and the calls of the store and the vault
  -- succeed, the caller gets the token of the grant, other accounts read as before, and until that
  -- token runs out, up to whole seconds and the skew, every later call gets the same token, leaves
  -- the store alone and needs no grant.
  pub ensure_fresh_token-again :
      (now : ℕ)
      → b.account_fault ≡ none
      → b.write_fault ≡ none
      → get_connected_account user vendor db ≡ ok acct
      → ¬ (now + refresh_skew < acct.expires_at)
      → granted_token b vendor db acct ≡ ok tok
      → b.encrypt tok.access ≡ ok box
      → b.decrypt box ≡ ok tok.access
      → let first = ensure_fresh_token b now now none user vendor db db in
        (first.0 ≡ ok tok.access)
        × ((t : ℕ) (flight : Option (Result Error Text))
              (grant : OauthConfig → Text → Result Error Token)
            → t + refresh_skew < from_unix (unix tok.expiry)
            → ensure_fresh_token
                (record b { refresh_grant = grant })
                t
                t
                flight
                user
                vendor
                first.1
                first.1
              ≡ (ok tok.access, first.1))
        × ((u : ℤ) (v : Text)
            → (u ≢ user) ⊎ (v ≢ vendor)
            → get_connected_account u v first.1 ≡ get_connected_account u v db)
  ensure_fresh_token-again now calm writes at ended granted enc opens =
      let once = granted_once now calm writes at ended granted enc in
      let kept = update_connected_account_tokens-get user vendor box tok.expiry db acct at in
      rw once (
        refl,
        λ t flight grant lasts.
            cached_after t flight grant
              (update_connected_account_tokens user vendor box tok.expiry db).1 calm opens kept.1
              lasts,
        kept.2,
      )
