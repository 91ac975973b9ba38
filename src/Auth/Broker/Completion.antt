-- ===== src/Auth/Broker/Completion.antt =====
-- A connect flow that nothing disturbs ends with the connection of the user who began it.
use gigmcp.Base.{
  Text, List, [], ◌∷◌, ℕ, ◌+◌, ◌≤◌, ℤ, pos, true, false, ◌==◌, comparable_text, none, some, ok, any,
  All, All-map, ◌≡◌, ◌≢◌, ◌∙◌, arith, text_beq_iff,
}
use gigmcp.Store.Types.{Db, AuthConfig, unix}
use gigmcp.Store.AuthConfigs.{get_auth_config}
use gigmcp.Store.Accounts.{get_connected_account, put_connected_account, stored_account}
use gigmcp.Store.Accounts.Rotation.{put_connected_account-get}
use gigmcp.Auth.Scopes.{union_scopes, scopes_satisfied}
use gigmcp.Auth.Scopes.Union.{union_scopes-IsUnion, scopes_satisfied_iff}
use gigmcp.Auth.Flow.{cookie_of, is_past, sign_flow, verify_flow}
use gigmcp.Auth.Flow.Signing.{IsFaithful, verify_flow-sign_flow}
use gigmcp.Auth.Broker.{
  Broker, FlowState, OauthConfig, Token, redirected, Callback, flow_ttl, flow_of, account_of,
  landing, granted_of, client_secret_of, oauth_config_for, load_config, started, start_handler,
  connected_account, callback_handler,
}

-- Every required scope is in the union with it, unless it is empty.
union-satisfied :
    (defaults required more : List Text)
    → All (λ (s : Text). any (λ t. t == s) required ≡ true) more
    → All (λ (s : Text). s ≢ []) more
    → All (λ (s : Text). any (λ t. t == s) (union_scopes (defaults ∷ required ∷ [])) ≡ true) more
unfolding any
union-satisfied defaults required [] h ne = tt
union-satisfied defaults required (s ∷ more) h ne = (
  (union_scopes-IsUnion (defaults ∷ required ∷ [])).members s
      ∙ ground (arith, h.0, text_beq_iff s []),
  union-satisfied defaults required more h.1 ne.1,
)

members_of : (l : List Text) → All (λ (s : Text). any (λ t. t == s) l ≡ true) l
unfolding any
members_of [] = tt
members_of (t ∷ l) = (
  ground (arith, text_beq_iff t t),
  All-map (λ (s : Text). any (λ r. r == s) l ≡ true)
      (λ (s : Text). any (λ r. r == s) (t ∷ l) ≡ true) l (λ s h. ground arith) (members_of l),
)

-- What is requested of the vendor satisfies what the apps require.
requested_satisfies :
    (defaults required : List Text)
    → All (λ (s : Text). s ≢ []) required
    → scopes_satisfied (union_scopes (defaults ∷ required ∷ [])) required ≡ true
requested_satisfies defaults required ne =
    (scopes_satisfied_iff (union_scopes (defaults ∷ required ∷ [])) required).1
      (union-satisfied defaults required required (members_of required) ne)

timely :
    (now later : ℕ) → later ≤ now + flow_ttl → is_past (pos (unix (now + flow_ttl))) later ≡ false
unfolding is_past
timely now later h = ground arith

module _ (b : Broker) (now : ℕ) (user : ℤ) (vendor : Text) (required : List Text) (return_to : Text)
    (state pkce secret : Text) (ac : AuthConfig) where
  abbrev pub asked : List Text
  asked = union_scopes (ac.default_scopes ∷ required ∷ [])

  abbrev pub begun : FlowState
  begun = flow_of now user vendor return_to asked state pkce

  abbrev pub used : OauthConfig
  used = record {
    client_id = ac.client_id;
    client_secret = secret;
    auth_url = ac.authorize_url;
    token_url = ac.token_url;
    redirect_url = b.redirect;
    scopes = asked;
  }

  module _ (payload : Text) (fine : b.config_fault ≡ none)
      (secrets : client_secret_of b ac ≡ ok secret) (m : b.codec.marshal begun ≡ ok payload) where
    start_redirects :
        (db : Db)
        → vendor ≢ []
        → get_auth_config vendor db ≡ ok ac
        → start_handler b now user vendor required return_to (ok state) pkce db
          ≡ redirected
              (b.auth_code_url used state pkce)
              (record { value = cookie_of b.codec payload; max_age = 600 })
    unfolding start_handler started load_config oauth_config_for sign_flow
    start_redirects db named at =
        ground (arith, named, at, fine, secrets, m, text_beq_iff vendor [])

    module _ (later : ℕ) (code : Text) (tok : Token) (refresh access : Text)
        (u : b.codec.unmarshal payload ≡ ok begun) (faithful : IsFaithful b.codec payload)
        (dated : b.codec.expires begun ≡ pos (unix (now + flow_ttl)))
        (in_time : later ≤ now + flow_ttl) (exchanged : b.exchange used code pkce ≡ ok tok)
        (full : tok.refresh ≢ []) (r : b.encrypt tok.refresh ≡ ok refresh)
        (a : b.encrypt tok.access ≡ ok access) where
      abbrev pub answer : Callback
      answer = record {
        cookie = some (cookie_of b.codec payload);
        error = [];
        state = state;
        code = code;
      }

      verified : verify_flow b.codec later (cookie_of b.codec payload) ≡ ok begun
      verified =
          verify_flow-sign_flow b.codec begun payload (cookie_of b.codec payload) later m u faithful
            (unfold sign_flow in ground (arith, m))
          ∙ ground (arith, dated, timely now later in_time)

      connects :
          (db : Db)
          → get_auth_config vendor db ≡ ok ac
          → connected_account b later answer db ≡ ok (begun, account_of begun tok refresh access)
      unfolding connected_account load_config oauth_config_for
      connects db at = ground (
        arith,
        verified,
        text_beq_iff [] [],
        text_beq_iff state state,
        text_beq_iff tok.refresh [],
        at,
        fine,
        secrets,
        exchanged,
        full,
        r,
        a,
      )

      -- If the calls succeed, the vendor has a registration at both times and the codec is faithful
      -- to the flow, then a flow that was started for a user and whose callback comes within ten
      -- minutes, with the cookie and the state of the start and a code that the vendor exchanges
      -- for tokens with a refresh token among them, is redirected and leaves under the user and the
      -- vendor the connection with these tokens. Unless the provider names the scopes that it
      -- granted, they satisfy the required ones, if none of these is empty.
      pub connect-completes :
          (db after : Db)
          → vendor ≢ []
          → get_auth_config vendor db ≡ ok ac
          → get_auth_config vendor after ≡ ok ac
          → b.write_fault ≡ none
          → let acct = account_of begun tok refresh access in
            (start_handler b now user vendor required return_to (ok state) pkce db
              ≡ redirected
                  (b.auth_code_url used state pkce)
                  (record { value = cookie_of b.codec payload; max_age = 600 }))
            × (callback_handler b later answer after ≡ (
              redirected (landing return_to) (record { value = []; max_age = 0 }),
              put_connected_account acct after,
            ))
            × (get_connected_account user vendor (put_connected_account acct after)
                ≡ ok (stored_account acct))
            × (tok.scope ≡ none
                → All (λ (s : Text). s ≢ []) required
                → scopes_satisfied acct.granted_scopes required ≡ true)
      unfolding callback_handler granted_of
      connect-completes db after named at still writes = (
        start_redirects db named at,
        ground (arith, connects after still, writes),
        put_connected_account-get (account_of begun tok refresh access) after,
        λ unnamed full_scopes.
            rw unnamed (requested_satisfies ac.default_scopes required full_scopes),
      )
