-- ===== src/Auth/Broker/Connect.antt =====
-- The connect flow from its start to the stored connection.
use gigmcp.Base.{
  Text, List, [], ℕ, true, false, not, ◌==◌, comparable_text, Option, none, some, Result,
  Result-cases, ok, >>=-eq-ok, require-eq-ok, or_else->>=, ◌≡◌, ◌≢◌, inl, inr, refl, arith, Has,
  subst, text_beq_iff, Option-cases,
}
use gigmcp.Store.Types.{Db, ConnectedAccount}
use gigmcp.Store.Accounts.{put_connected_account}
use gigmcp.Auth.Flow.{is_past, verify_flow}
use gigmcp.Auth.Flow.Signing.{IsUnforged, IsInvertible, verify_flow-issued}
use gigmcp.Auth.Broker.{
  Broker, FlowState, OauthConfig, Token, Reply, refused, redirected, Callback, cookie_value,
  load_config, oauth_config_for, granted_of, account_of, landing, connected_account,
  callback_handler,
}

cookie_of : (cookie : Option Text) (v : Text) → cookie_value cookie ≡ ok v → cookie ≡ some v
cookie_of none v h = cc
cookie_of (some w) v h = cc

pair_of :
    (fs gs : FlowState) (acct made : ConnectedAccount)
    → ◌≡◌ {A = Result ℕ (FlowState × ConnectedAccount)} (ok (gs, made)) (ok (fs, acct))
    → (gs ≡ fs) × (made ≡ acct)
pair_of fs gs acct made h = (cc, cc)

full_of : (s : Text) → not (s == []) ≡ true → s ≢ []
full_of s h e = ground (arith, text_beq_iff s [])

module _ (b : Broker) (issued : List FlowState) (now : ℕ) (q : Callback) (db : Db) where
  -- What stands behind an account that the callback stores.
  pub record IsConnected (fs : FlowState) (acct : ConnectedAccount) : Type 0 where
    pub conf : OauthConfig
    pub tok : Token
    pub begun : Has (λ (gs : FlowState). gs ≡ fs) issued
    pub timely : is_past (b.codec.expires fs) now ≡ false
    pub accepted : q.error ≡ []
    pub matched : q.state ≡ fs.state
    pub exchanged : b.exchange conf q.code fs.verifier ≡ ok tok
    pub renewable : tok.refresh ≢ []
    pub owner : acct.user_id ≡ fs.user_id
    pub vendor : acct.vendor ≡ fs.vendor
    pub refresh : b.encrypt tok.refresh ≡ ok acct.encrypted_refresh_token
    pub access : b.encrypt tok.access ≡ ok acct.encrypted_access_token
    pub scopes : acct.granted_scopes ≡ granted_of fs.scopes tok.scope

  -- A refusal leaves the store as it was; a redirection has stored one such account.
  abbrev pub Outcome : Reply → Db → Type 0
  Outcome (refused status) after = after ≡ db
  Outcome (redirected dest cookie) after =
      (fs : FlowState) × (acct : ConnectedAccount) × IsConnected fs acct
      × (dest ≡ landing fs.return_to)
      × (after ≡ put_connected_account acct db)

  module _ (inv : IsInvertible b.codec issued)
      (unforged : (v : Text) → q.cookie ≡ some v → IsUnforged b.codec issued v) where
    connected_account-IsConnected :
        (fs : FlowState) (acct : ConnectedAccount)
        → connected_account b now q db ≡ ok (fs, acct)
        → IsConnected fs acct
    unfolding connected_account
    connected_account-IsConnected fs acct h =
        let (v, cookie, h1) = >>=-eq-ok (cookie_value q.cookie) _ h in
        let (gs, verified, h2) = or_else->>= 400 (verify_flow b.codec now v) _ h1 in
        let (calm, h3) = require-eq-ok (q.error == []) 401 _ h2 in
        let (state, h4) = require-eq-ok (q.state == gs.state) 400 _ h3 in
        let (ac, loaded, h5) = or_else->>= 500 (load_config b gs.vendor db) _ h4 in
        let (conf, built, h6) = or_else->>= 500 (oauth_config_for b ac gs.scopes) _ h5 in
        let (tok, exchanged, h7) = or_else->>= 502 (b.exchange conf q.code gs.verifier) _ h6 in
        let (full, h8) = require-eq-ok (not (tok.refresh == [])) 502 _ h7 in
        let (refresh, r, h9) = or_else->>= 500 (b.encrypt tok.refresh) _ h8 in
        let (access, a, h10) = or_else->>= 500 (b.encrypt tok.access) _ h9 in
        let (begun, timely) =
          verify_flow-issued b.codec issued now v gs inv (unforged v (cookie_of q.cookie v cookie))
            verified in
        let (same_flow, same_account) = pair_of fs gs acct (account_of gs tok refresh access) h10 in
        subst (λ (a : ConnectedAccount). IsConnected fs a) same_account
          (subst (λ (f : FlowState). IsConnected f (account_of gs tok refresh access)) same_flow
            (record {
              conf = conf;
              tok = tok;
              begun = begun;
              timely = timely;
              accepted = (text_beq_iff q.error []).0 calm;
              matched = (text_beq_iff q.state gs.state).0 state;
              exchanged = exchanged;
              renewable = full_of tok.refresh full;
              owner = refl;
              vendor = refl;
              refresh = r;
              access = a;
              scopes = refl;
            }))

    -- If the HMAC is not forged, a callback that redirects has stored one account, of the user and
    -- the vendor of a flow that this process began and that has not expired, after the provider
    -- reported no error and sent the state of that flow, with the encrypted tokens of the exchange
    -- of the code under the verifier of that flow, a refresh token among them; a callback that
    -- refuses has changed nothing.
    pub callback_handler-Outcome :
        Outcome (callback_handler b now q db).0 (callback_handler b now q db).1
    unfolding callback_handler
    callback_handler-Outcome = elim (Result-cases (connected_account b now q db)) [
      | inr (status, c) ↦ rw (c, Outcome, callback_handler) refl
      | inl ((fs, acct), c) ↦ elim (Option-cases b.write_fault) [
        | inr (e, w) ↦ rw (c, Outcome, callback_handler) (rw w refl)
        | inl w ↦
            rw (c, Outcome, callback_handler)
              (rw w (fs, acct, connected_account-IsConnected fs acct c, refl, refl))
      ]
    ]
