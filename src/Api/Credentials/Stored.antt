-- ===== src/Api/Credentials/Stored.antt =====
-- A credential that the control plane accepts is read back whole.
use gigmcp.Base.{
  Text, List, [], ◌∷◌, ℕ, ℤ, true, not, ◌&&◌, ◌==◌, comparable_text, leb, length, Option, none,
  some, Result, Result-cases, ok, >>=-eq-ok, require-eq-ok, or_else->>=, IsLine, AllLines, ◌≡◌, ◌≢◌,
  ◌⊎◌, inl, inr, refl, ap, ◌∙◌, ◌++◌, lit, sym, subst, arith, text_beq_iff, Option-cases,
}
use gigmcp.Store.Types.{Db, Credential, User}
use gigmcp.Store.Manifests.{put_credential, get_credential, user_tenant}
use gigmcp.Store.Manifests.Secrets.{put_credential-get}
use gigmcp.Store.Audit.{append_audit}
use gigmcp.Auth.Session.{Context}
use gigmcp.Api.Types.{Control, Env, wrote, effective_user, audit, with_db}
use gigmcp.Api.Names.{is_server_name, all_of, is_blank, is_host_entry}
use gigmcp.Api.Credentials.{
  CredentialBody, all_hosts, validate_credential_body, user_status, credential_of,
  handle_put_credential,
}

all_of-IsLine : (s : Text) → all_of (λ c. not (is_blank c)) s ≡ true → IsLine s
unfolding all_of
all_of-IsLine [] h = tt
all_of-IsLine (c ∷ s) h = (λ e. ground arith, all_of-IsLine s (ground arith))

-- No host has a line feed, which would split it in the column.
hosts_lines : (hosts : List Text) → all_hosts hosts ≡ true → AllLines hosts
unfolding all_hosts is_host_entry
hosts_lines [] h = tt
hosts_lines (s ∷ hosts) h = (all_of-IsLine s (ground arith), hosts_lines hosts (ground arith))

hosts_several : (hosts : List Text) → all_hosts hosts ≡ true → hosts ≢ ([] ∷ [])
unfolding all_hosts is_host_entry
hosts_several hosts h e = no_empty (subst (λ (l : List Text). all_hosts l ≡ true) e h)
  where
    no_empty : all_hosts ([] ∷ []) ≡ true → ⊥
    no_empty k = ground (arith, text_beq_iff [] [])

valid_hosts :
    (b : CredentialBody) (done : Unit {0})
    → validate_credential_body b ≡ ok done
    → all_hosts b.allowed_hosts ≡ true
unfolding validate_credential_body
valid_hosts b done h =
    let (header, h1) = require-eq-ok _ 400 _ h in
    let (hosts, h2) =
      require-eq-ok (leb (length b.allowed_hosts) 64 && all_hosts b.allowed_hosts) 400 _ h1 in
    ground arith

module _ (env : Env) (ctx : Option Context) (server : Text) (body : Result ℕ CredentialBody)
    (s : Control) where
  -- The row of a request that is accepted.
  pub record IsAccepted (c : Credential) : Type 0 where
    pub user : User
    pub b : CredentialBody
    pub caller : effective_user ctx ≡ some user
    pub sent : body ≡ ok b
    pub secret : b.secret ≢ []
    pub of_server : c.server ≡ server
    pub of_user : c.tenant ≡ user_tenant user.id
    pub key : env.encrypt b.secret ≡ ok c.encrypted_key
    pub header : c.inject_header ≡ b.inject_header
    pub format : c.inject_format ≡ b.inject_format
    pub placeholder : c.placeholder ≡ b.placeholder
    pub hosts : c.allowed_hosts ≡ b.allowed_hosts
    pub lines : AllLines c.allowed_hosts
    pub several : c.allowed_hosts ≢ ([] ∷ [])

  user_of : (o : Option User) (u : User) → user_status o ≡ ok u → o ≡ some u
  user_of none u h = cc
  user_of (some v) u h = cc

  full_of : (t : Text) → not (t == []) ≡ true → t ≢ []
  full_of t h e = ground (arith, text_beq_iff t [])

  row_of : (made c : Credential) → ◌≡◌ {A = Result ℕ Credential} (ok made) (ok c) → made ≡ c
  row_of made c h = cc

  accepted : (c : Credential) → credential_of env ctx server body ≡ ok c → IsAccepted c
  unfolding credential_of
  accepted c h =
      let (named, h1) = require-eq-ok (is_server_name server) 400 _ h in
      let (b, sent, h2) = >>=-eq-ok body _ h1 in
      let (full, h3) = require-eq-ok (not (b.secret == [])) 400 _ h2 in
      let (valid, checked, h4) = >>=-eq-ok (validate_credential_body b) _ h3 in
      let (user, caller, h5) = >>=-eq-ok (user_status (effective_user ctx)) _ h4 in
      let (key, sealed, h6) = or_else->>= 500 (env.encrypt b.secret) _ h5 in
      let hosts = valid_hosts b valid checked in
      subst (λ (r : Credential). IsAccepted r) (row_of _ c h6)
        (record {
          user = user;
          b = b;
          caller = user_of (effective_user ctx) user caller;
          sent = sent;
          secret = full_of b.secret full;
          of_server = refl;
          of_user = refl;
          key = sealed;
          header = refl;
          format = refl;
          placeholder = refl;
          hosts = refl;
          lines = hosts_lines b.allowed_hosts hosts;
          several = hosts_several b.allowed_hosts hosts;
        })

  noted_credentials :
      (decision detail : Text) (profile : Option ℤ) (db : Db)
      → (audit env ctx decision detail profile db).credentials ≡ db.credentials
  unfolding audit append_audit
  noted_credentials decision detail profile db = ground arith

  reads_alike :
      (server tenant : Text) (db after : Db)
      → after.credentials ≡ db.credentials
      → get_credential server tenant after ≡ get_credential server tenant db
  unfolding get_credential
  reads_alike server tenant db after same = rw same refl

  -- A request to store a credential that succeeds stores one for the caller, of the secret as
  -- encrypted and the rest as sent, that is read back whole under the server and the caller's
  -- tenant; every other pair of server and tenant reads as before.
  pub handle_put_credential-get :
      (status : ℕ) (done : Unit {0}) (after : Control)
      → handle_put_credential env ctx server body s ≡ (wrote status done, after)
      → (c : Credential) × IsAccepted c
        × (get_credential c.server c.tenant after.db ≡ ok c)
        × ((t tenant : Text)
            → (t ≢ c.server) ⊎ (tenant ≢ c.tenant)
            → get_credential t tenant after.db ≡ get_credential t tenant s.db)
  unfolding handle_put_credential
  handle_put_credential-get status done after h =
      elim (Result-cases (credential_of env ctx server body)) [
        | inr (bad, c) ↦ ground (arith, c)
        | inl (c, at) ↦ elim (Option-cases env.write_fault) [
          | inr (e, w) ↦ ground (arith, at, w)
          | inl w ↦
              let a = accepted c at in
              let same : after.db.credentials ≡ (put_credential c s.db).credentials =
                stored_rows c (ground (arith, at, w)) in
              let got = put_credential-get c s.db a.lines a.several in
              (
                c,
                a,
                reads_alike c.server c.tenant (put_credential c s.db) after.db same ∙ got.0,
                λ t tenant d.
                    reads_alike t tenant (put_credential c s.db) after.db same ∙ got.1 t tenant d,
              )
        ]
      ]
    where
      stored_rows :
          (c : Credential)
          → with_db
              (audit env ctx
                (lit "credential_put")
                (lit "server=" ++ server)
                none
                (put_credential c s.db))
              s
            ≡ after
          → after.db.credentials ≡ (put_credential c s.db).credentials
      stored_rows c e =
          ap (λ (x : Control). x.db.credentials) (sym e)
          ∙ noted_credentials (lit "credential_put") (lit "server=" ++ server) none
              (put_credential c s.db)
