-- ===== src/Store/Accounts/Rotation.antt =====
-- Rotating the access token of a connection.
use gigmcp.Base.{
  Text, List, [], ◌∷◌, ℕ, ℤ, Bool, true, ◌≡◌, ◌≢◌, ◌⊎◌, inl, inr, refl, ap, ◌∙◌, comparable_text,
  comparable_int, any, first_where, some, ok, arith, text_beq_iff, int_beq_iff,
  first_where-update_where, first_where-updated, first_where-upsert_self, Option-cases,
}
use gigmcp.Store.Types.{Db, ConnectedAccount, from_unix, unix}
use gigmcp.Store.Accounts.{
  of_vendor, stored_account, put_connected_account, rotated, update_connected_account_tokens,
  found_account, get_connected_account,
}

of_vendor_self : (c : ConnectedAccount) → of_vendor c.user_id c.vendor c ≡ true
of_vendor_self c = ground (arith, int_beq_iff c.user_id c.user_id, text_beq_iff c.vendor c.vendor)

pub put_connected_account-get :
    (c : ConnectedAccount) (db : Db)
    → get_connected_account c.user_id c.vendor (put_connected_account c db) ≡ ok (stored_account c)
unfolding get_connected_account put_connected_account
put_connected_account-get c db =
    ap found_account (
      first_where-upsert_self (of_vendor c.user_id c.vendor) (λ old. stored_account c)
        (stored_account c) db.connected_accounts (of_vendor_self c) (λ old h. of_vendor_self c))
    ∙ elim (Option-cases (first_where (of_vendor c.user_id c.vendor) db.connected_accounts)) [
      | inl e ↦ rw e refl
      | inr (old, e) ↦ rw e refl
    ]

row_of :
    (user : ℤ) (vendor : Text) (db : Db) (c : ConnectedAccount)
    → get_connected_account user vendor db ≡ ok c
    → first_where (of_vendor user vendor) db.connected_accounts ≡ some c
unfolding get_connected_account
row_of user vendor db c e =
    elim (Option-cases (first_where (of_vendor user vendor) db.connected_accounts)) [
      | inl missing ↦ ground (arith, missing)
      | inr (r, at) ↦ at ∙ ground (arith, at)
    ]

any_of_first :
    (p : ConnectedAccount → Bool) (rows : List ConnectedAccount) (c : ConnectedAccount)
    → first_where p rows ≡ some c
    → any p rows ≡ true
unfolding any first_where
any_of_first p [] c e = cc
any_of_first p (d ∷ rows) c e = ground (arith, any_of_first p rows c)

-- Rotating the token of a connection that exists succeeds; the connection then has the new access
-- token and, to the second, the new expiry, with its refresh token and scopes as before, and every
-- other pair of user and vendor reads as before.
pub update_connected_account_tokens-get :
    (user : ℤ) (vendor access : Text) (expires_at : ℕ) (db : Db) (c : ConnectedAccount)
    → get_connected_account user vendor db ≡ ok c
    → let after = update_connected_account_tokens user vendor access expires_at db in
      (after.0 ≡ ok tt)
      × (get_connected_account user vendor after.1
          ≡ ok (record c {
            encrypted_access_token = access;
            expires_at = from_unix (unix expires_at);
          }))
      × ((u : ℤ) (v : Text)
          → (u ≢ user) ⊎ (v ≢ vendor)
          → get_connected_account u v after.1 ≡ get_connected_account u v db)
unfolding update_connected_account_tokens get_connected_account
update_connected_account_tokens-get user vendor access expires_at db c e = (
  rw (any_of_first (of_vendor user vendor) db.connected_accounts c (row_of user vendor db c e))
      refl,
  ap found_account (
      first_where-updated (of_vendor user vendor) (rotated access expires_at) db.connected_accounts
        c (λ d. refl) (row_of user vendor db c e)),
  λ u v d. ap found_account (
      first_where-update_where (of_vendor u v) (of_vendor user vendor) (rotated access expires_at)
        db.connected_accounts (λ r. refl)
        (λ r h. ground (
          arith,
          int_beq_iff r.user_id u,
          int_beq_iff r.user_id user,
          text_beq_iff r.vendor v,
          text_beq_iff r.vendor vendor,
        ))),
)
