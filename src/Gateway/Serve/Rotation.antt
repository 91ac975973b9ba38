-- ===== src/Gateway/Serve/Rotation.antt =====
-- A token that was rotated away is refused from then on.
use gigmcp.Base.{
  Text, [], ◌∷◌, ◌≡◌, ◌≢◌, refl, Option, none, some, Result, lit, cut_prefix, first_where, ◌==◌,
  comparable_text, comparable_int, arith, text_beq_iff, int_beq_iff,
}
use gigmcp.Store.Types.{Db, Profile}
use gigmcp.Store.Profiles.{IsKeyed, set_profile_token, get_profile_by_slug_and_token_hash}
use gigmcp.Store.Profiles.Tokens.{set_profile_token-auth}
use gigmcp.Gateway.ProfileHost.{Runtime}
use gigmcp.Gateway.Serve.{refused, with_token, serve}

-- After the token of a profile was set, a request to its endpoint gets the status 401, whatever
-- runtime is live, unless the token it bears has the new hash.
pub serve-set_profile_token :
    {E : Type 0} (hash_token : Text → Text) (get_or_create : Profile → Result E Runtime) (db : Db)
    (p : Profile) (new authorization : Text)
    → IsKeyed db
    → first_where (λ (q : Profile). q.slug == p.slug) db.profiles ≡ some p
    → ((token : Text)
        → cut_prefix authorization (lit "Bearer ") ≡ some token
        → hash_token token ≢ new)
    → serve hash_token
        (λ slug hash. get_profile_by_slug_and_token_hash slug hash (set_profile_token p.id new db))
        get_or_create
        authorization
        p.slug
      ≡ refused 401
unfolding serve with_token
serve-set_profile_token hash_token get_or_create db p new authorization keyed at other =
    by_header (cut_prefix authorization (lit "Bearer ")) refl
  where
    by_header :
        (o : Option Text)
        → cut_prefix authorization (lit "Bearer ") ≡ o
        → serve hash_token
            (λ slug hash.
              get_profile_by_slug_and_token_hash slug hash (set_profile_token p.id new db))
            get_or_create
            authorization
            p.slug
          ≡ refused 401
    by_header none e = ground (arith, e)
    by_header (some []) e = ground (arith, e)
    by_header (some (c ∷ token)) e = ground (
      arith,
      e,
      set_profile_token-auth db p.id new (hash_token (c ∷ token)) p.slug p keyed at,
      int_beq_iff p.id p.id,
      text_beq_iff new (hash_token (c ∷ token)),
      other (c ∷ token) e,
    )
