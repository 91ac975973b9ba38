-- ===== src/Store/Profiles/Tokens.antt =====
-- Keys stay unique, and a rotated token is refused at once.
use gigmcp.Base.{
  Text, [], ◌∷◌, ◌++◌, ℕ, ◌+◌, ◌≤◌, ℤ, pos, Bool, false, ◌==◌, ◌≡◌, ◌≢◌, refl, ap, ◌∙◌,
  comparable_text, comparable_int, any, first_where, update_where, if◌then◌else◌, some, ok, err,
  All-map, All-append, IsKeyedBy-append, delete_where-IsKeyedBy, update_where-IsKeyedBy,
  All-delete_where, All-update_where, fresh_of_any, first_where-and, first_where-map, keep_if,
  map_row, arith, Bool-cases, inl, inr,
}
use gigmcp.Store.Types.{Db, Profile, profile_not_found}
use gigmcp.Store.Profiles.{
  IsKeyed, found, new_profile, create_profile, get_profile_by_slug_and_token_hash,
  update_profile_name, set_profile_token, delete_profile,
}

abbrev Below : ℕ → Profile → Type 0
Below seq p = (n : ℕ) × (p.id ≡ pos n) × (n ≤ seq)

Below-suc : (seq : ℕ) (p : Profile) → Below seq p → Below (seq + 1) p
Below-suc seq p (n, e, le) = (n, e, omega arith)

fresh_id : (seq : ℕ) (p : Profile) → Below seq p → p.id ≢ pos (seq + 1)
fresh_id seq p (n, e, le) same = ground arith

insert-IsKeyed :
    (db : Db) (p : Profile)
    → p.id ≡ pos (db.profile_seq + 1)
    → any (λ q. q.slug == p.slug) db.profiles ≡ false
    → IsKeyed db
    → IsKeyed (record db { profiles = db.profiles ++ p ∷ []; profile_seq = db.profile_seq + 1 })
insert-IsKeyed db p id free h = record {
  ids =
      IsKeyedBy-append (λ (q : Profile). q.id) db.profiles p h.ids
        (rw id (All-map _ _ db.profiles (fresh_id db.profile_seq) h.below));
  slugs =
      IsKeyedBy-append (λ (q : Profile). q.slug) db.profiles p h.slugs
        (fresh_of_any (λ (q : Profile). q.slug) p.slug db.profiles free);
  below =
      All-append (Below (db.profile_seq + 1)) db.profiles (p ∷ [])
        (All-map _ _ db.profiles (Below-suc db.profile_seq) h.below)
        ((db.profile_seq + 1, id, omega arith), tt);
}

create_profile-IsKeyed :
    (now : ℕ) (slug name : Text) (user : ℤ) (hash : Text) (db : Db)
    → IsKeyed db
    → IsKeyed (create_profile now slug name user hash db).1
unfolding create_profile
create_profile-IsKeyed now slug name user hash db h =
    elim (Bool-cases (any (λ p. p.slug == slug) db.profiles)) [
      | inl e ↦ rw e h
      | inr e ↦ rw e (insert-IsKeyed db (new_profile now slug name user hash db) refl e h)
    ]

-- An update of other columns than the keys.
update-IsKeyed :
    (db : Db) (q : Profile → Bool) (f : Profile → Profile)
    → ((p : Profile) → (f p).id ≡ p.id)
    → ((p : Profile) → (f p).slug ≡ p.slug)
    → IsKeyed db
    → IsKeyed (record db { profiles = update_where q f db.profiles })
update-IsKeyed db q f ids slugs h = record {
  ids = update_where-IsKeyedBy (λ (p : Profile). p.id) q f db.profiles ids h.ids;
  slugs = update_where-IsKeyedBy (λ (p : Profile). p.slug) q f db.profiles slugs h.slugs;
  below =
      All-update_where (λ (p : Profile). p.id) (Below db.profile_seq) q f db.profiles
        (λ p (n, e, le). (n, ids p ∙ e, le)) h.below;
}

delete_profile-IsKeyed : (id : ℤ) (db : Db) → IsKeyed db → IsKeyed (delete_profile id db)
unfolding delete_profile
delete_profile-IsKeyed id db h = record {
  ids = delete_where-IsKeyedBy (λ (p : Profile). p.id) (λ p. p.id == id) db.profiles h.ids;
  slugs = delete_where-IsKeyedBy (λ (p : Profile). p.slug) (λ p. p.id == id) db.profiles h.slugs;
  below =
      All-delete_where (λ (p : Profile). p.id) (Below db.profile_seq) (λ p. p.id == id) db.profiles
        h.below;
}

-- Creating, renaming, rotating and deleting keep ids and slugs unique, and ids below the sequence.
pub profiles-IsKeyed :
    (db : Db)
    → IsKeyed db
    → ((now : ℕ) (slug name : Text) (user : ℤ) (hash : Text)
        → IsKeyed (create_profile now slug name user hash db).1)
      × ((id : ℤ) (name : Text) → IsKeyed (update_profile_name id name db))
      × ((id : ℤ) (hash : Text) → IsKeyed (set_profile_token id hash db))
      × ((id : ℤ) → IsKeyed (delete_profile id db))
unfolding update_profile_name set_profile_token
profiles-IsKeyed db h = (
  λ now slug name user hash. create_profile-IsKeyed now slug name user hash db h,
  λ id name. update-IsKeyed db _ _ (λ p. refl) (λ p. refl) h,
  λ id hash. update-IsKeyed db _ _ (λ p. refl) (λ p. refl) h,
  λ id. delete_profile-IsKeyed id db h,
)

-- The search of the MCP endpoint, as a search for the slug and a test of the token.
auth_by_slug :
    (slug hash : Text) (db : Db)
    → IsKeyed db
    → get_profile_by_slug_and_token_hash slug hash db
      ≡ found (keep_if (λ p. p.token_hash == hash) (first_where (λ p. p.slug == slug) db.profiles))
unfolding get_profile_by_slug_and_token_hash
auth_by_slug slug hash db h =
    ap found (
      first_where-and (λ (p : Profile). p.slug) slug (λ p. p.token_hash == hash) db.profiles
        h.slugs)

set_profile_token-IsKeyed :
    (id : ℤ) (hash : Text) (db : Db) → IsKeyed db → IsKeyed (set_profile_token id hash db)
set_profile_token-IsKeyed id hash db h = (profiles-IsKeyed db h).2 id hash

slug_after :
    (db : Db) (id : ℤ) (new slug : Text) (p : Profile)
    → first_where (λ q. q.slug == slug) db.profiles ≡ some p
    → first_where (λ q. q.slug == slug) (set_profile_token id new db).profiles
      ≡ some (if p.id == id then record p { token_hash = new } else p)
unfolding set_profile_token
slug_after db id new slug p at_slug =
    first_where-map (λ q. q.slug == slug) (λ q. q.id == id) (λ q. record q { token_hash = new })
      db.profiles (λ q. refl)
    ∙ ap (map_row (λ (q : Profile). if q.id == id then record q { token_hash = new } else q))
        at_slug

-- Setting the token of a profile: a request for its slug then passes with exactly the new token,
-- whatever the old one was, and a request for the slug of another profile passes as before.
pub set_profile_token-auth :
    (db : Db) (id : ℤ) (new hash slug : Text) (p : Profile)
    → IsKeyed db
    → first_where (λ q. q.slug == slug) db.profiles ≡ some p
    → get_profile_by_slug_and_token_hash slug hash (set_profile_token id new db) ≡ (
        if p.id == id
        then if new == hash then ok (record p { token_hash = new }) else err profile_not_found
        else get_profile_by_slug_and_token_hash slug hash db)
set_profile_token-auth db id new hash slug p h at_slug =
    auth_by_slug slug hash (set_profile_token id new db) (set_profile_token-IsKeyed id new db h)
    ∙ ground (arith, slug_after db id new slug p at_slug, at_slug, auth_by_slug slug hash db h)
