-- ===== src/Api/Profiles/Shelved.antt =====
-- The operations on memberships and installs keep every bundle within the installs of its owner.
use gigmcp.Base.{
  Text, List, [], ◌∷◌, ℕ, ◌≤◌, ℤ, pos, Bool, true, false, ◌&&◌, ◌==◌, comparable_text,
  comparable_int, any, first_where, delete_where, some, ok, ◌≡◌, ◌≢◌, ◌⊎◌, inl, inr, refl, ap, ◌∙◌,
  sym, subst, arith, text_beq_iff, int_beq_iff, Bool-cases, any-insert_or_ignore, any-deleted,
  first_where-delete_where,
}
use gigmcp.Store.Types.{Db, Profile, Membership}
use gigmcp.Store.Installs.{install_for_user, is_user_installed, is_install}
use gigmcp.Store.Installs.Isolation.{owns, uninstalled, uninstalled-IsUninstalled}
use gigmcp.Store.Profiles.{
  is_member, found, get_profile_by_id, delete_profile, bundle_replaced, remove_server_from_profiles,
}
use gigmcp.Store.Profiles.Bundles.{bundled, named, bundle_replaced-bundled}
use gigmcp.Api.Profiles.Stocked.{IsStocked, any_of_kept, found_of}

any_of_first :
    (id user : ℤ) (p : Profile) (rows : List Profile)
    → first_where (λ (q : Profile). q.id == id) rows ≡ some p
    → p.user_id ≡ user
    → any (λ (q : Profile). q.user_id == user && q.id == id) rows ≡ true
unfolding first_where any
any_of_first id user p [] k who = ground arith
any_of_first id user p (q ∷ rows) k who =
    ground (arith, any_of_first id user p rows, int_beq_iff q.user_id user)

module _ (db : Db) (h : IsStocked db) where
  -- Memberships are only taken away.
  pub fewer :
      (q : Membership → Bool)
      → IsStocked (record db { profile_servers = delete_where q db.profile_servers })
  unfolding get_profile_by_id is_user_installed
  fewer q = record {
    known = λ id name b. h.known id name (any_of_kept (is_member id name) q db.profile_servers b);
    installed = λ id name p b at.
        h.installed id name p (any_of_kept (is_member id name) q db.profile_servers b) at;
  }

  pub remove_server-IsStocked :
      (server : Text) → IsStocked (remove_server_from_profiles server db).1
  unfolding remove_server_from_profiles
  remove_server-IsStocked server = fewer (λ row. row.server_name == server)

  -- The bundle of a deleted profile goes with it.
  pub delete_profile-IsStocked : (id : ℤ) → IsStocked (delete_profile id db)
  unfolding delete_profile get_profile_by_id is_user_installed
  delete_profile-IsStocked gone =
      let kept = fewer (λ row. row.profile_id == gone) in
      record {
        known = kept.known;
        installed = λ id name p b at. elim (Bool-cases (id == gone)) [
          | inl e ↦ absurd (none_left id name e b)
          | inr e ↦
              h.installed id name p
                (any_of_kept (is_member id name) (λ row. row.profile_id == gone) db.profile_servers
                  b)
                (ap found (sym (apart id e)) ∙ at)
        ];
      }
    where
      none_left :
          (id : ℤ) (name : Text)
          → (id == gone) ≡ true
          → any
              (is_member id name)
              (delete_where (λ (row : Membership). row.profile_id == gone) db.profile_servers)
            ≡ true
          → ⊥
      none_left id name e b = ground (
        arith,
        any-deleted (is_member id name) (λ (row : Membership). row.profile_id == gone)
            db.profile_servers
            (λ row k. ground (
              arith,
              int_beq_iff row.profile_id id,
              int_beq_iff row.profile_id gone,
              int_beq_iff id gone,
            )),
      )

      apart :
          (id : ℤ)
          → (id == gone) ≡ false
          → first_where
              (λ (p : Profile). p.id == id)
              (delete_where (λ (p : Profile). p.id == gone) db.profiles)
            ≡ first_where (λ (p : Profile). p.id == id) db.profiles
      apart id e =
          first_where-delete_where (λ (p : Profile). p.id == id) (λ (p : Profile). p.id == gone)
            db.profiles
            (λ p k. ground (arith, int_beq_iff p.id id, int_beq_iff p.id gone, int_beq_iff id gone))

  -- A bundle may be replaced by names that its owner has installed.
  pub bundle_replaced-IsStocked :
      (id : ℤ) (names : List Text) (owner : Profile)
      → get_profile_by_id id db ≡ ok owner
      → ((n : ℕ) × (id ≡ pos n) × (n ≤ db.profile_seq))
      → ((name : Text) → named name names ≡ true → is_user_installed owner.user_id name db ≡ true)
      → IsStocked (bundle_replaced id names db)
  bundle_replaced-IsStocked id names owner at numbered all = record {
    known = λ j name b. elim (Bool-cases (id == j)) [
      | inl e ↦
          let (n, eq, le) = numbered in
          (n, sym ((int_beq_iff id j).0 e) ∙ eq, unfold bundle_replaced in le)
      | inr e ↦
          let (n, eq, le) =
            h.known j name (ground (arith, e, bundle_replaced-bundled db id j names name)) in
          (n, eq, unfold bundle_replaced in le)
    ];
    installed = λ j name p b there_. elim (Bool-cases (id == j)) [
      | inl e ↦
          let same : id ≡ j = (int_beq_iff id j).0 e in
          let who : p ≡ owner = profile_of p (same_profile j same p there_) in
          installs_alike p.user_id name
          ∙ ap (λ (q : Profile). is_user_installed q.user_id name db) who
          ∙ all name (ground (arith, e, bundle_replaced-bundled db id j names name))
      | inr e ↦
          installs_alike p.user_id name
          ∙ h.installed j name p (ground (arith, e, bundle_replaced-bundled db id j names name))
              (profiles_alike j p there_)
    ];
  }
    where
      installs_alike :
          (u : ℤ) (name : Text)
          → is_user_installed u name (bundle_replaced id names db) ≡ is_user_installed u name db
      installs_alike u name = unfold is_user_installed bundle_replaced in refl

      profiles_alike :
          (j : ℤ) (p : Profile)
          → get_profile_by_id j (bundle_replaced id names db) ≡ ok p
          → get_profile_by_id j db ≡ ok p
      profiles_alike j p k = unfold get_profile_by_id bundle_replaced in k

      same_profile :
          (j : ℤ)
          → id ≡ j
          → (p : Profile) → get_profile_by_id j (bundle_replaced id names db) ≡ ok p
          → get_profile_by_id id db ≡ ok p
      same_profile j same p k = ap (λ (i : ℤ). get_profile_by_id i db) same ∙ profiles_alike j p k

      profile_of : (p : Profile) → get_profile_by_id id db ≡ ok p → p ≡ owner
      profile_of p k = ground (arith, at)

  pub install_for_user-IsStocked :
      (user : ℤ) (server : Text) → IsStocked (install_for_user user server db)
  unfolding install_for_user get_profile_by_id is_user_installed
  install_for_user-IsStocked user server = record {
    known = h.known;
    installed = λ id name p b at. ground (
      arith,
      h.installed id name p b at,
      any-insert_or_ignore (is_install p.user_id name) (is_install user server)
          (record { user_id = user; server = server }) db.user_installs,
    );
  }

  owns_found :
      (id user : ℤ) (p : Profile)
      → get_profile_by_id id db ≡ ok p
      → p.user_id ≡ user
      → owns user id db ≡ true
  unfolding get_profile_by_id
  owns_found id user p at who =
      any_of_first id user p db.profiles
        (found_of (first_where (λ (q : Profile). q.id == id) db.profiles) p at) who

  -- Uninstalling takes the server out of the bundles of its user.
  pub uninstalled-IsStocked : (user : ℤ) (server : Text) → IsStocked (uninstalled user server db)
  uninstalled-IsStocked user server =
      let u = uninstalled-IsUninstalled user server db in
      record {
        known = λ id name b.
            unfold uninstalled in
            h.known id name (any_of_kept (is_member id name) _ db.profile_servers b);
        installed = λ id name p b at.
            let before = was_bundled id name b in
            let there_ = was_profile id p at in
            elim (Bool-cases (p.user_id == user && name == server)) [
              | inl e ↦ absurd (
                  ground (
                    arith,
                    u.own id (
                        owns_found id user p there_
                          ((int_beq_iff p.user_id user).0 (ground arith))),
                    subst (λ (t : Text). bundled id t (uninstalled user server db) ≡ true)
                        ((text_beq_iff name server).0 (ground arith)) b,
                  ))
              | inr e ↦
                  (u.contained.others p.user_id name (differ p.user_id name e)).0
                  ∙ h.installed id name p before there_
            ];
      }
    where
      was_bundled :
          (id : ℤ) (name : Text)
          → bundled id name (uninstalled user server db) ≡ true
          → bundled id name db ≡ true
      was_bundled id name b =
          unfold uninstalled in any_of_kept (is_member id name) _ db.profile_servers b

      was_profile :
          (id : ℤ) (p : Profile)
          → get_profile_by_id id (uninstalled user server db) ≡ ok p
          → get_profile_by_id id db ≡ ok p
      was_profile id p k = unfold get_profile_by_id uninstalled in k

      differ :
          (u : ℤ) (name : Text)
          → (u == user && name == server) ≡ false
          → (u ≢ user) ⊎ (name ≢ server)
      differ u name e = elim (Bool-cases (u == user)) [
        | inr n ↦ inl (λ same. ground (arith, int_beq_iff u user))
        | inl y ↦ inr (λ same. ground (arith, text_beq_iff name server))
      ]
