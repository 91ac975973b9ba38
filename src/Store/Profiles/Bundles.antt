-- ===== src/Store/Profiles/Bundles.antt =====
-- What a replaced bundle holds.
use gigmcp.Base.{
  Text, List, [], ◌∷◌, ℤ, Bool, true, false, ◌&&◌, ◌||◌, ◌==◌, ◌≡◌, refl, ◌∙◌, comparable_text,
  comparable_int, any, where_, map, delete_where, insert_or_ignore, if◌then◌else◌, arith,
  text_beq_iff, int_beq_iff, any-insert_or_ignore, any-delete_where, any-deleted, Bool-cases, inl,
  inr,
}
use gigmcp.Store.Types.{Db, Membership}
use gigmcp.Store.Profiles.{is_member, add_servers, bundle_replaced, remove_server_from_profiles}

abbrev pub bundled : ℤ → Text → Db → Bool
bundled id name db = any (is_member id name) db.profile_servers

-- Whether a name is in the list that was handed in.
abbrev pub named : Text → List Text → Bool
named name names = any (λ n. n == name) names

is_member-same :
    (id j : ℤ) (n name : Text)
    → is_member id name (record { profile_id = j; server_name = n }) ≡ (j == id && n == name)
is_member-same id j n name = refl

any-is_member :
    (id j : ℤ) (n name : Text) (rows : List Membership)
    → (j == id && n == name) ≡ true
    → any (is_member j n) rows ≡ any (is_member id name) rows
any-is_member id j n name rows h =
    let same_id : j ≡ id = (int_beq_iff j id).0 (ground arith) in
    let same_name : n ≡ name = (text_beq_iff n name).0 (ground arith) in rw (same_id, same_name)

any-member_add :
    (id j : ℤ) (names : List Text) (name : Text) (rows : List Membership)
    → any (is_member id name) (add_servers j names rows)
      ≡ (any (is_member id name) rows || (j == id && named name names))
unfolding add_servers any
any-member_add id j [] name rows = ground arith
any-member_add id j (n ∷ names) name rows =
    any-member_add id j names name
      (insert_or_ignore (is_member j n) (record { profile_id = j; server_name = n }) rows)
    ∙ ground (
      arith,
      any-insert_or_ignore (is_member id name) (is_member j n)
          (record { profile_id = j; server_name = n }) rows,
      any-is_member id j n name rows,
    )

any_cleared :
    (db : Db) (j id : ℤ) (name : Text)
    → (j == id) ≡ true
    → any (is_member id name) (delete_where (λ row. row.profile_id == j) db.profile_servers) ≡ false
any_cleared db j id name e =
    any-deleted (is_member id name) (λ row. row.profile_id == j) db.profile_servers
      (λ row h.
        ground
          (arith, int_beq_iff row.profile_id id, int_beq_iff row.profile_id j, int_beq_iff j id))

any_kept :
    (db : Db) (j id : ℤ) (name : Text)
    → (j == id) ≡ false
    → any (is_member id name) (delete_where (λ row. row.profile_id == j) db.profile_servers)
      ≡ bundled id name db
any_kept db j id name e =
    any-delete_where (is_member id name) (λ row. row.profile_id == j) db.profile_servers
      (λ row h.
        ground
          (arith, int_beq_iff row.profile_id id, int_beq_iff row.profile_id j, int_beq_iff j id))

-- After the bundle of a profile was replaced, it holds exactly the names that were handed in, and
-- the bundle of every other profile holds what it held.
pub bundle_replaced-bundled :
    (db : Db) (j id : ℤ) (names : List Text) (name : Text)
    → bundled id name (bundle_replaced j names db)
      ≡ (if j == id then named name names else bundled id name db)
unfolding bundle_replaced
bundle_replaced-bundled db j id names name =
    any-member_add id j names name (delete_where (λ row. row.profile_id == j) db.profile_servers)
    ∙ elim (Bool-cases (j == id)) [
      | inl e ↦ ground (arith, e, any_cleared db j id name e)
      | inr e ↦ ground (arith, e, any_kept db j id name e)
    ]

any_ids :
    (id : ℤ) (server : Text) (rows : List Membership)
    → any
        (λ j. j == id)
        (map (λ row. row.profile_id) (where_ (λ row. row.server_name == server) rows))
      ≡ any (is_member id server) rows
unfolding any where_
any_ids id server [] = refl
any_ids id server (row ∷ rows) = ground (arith, any_ids id server rows)

-- Removing a server from all profiles returns the ids of exactly the profiles that held it; none
-- holds it afterwards, and every other membership stays.
pub remove_server_from_profiles-bundled :
    (server : Text) (db : Db) (id : ℤ) (name : Text)
    → (any (λ j. j == id) (remove_server_from_profiles server db).0 ≡ bundled id server db)
      × (bundled id name (remove_server_from_profiles server db).1
          ≡ (if server == name then false else bundled id name db))
unfolding remove_server_from_profiles
remove_server_from_profiles-bundled server db id name = (
  any_ids id server db.profile_servers,
  elim (Bool-cases (server == name)) [
    | inl e ↦ rw e (
        any-deleted (is_member id name) (λ row. row.server_name == server) db.profile_servers
          (λ row h. ground (
            arith,
            text_beq_iff row.server_name name,
            text_beq_iff row.server_name server,
            text_beq_iff server name,
          )))
    | inr e ↦ rw e (
        any-delete_where (is_member id name) (λ row. row.server_name == server) db.profile_servers
          (λ row h. ground (
            arith,
            text_beq_iff row.server_name name,
            text_beq_iff row.server_name server,
            text_beq_iff server name,
          )))
  ],
)
