-- ===== src/Store/Sessions/Expiry.antt =====
-- A session that GetSession returns is live, and one that it refuses is gone.
use gigmcp.Base.{
  Text, ℕ, ◌≤◌, ◌&&◌, ◌==◌, ◌≡◌, ◌≢◌, comparable_text, first_where, ok, err, leb, arith,
  text_beq_iff, first_where_holds, first_where-delete_where, first_where-delete_only, IsKeyedBy,
  Option-cases, inl, inr,
}
use gigmcp.Store.Types.{Db, Session, session_not_found, unix}
use gigmcp.Store.Sessions.{get_session}

-- What a call answers about a hash, and what it leaves in the table.
pub record IsRead (now : ℕ) (hash : Text) (db : Db) : Type 0 where
  pub live :
      (s : Session)
      → (get_session now hash db).0 ≡ ok s
      → (s.token_hash ≡ hash) × (now ≤ s.expires_at) × ((get_session now hash db).1 ≡ db)
  pub dead :
      (later : ℕ)
      → (get_session now hash db).0 ≡ err session_not_found
      → (get_session later hash (get_session now hash db).1).0 ≡ err session_not_found
  pub others :
      (h : Text)
      → h ≢ hash
      → first_where (λ s. s.token_hash == h) (get_session now hash db).1.sessions
        ≡ first_where (λ s. s.token_hash == h) db.sessions

module _ (now : ℕ) (hash : Text) (db : Db) where
  read_live :
      (s : Session)
      → (get_session now hash db).0 ≡ ok s
      → (s.token_hash ≡ hash) × (now ≤ s.expires_at) × ((get_session now hash db).1 ≡ db)
  unfolding get_session
  read_live s e = elim (Option-cases (first_where (λ r. r.token_hash == hash) db.sessions)) [
    | inl missing ↦ ground arith
    | inr (r, at) ↦ ground (
      arith,
      at,
      text_beq_iff r.token_hash hash,
      first_where_holds (λ (x : Session). x.token_hash == hash) db.sessions at,
    )
  ]

  read_dead :
      (later : ℕ)
      → IsKeyedBy (λ (s : Session). s.token_hash) db.sessions
      → (get_session now hash db).0 ≡ err session_not_found
      → (get_session later hash (get_session now hash db).1).0 ≡ err session_not_found
  unfolding get_session
  read_dead later keyed e =
      elim (Option-cases (first_where (λ r. r.token_hash == hash) db.sessions)) [
        | inl missing ↦ ground (arith, missing)
        | inr (r, at) ↦ ground (
          arith,
          at,
          text_beq_iff r.token_hash hash,
          first_where_holds (λ (x : Session). x.token_hash == hash) db.sessions at,
          first_where-delete_only (λ (x : Session). x.token_hash) hash
              (λ s. s.token_hash == hash && leb (unix s.expires_at) (unix r.expires_at)) db.sessions
              r keyed at,
        )
      ]

  read_others :
      (h : Text)
      → h ≢ hash
      → first_where (λ s. s.token_hash == h) (get_session now hash db).1.sessions
        ≡ first_where (λ s. s.token_hash == h) db.sessions
  unfolding get_session
  read_others h ne = elim (Option-cases (first_where (λ r. r.token_hash == hash) db.sessions)) [
    | inl missing ↦ ground (arith, missing)
    | inr (r, at) ↦ ground (
      arith,
      at,
      first_where-delete_where (λ s. s.token_hash == h)
          (λ s. s.token_hash == hash && leb (unix s.expires_at) (unix r.expires_at)) db.sessions
          (λ s e. ground (arith, text_beq_iff s.token_hash h, text_beq_iff s.token_hash hash)),
    )
  ]

-- A session that is returned has the hash that was asked for and has not expired, and nothing
-- changes. A hash that is reported as missing stays missing, at whatever time it is asked for
-- again. The sessions of other hashes stay.
pub get_session-IsRead :
    (now : ℕ) (hash : Text) (db : Db)
    → IsKeyedBy (λ (s : Session). s.token_hash) db.sessions
    → IsRead now hash db
get_session-IsRead now hash db keyed = record {
  live = read_live now hash db;
  dead = λ later e. read_dead now hash db later keyed e;
  others = read_others now hash db;
}
