-- ===== src/Auth/Flow/Signing.antt =====
-- A flow survives its cookie, and no other cookie passes than one that the process signed.
use gigmcp.Base.{
  Text, List, [], ◌∷◌, ◌++◌, ℕ, false, ◌==◌, comparable_text, if◌then◌else◌, some, Result-cases, ok,
  err, lit, ◌≡◌, ◌≢◌, inl, inr, ap, ◌∙◌, arith, text_beq_iff, All, Has, here, there, Bool-cases,
  Option-cases,
}
use gigmcp.Store.Types.{failure}
use gigmcp.Auth.Flow.{
  Codec, cut_dot, is_past, cookie_of, sign_flow, read_flow, verify_parts, verify_flow,
}

cut_dot-append :
    (before after : Text)
    → All (λ (c : ℕ). c ≢ b'.') before
    → cut_dot (before ++ b'.' ∷ after) ≡ some (before, after)
unfolding cut_dot
cut_dot-append [] after h = ground arith
cut_dot-append (c ∷ before) after h = ground (arith, cut_dot-append before after h.1)

-- What the packages promise of a payload: base64 has no dot and is undone by its decoder.
pub record IsFaithful {F : Type 0} (c : Codec F) (payload : Text) : Type 0 where
  pub dotless : All (λ (d : ℕ). d ≢ b'.') (c.encode payload)
  pub decoded : c.decode (c.encode payload) ≡ ok payload
  pub mac_decoded : c.decode (c.encode (c.mac payload)) ≡ ok (c.mac payload)

module _ {F : Type 0} (c : Codec F) where
  -- A flow that was signed, if its JSON text is undone by the decoder, as base64 is, is read back
  -- whole by the second in which it expires, and is refused as expired afterwards.
  pub verify_flow-sign_flow :
      (fs : F) (payload v : Text) (now : ℕ)
      → c.marshal fs ≡ ok payload
      → c.unmarshal payload ≡ ok fs
      → IsFaithful c payload
      → sign_flow c fs ≡ ok v
      → verify_flow c now v
        ≡ (if is_past (c.expires fs) now then err (failure (lit "flow expired")) else ok fs)
  unfolding sign_flow verify_flow verify_parts read_flow
  verify_flow-sign_flow fs payload v now m u f s =
      let signed : cookie_of c payload ≡ v = ground (arith, m, s) in
      let parts : cut_dot v ≡ some (c.encode payload, c.encode (c.mac payload)) =
        rw (← signed) (cut_dot-append (c.encode payload) (c.encode (c.mac payload)) f.dotless) in
      ground
        (arith, parts, f.decoded, f.mac_decoded, u, text_beq_iff (c.mac payload) (c.mac payload))

  -- The signature in the second part of a cookie is that of the payload in the first.
  pub record IsSigned (v payload : Text) : Type 0 where
    pub left : Text
    pub right : Text
    pub parted : cut_dot v ≡ some (left, right)
    pub carried : c.decode left ≡ ok payload
    pub sealed : c.decode right ≡ ok (c.mac payload)

  pub record IsVerified (now : ℕ) (v : Text) (fs : F) : Type 0 where
    pub payload : Text
    pub signed : IsSigned v payload
    pub parsed : c.unmarshal payload ≡ ok fs
    pub timely : is_past (c.expires fs) now ≡ false

  verify_parts-IsVerified :
      (now : ℕ) (v left right : Text) (fs : F)
      → cut_dot v ≡ some (left, right)
      → verify_parts c now left right ≡ ok fs
      → IsVerified now v fs
  unfolding verify_parts read_flow
  verify_parts-IsVerified now v left right fs e h = elim (Result-cases (c.decode left)) [
    | inr (bad, l) ↦ ground (arith, l)
    | inl (payload, l) ↦ elim (Result-cases (c.decode right)) [
      | inr (bad, r) ↦ ground (arith, l, r)
      | inl (sig, r) ↦ elim (Bool-cases (sig == c.mac payload)) [
        | inr t ↦ ground (arith, l, r, t)
        | inl t ↦ elim (Result-cases (c.unmarshal payload)) [
          | inr (bad, u) ↦ ground (arith, l, r, t, u)
          | inl (gs, u) ↦ elim (Bool-cases (is_past (c.expires gs) now)) [
            | inl p ↦ ground (arith, l, r, t, u, p)
            | inr p ↦
                let same : gs ≡ fs = ground (arith, l, r, t, u, p) in
                record {
                  payload = payload;
                  signed = record {
                    left = left;
                    right = right;
                    parted = e;
                    carried = l;
                    sealed = r ∙ ap ok ((text_beq_iff sig (c.mac payload)).0 t);
                  };
                  parsed = rw (← same) u;
                  timely = rw (← same) p;
                }
          ]
        ]
      ]
    ]
  ]

  pub verify_flow-IsVerified :
      (now : ℕ) (v : Text) (fs : F) → verify_flow c now v ≡ ok fs → IsVerified now v fs
  unfolding verify_flow
  verify_flow-IsVerified now v fs h = elim (Option-cases (cut_dot v)) [
    | inl e ↦ ground (arith, e)
    | inr ((left, right), e) ↦ verify_parts-IsVerified now v left right fs e (ground (arith, e))
  ]

  -- What the HMAC promises: without the key nobody has a signature but of the payloads that were
  -- signed, which are those of the flows issued.
  abbrev pub IsUnforged : List F → Text → Type 0
  IsUnforged issued v =
      (payload : Text) → IsSigned v payload → Has (λ (fs : F). c.marshal fs ≡ ok payload) issued

  abbrev pub IsInvertible : List F → Type 0
  IsInvertible =
      All (λ (fs : F). (payload : Text) → c.marshal fs ≡ ok payload → c.unmarshal payload ≡ ok fs)

  issued_of :
      (issued : List F) (payload : Text) (fs : F)
      → IsInvertible issued
      → c.unmarshal payload ≡ ok fs
      → Has (λ (gs : F). c.marshal gs ≡ ok payload) issued
      → Has (λ (gs : F). gs ≡ fs) issued
  issued_of [] payload fs inv u h = elim h [ ]
  issued_of (gs ∷ more) payload fs inv u (here m) =
      let r : c.unmarshal payload ≡ ok gs = inv.0 payload m in here (cc)
  issued_of (gs ∷ more) payload fs inv u (there h) = there (issued_of more payload fs inv.1 u h)

  -- A cookie that nobody forged is accepted only as a flow that was issued and has not expired.
  pub verify_flow-issued :
      (issued : List F) (now : ℕ) (v : Text) (fs : F)
      → IsInvertible issued
      → IsUnforged issued v
      → verify_flow c now v ≡ ok fs
      → Has (λ (gs : F). gs ≡ fs) issued × (is_past (c.expires fs) now ≡ false)
  verify_flow-issued issued now v fs inv unforged h =
      let w = verify_flow-IsVerified now v fs h in
      (issued_of issued w.payload fs inv w.parsed (unforged w.payload w.signed), w.timely)
