-- ===== src/Vault/Envelope.antt =====
-- Decrypting what was encrypted under the same master key.
use gigmcp.Base.{
  ◌∷◌, ◌++◌, ℕ, ◌+◌, ◌%◌, ◌^◌, ◌<◌, ◌≡◌, refl, ap, sym, ◌∙◌, false, some, ok, ◌>>=◌, length, take,
  drop, ltb, arith, length-append, take-append, drop-append, subst,
}
use mathlib.Core.List.{append_assoc}
use gigmcp.Vault.{
  Bytes, Aead, Error, put_uint32, uint32, first, layout, encrypt, decrypt, unwrap_with, or_error,
  sized, open_with, seal_with, nonce_size, key_size,
}

uint32-put_uint32 : (n : ℕ) → n < 2 ^ 32 → uint32 (put_uint32 n) ≡ n
unfolding uint32 put_uint32
uint32-put_uint32 n h = omega arith

length-put_uint32 : (n : ℕ) → length (put_uint32 n) ≡ 4
unfolding put_uint32
length-put_uint32 n = refl

-- A take or a drop at a place that is known to be the end of the first parts.
take_exact : (n : ℕ) (xs ys : Bytes) → length xs ≡ n → take n (xs ++ ys) ≡ xs
take_exact n xs ys h = subst (λ m. take m (xs ++ ys) ≡ xs) h (take-append xs ys)

drop_exact : (n : ℕ) (xs ys : Bytes) → length xs ≡ n → drop n (xs ++ ys) ≡ ys
drop_exact n xs ys h = subst (λ m. drop m (xs ++ ys) ≡ ys) h (drop-append xs ys)

drop_two :
    (n : ℕ) (xs ys rest : Bytes) → length xs + length ys ≡ n → drop n (xs ++ (ys ++ rest)) ≡ rest
drop_two n xs ys rest h =
    ap (drop n) (sym (append_assoc xs ys rest))
    ∙ drop_exact n (xs ++ ys) rest (length-append xs ys ∙ h)

drop_three :
    (n : ℕ) (xs ys zs rest : Bytes)
    → length xs + length ys + length zs ≡ n
    → drop n (xs ++ (ys ++ (zs ++ rest))) ≡ rest
drop_three n xs ys zs rest h =
    ap (drop n) (sym (append_assoc xs ys (zs ++ rest)))
    ∙ drop_two n (xs ++ ys) zs rest (omega (arith, length-append xs ys))

drop_four :
    (n : ℕ) (ws xs ys zs rest : Bytes)
    → length ws + length xs + length ys + length zs ≡ n
    → drop n (ws ++ (xs ++ (ys ++ (zs ++ rest)))) ≡ rest
drop_four n ws xs ys zs rest h =
    ap (drop n) (sym (append_assoc ws xs (ys ++ (zs ++ rest))))
    ∙ drop_three n (ws ++ xs) ys zs rest (omega (arith, length-append ws xs))

module _ (aead : Aead) (n_kek wrapped n_dek ct : Bytes) (nonce_kek : length n_kek ≡ nonce_size)
    (nonce_dek : length n_dek ≡ nonce_size) (fits : length wrapped < 2 ^ 32) where
  abbrev box : Bytes
  box = layout aead n_kek wrapped n_dek ct

  abbrev size : Bytes
  size = put_uint32 (length wrapped % 2 ^ 32)

  length-size : length size ≡ 4
  length-size = length-put_uint32 (length wrapped % 2 ^ 32)

  -- The parts of a box of this layout, at the places from which Decrypt reads them.
  box_nonce : take nonce_size (drop 1 box) ≡ n_kek
  unfolding layout
  box_nonce = take_exact nonce_size n_kek _ nonce_kek

  box_size : uint32 (take 4 (drop 25 box)) ≡ length wrapped
  unfolding layout
  box_size =
      ap (λ (b : Bytes). uint32 (take 4 b))
        (drop_exact 24 n_kek (size ++ (wrapped ++ (n_dek ++ ct))) nonce_kek)
      ∙ ap uint32 (take_exact 4 size _ length-size)
      ∙ uint32-put_uint32 (length wrapped % 2 ^ 32) (omega arith)
      ∙ omega arith

  box_wrapped : take (length wrapped) (drop 29 box) ≡ wrapped
  unfolding layout
  box_wrapped =
      ap (take (length wrapped))
        (drop_two 28 n_kek size (wrapped ++ (n_dek ++ ct)) (omega (arith, nonce_kek, length-size)))
      ∙ take_exact (length wrapped) wrapped _ refl

  box_payload : take nonce_size (drop (29 + length wrapped) box) ≡ n_dek
  unfolding layout
  box_payload =
      ap (take nonce_size) (
        drop_three (29 + length wrapped) (1 ∷ n_kek) size wrapped (n_dek ++ ct)
          (omega (arith, nonce_kek, length-size)))
      ∙ take_exact nonce_size n_dek ct nonce_dek

  box_ct : drop (29 + length wrapped + nonce_size) box ≡ ct
  unfolding layout
  box_ct =
      drop_four (29 + length wrapped + nonce_size) (1 ∷ n_kek) size wrapped n_dek ct
        (omega (arith, nonce_kek, nonce_dek, length-size))

  length-box : length box ≡ 29 + length wrapped + nonce_size + length ct
  unfolding layout
  length-box = omega (
    arith,
    length-append n_kek (size ++ (wrapped ++ (n_dek ++ ct))),
    length-append size (wrapped ++ (n_dek ++ ct)),
    length-append wrapped (n_dek ++ ct),
    length-append n_dek ct,
    nonce_kek,
    nonce_dek,
    length-size,
  )

  not_short : ltb (length box) 29 ≡ false
  not_short = ground (arith, length-box)

  not_truncated : ltb (length box) (29 + length wrapped + nonce_size) ≡ false
  not_truncated = ground (arith, length-box)

  first-box : first box ≡ 1
  unfolding first layout
  first-box = refl

  -- Decrypt opens the wrapped key and then the payload.
  decrypt-layout :
      (kek : Bytes)
      → decrypt aead kek box ≡ (
          open_with aead Error.unwrap kek n_kek wrapped >>= λ dek.
          open_with aead Error.authentication dek n_dek ct)
  unfolding decrypt sized unwrap_with
  decrypt-layout kek =
      rw
        (not_short, first-box, box_size, not_truncated, box_nonce, box_wrapped, box_payload, box_ct)

module _ (aead : Aead) where
  seal_with_lem :
      (key nonce plain : Bytes)
      → length key ≡ key_size
      → seal_with aead key (some nonce) plain ≡ ok (nonce, aead.seal key nonce plain)
  unfolding seal_with or_error
  seal_with_lem key nonce plain h = ground arith

  open_with-seal :
      (e : Error) (key nonce plain : Bytes)
      → length key ≡ key_size
      → open_with aead e key nonce (aead.seal key nonce plain) ≡ ok plain
  unfolding open_with or_error
  open_with-seal e key nonce plain h = rw aead.open-seal (ground arith)

  -- With keys and nonces of the sizes that are asked for, what Encrypt returns under a master key
  -- is a value, and Decrypt under the same master key gives the plaintext back.
  pub decrypt-encrypt :
      (kek dek nonce_kek nonce_dek plain : Bytes)
      → length kek ≡ key_size
      → length dek ≡ key_size
      → length nonce_kek ≡ nonce_size
      → length nonce_dek ≡ nonce_size
      → (box : Bytes) × (encrypt aead kek (some dek) (some nonce_kek) (some nonce_dek) plain
          ≡ ok box)
        × (decrypt aead kek box ≡ ok plain)
  unfolding encrypt or_error
  decrypt-encrypt kek dek nonce_kek nonce_dek plain hk hd hnk hnd =
      let wrapped = aead.seal kek nonce_kek dek in
      let ct = aead.seal dek nonce_dek plain in
      (
        layout aead nonce_kek wrapped nonce_dek ct,
        rw (seal_with_lem kek nonce_kek dek hk, seal_with_lem dek nonce_dek plain hd),
        decrypt-layout aead nonce_kek wrapped nonce_dek ct hnk hnd
              (omega (arith, aead.length-seal kek nonce_kek dek)) kek
            ∙ rw (open_with-seal Error.unwrap kek nonce_kek dek hk)
                (open_with-seal Error.authentication dek nonce_dek plain hd),
      )
