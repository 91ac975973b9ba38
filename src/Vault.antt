-- ===== src/Vault.antt =====
-- internal/vault/vault.go: envelope encryption. golang.org/x/crypto's XChaCha20-Poly1305 is the
-- parameter `Aead`; what rand.Read returned is an argument, `none` for its error.
pub mod Envelope
use gigmcp.Base.{
  List, [], ◌∷◌, ◌++◌, ℕ, ◌+◌, ◌*◌, ◌/◌, ◌%◌, ◌^◌, ◌<◌, ◌≡◌, Bool, true, false, not, Option, none,
  some, Result, ok, err, ◌>>=◌, length, take, drop, if◌then◌else◌, ltb, nat_beq,
}

abbrev pub Bytes : Type 0
Bytes = List ℕ

-- chacha20poly1305.KeySize and NonceSizeX
abbrev pub key_size : ℕ
key_size = 32

abbrev pub nonce_size : ℕ
nonce_size = 24

-- What the package documents of Seal and Open under one key and nonce: Open gives back what Seal
-- took, and Seal adds an overhead of 16 bytes.
pub record Aead : Type 0 where
  pub seal : Bytes → Bytes → Bytes → Bytes
  pub open_ : Bytes → Bytes → Bytes → Option Bytes
  pub open-seal : (key nonce plain : Bytes) → open_ key nonce (seal key nonce plain) ≡ some plain
  pub length-seal : (key nonce plain : Bytes) → length (seal key nonce plain) ≡ length plain + 16

pub data Error : Type 0 where
  no_entropy bad_key malformed truncated : Error
  -- "vault: unwrap DEK", and a failed open of the payload
  unwrap authentication : Error

or_error : Error → Option Bytes → Result Error Bytes
or_error e none = err e
or_error e (some b) = ok b

-- binary.BigEndian.PutUint32 of a uint32
pub put_uint32 : ℕ → Bytes
put_uint32 n = n / 2 ^ 24 % 256 ∷ n / 2 ^ 16 % 256 ∷ n / 2 ^ 8 % 256 ∷ n % 256 ∷ []

-- binary.BigEndian.Uint32
pub uint32 : Bytes → ℕ
uint32 (a ∷ b ∷ c ∷ d ∷ rest) = ((a * 256 + b) * 256 + c) * 256 + d
uint32 _ = 0

first : Bytes → ℕ
first [] = 0
first (b ∷ box) = b

module _ (aead : Aead) where
  -- chacha20poly1305.NewX refuses a key of another length.
  seal_with : Bytes → Option Bytes → Bytes → Result Error (Bytes × Bytes)
  unfolding or_error
  seal_with key random plain =
      if nat_beq (length key) key_size
      then (or_error no_entropy random >>= λ nonce. ok (nonce, aead.seal key nonce plain))
      else err bad_key

  open_with : Error → Bytes → Bytes → Bytes → Result Error Bytes
  unfolding or_error
  open_with e key nonce box =
      if nat_beq (length key) key_size then or_error e (aead.open_ key nonce box) else err bad_key

  -- The bytes of a ciphertext.
  pub layout : Bytes → Bytes → Bytes → Bytes → Bytes
  layout n_kek wrapped n_dek ct =
      1 ∷ n_kek ++ (put_uint32 (length wrapped % 2 ^ 32) ++ (wrapped ++ (n_dek ++ ct)))

  -- The three results of rand.Read stand in the order of the calls.
  pub encrypt : Bytes → Option Bytes → Option Bytes → Option Bytes → Bytes → Result Error Bytes
  encrypt kek random_dek random_kek random_payload plain = do
    dek ← or_error no_entropy random_dek
    kek_sealed ← seal_with kek random_kek dek
    payload ← seal_with dek random_payload plain
    ok (layout kek_sealed.0 kek_sealed.1 payload.0 payload.1)

  -- The part after the length of the wrapped key is known and fits.
  unwrap_with : Bytes → Bytes → ℕ → Result Error Bytes
  unwrap_with kek box wlen = do
    dek ← open_with unwrap kek (take nonce_size (drop 1 box)) (take wlen (drop 29 box))
    open_with authentication dek (take nonce_size (drop (29 + wlen) box))
        (drop (29 + wlen + nonce_size) box)

  sized : Bytes → Bytes → ℕ → Result Error Bytes
  sized kek box wlen =
      if ltb (length box) (29 + wlen + nonce_size) then err truncated else unwrap_with kek box wlen

  pub decrypt : Bytes → Bytes → Result Error Bytes
  decrypt kek box =
      if ltb (length box) 29
      then err malformed
      else if nat_beq (first box) 1
      then sized kek box (uint32 (take 4 (drop 25 box)))
      else err malformed
