-- ===== src/Bundle/Sealed.antt =====
-- bundle.go: the layout of a sealed bundle, which `SealBundle` writes and `OpenBundle` accepts.
use ise2ise.Base.{◌≡◌, sym, ap, ◌∙◌, ◌+◌, ◌≤◌, String, some}
use ise2ise.Base.{◌∷◌, ◌++◌, length, arith}
use ise2ise.Bytes.{
  take, drop, byte_at, take-drop, take-take, length-take, length-drop, drop-drop, byte_at-take,
  drop-byte_at,
}
use ise2ise.Ise.Errors.{Result, ok, err}
use ise2ise.Bundle.{Bytes, Aead, Library, and_then, magic, format, header_of, new_gcm}

-- What AES-GCM promises: a sealed text is 16 bytes longer and is opened again, and nothing else is.
pub record IsGcm (gcm : Aead) : Type 0 where
  pub restores : (n p a : Bytes) → gcm.unseal n (gcm.seal n p a) a ≡ some p
  pub authentic : (n c a p : Bytes) → gcm.unseal n c a ≡ some p → c ≡ gcm.seal n p a
  pub overhead : (n p a : Bytes) → length (gcm.seal n p a) ≡ length p + 16

abbrev pub IsTrusted : Library → Type 0
IsTrusted lib = (key : Bytes) (gcm : Aead) → lib.new_aead key ≡ ok gcm → IsGcm gcm

-- The file is a header and, behind it, the plaintext sealed under the passphrase with that header as
-- additional file.
pub record IsSealed (lib : Library) (passphrase : String) (file plain : Bytes) : Type 0 where
  pub salt : Bytes
  pub nonce : Bytes
  pub gcm : Aead
  pub keyed : new_gcm lib passphrase salt ≡ ok gcm
  pub salt_length : length salt ≡ 16
  pub nonce_length : length nonce ≡ 12
  pub layout : file ≡ header_of salt nonce ++ gcm.seal nonce plain (header_of salt nonce)

pub new_gcm-IsGcm :
    (lib : Library) (passphrase : String) (salt : Bytes) (gcm : Aead)
    → IsTrusted lib
    → new_gcm lib passphrase salt ≡ ok gcm
    → IsGcm gcm
unfolding new_gcm
new_gcm-IsGcm lib passphrase salt gcm trusted e = of_key (lib.derive_key passphrase salt) e
  where
    of_key : (r : Result Bytes) → and_then r (λ key. lib.new_aead key) ≡ ok gcm → IsGcm gcm
    of_key (ok key) e = trusted key gcm e
    of_key (err x) e = absurd (cc e)

-- A header of 36 bytes with the right start is the one of its salt and its nonce.
header_of_lem :
    (h : Bytes)
    → length h ≡ 36
    → take 7 h ≡ magic
    → byte_at h 7 ≡ format
    → h ≡ header_of (take 16 (drop 8 h)) (drop 16 (drop 8 h))
header_of_lem h long starts version =
    sym (take-drop 7 h)
    ∙ (ap (λ xs. xs ++ drop 7 h) starts
        ∙ ap (magic ++◌) (
            drop-byte_at 7 h (omega (arith, long))
            ∙ (ap (λ b. b ∷ drop 8 h) version ∙ ap (format ∷◌) (sym (take-drop 16 (drop 8 h))))))

module _ (lib : Library) (trusted : IsTrusted lib) where
  -- What the guards of `OpenBundle` leave.
  pub opened-IsSealed :
      (file : Bytes) (passphrase : String) (gcm : Aead) (plain : Bytes)
      → 52 ≤ length file
      → take 7 file ≡ magic
      → byte_at file 7 ≡ format
      → new_gcm lib passphrase (take 16 (drop 8 (take 36 file))) ≡ ok gcm
      → gcm.unseal (drop 24 (take 36 file)) (drop 36 file) (take 36 file) ≡ some plain
      → IsSealed lib passphrase file plain
  opened-IsSealed file passphrase gcm plain long starts version keyed opened = record {
    salt = salt;
    nonce = nonce;
    gcm = gcm;
    keyed = keyed;
    salt_length = length-take 16 (drop 8 header) (omega (arith, behind));
    nonce_length = omega (arith, length-drop 24 header (omega (arith, whole)), whole);
    layout =
        sym (take-drop 36 file)
        ∙ (ap (λ c. header ++ c)
              ((new_gcm-IsGcm lib passphrase salt gcm trusted keyed).authentic nonce (drop 36 file)
                header plain opened)
            ∙ ap (λ h. h ++ gcm.seal nonce plain h) same);
  }
    where
      header : Bytes
      header = take 36 file

      salt : Bytes
      salt = take 16 (drop 8 header)

      nonce : Bytes
      nonce = drop 24 header

      whole : length header ≡ 36
      whole = length-take 36 file (omega (arith, long))

      behind : length (drop 8 header) ≡ 28
      behind = omega (arith, length-drop 8 header (omega (arith, whole)), whole)

      same : header ≡ header_of salt nonce
      same =
          header_of_lem header whole (take-take 7 36 file (omega arith) ∙ starts)
            (byte_at-take 7 36 file (omega arith) ∙ version)
          ∙ ap (header_of salt) (drop-drop 8 16 24 header (omega arith))
