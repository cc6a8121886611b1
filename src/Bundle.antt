-- ===== src/Bundle.antt =====
-- bundle.go: `SealBundle` and `OpenBundle`, over bytes. The key derivation, the cipher, JSON and the
-- random bytes are other libraries': what the code calls of them is a record of functions.
pub mod Sealed
pub mod Opened
pub mod Roundtrip
use ise2ise.Base.{ℕ, ◌+◌, String, Bool, true, false, Option, none, some, List, [], ◌∷◌, ◌++◌, ◌==◌}
use ise2ise.Base.{not, ltb, nat_eq, length, Dict, if◌then◌else◌}
use ise2ise.Bytes.{take, drop, byte_at, same_bytes}
use ise2ise.Json.{Obj, runes}
use ise2ise.Message.{Message, Piece, lit, number, quoted, said}
use ise2ise.Ise.Probe.{Probe}
use ise2ise.Ise.Errors.{IseError, failed, within, Result, ok, err}

abbrev pub Bytes : Type 0
Bytes = List ℕ

pub record Source : Type 0 where
  pub host : String
  pub ise_version : String
  pub nodes : List String

-- The plaintext; `none` is Go's nil map.
pub record Bundle : Type 0 where
  pub tool : String
  pub format_version : ℕ
  pub exported_at : String
  pub source : Source
  pub objects : Option (Dict (List Obj))
  pub notes : List String

abbrev from_probe : Option Probe → Source
from_probe none = record { host = ""; ise_version = ""; nodes = [] }
from_probe (some p) = record { host = p.host; ise_version = p.version; nodes = p.nodes }

-- `NewBundle`, at a time of day, and `Note`.
abbrev pub new_bundle : String → Option Probe → Bundle
new_bundle now probe = record {
  tool = "ise2ise";
  format_version = 1;
  exported_at = now;
  source = from_probe probe;
  objects = some [];
  notes = [];
}

abbrev pub with_note : Bundle → String → Bundle
with_note b m = record b { notes = b.notes ++ (m ∷ []) }

-- `cipher.AEAD`: the nonce, then the plaintext or the ciphertext, then the additional file.
pub record Aead : Type 0 where
  pub seal : Bytes → Bytes → Bytes → Bytes
  pub unseal : Bytes → Bytes → Bytes → Option Bytes

-- `pbkdf2.Key` with SHA-256, the iterations and the key's length; `aes.NewCipher` and then
-- `cipher.NewGCM`; `json.Marshal` and `json.Unmarshal` of a bundle.
pub record Library : Type 0 where
  pub derive_key : String → Bytes → Result Bytes
  pub new_aead : Bytes → Result Aead
  pub marshal : Bundle → Result Bytes
  pub unmarshal : Bytes → Result Bundle

-- `if err != nil { return nil, err }`
abbrev pub and_then : {A B : Type 0} → Result A → (A → Result B) → Result B
and_then (ok a) k = k a
and_then (err e) k = err e

-- "ISE2ISE"
abbrev pub magic : Bytes
magic = b'I' ∷ b'S' ∷ b'E' ∷ b'2' ∷ b'I' ∷ b'S' ∷ b'E' ∷ []

abbrev pub format : ℕ
format = 1

abbrev pub header_len : ℕ
header_len = 36

abbrev pub min_passphrase : ℕ
min_passphrase = 12

abbrev pub header_of : Bytes → Bytes → Bytes
header_of salt nonce = magic ++ (format ∷ (salt ++ nonce))

abbrev pub bad_passphrase : IseError
bad_passphrase = failed (said "wrong passphrase, or the bundle is corrupt or was tampered with")

abbrev pub with_objects : Option (Dict (List Obj)) → Option (Dict (List Obj))
with_objects none = some []
with_objects (some m) = some m

-- Of what was decrypted, the part after `json.Unmarshal`.
abbrev of_ours : Bundle → Result Bundle
of_ours b =
    if not (b.tool == "ise2ise")
    then err (
        failed (
          lit "bundle decrypted but was not written by ise2ise (tool="
          ∷ quoted b.tool
          ∷ lit ")"
          ∷ []))
    else ok (record b { objects = with_objects b.objects })

abbrev of_json : Result Bundle → Result Bundle
of_json (err e) =
    err (within (said "bundle decrypted but its contents are not valid ise2ise JSON") e)
of_json (ok b) = of_ours b

module _ (lib : Library) where
  -- `newGCM`, with `deriveKey`
  unfoldable pub new_gcm : String → Bytes → Result Aead
  new_gcm passphrase salt = and_then (lib.derive_key passphrase salt) λ key. lib.new_aead key

  -- The salt and the nonce are what `rand.Read` gives.
  unfoldable pub seal_bundle : Bundle → String → Result Bytes → Result Bytes → Result Bytes
  unfolding new_gcm
  seal_bundle b passphrase random_salt random_nonce =
      if ltb (length (runes passphrase)) min_passphrase
      then err (
          failed
            (lit "passphrase must be at least " ∷ number min_passphrase ∷ lit " characters" ∷ []))
      else and_then (lib.marshal b) λ plain. and_then random_salt λ salt.
        and_then random_nonce λ nonce.
          and_then (new_gcm passphrase salt)
            λ gcm. ok (header_of salt nonce ++ gcm.seal nonce plain (header_of salt nonce))

  -- The contents of a plaintext.
  unfoldable pub read_plain : Bytes → Result Bundle
  read_plain plain = of_json (lib.unmarshal plain)

  abbrev pub of_plain : Option Bytes → Result Bundle
  of_plain none = err bad_passphrase
  of_plain (some plain) = read_plain plain

  unfoldable pub open_bundle : Bytes → String → Result Bundle
  unfolding new_gcm read_plain take drop byte_at same_bytes
  open_bundle file passphrase =
      let header = take header_len file in
      let salt = take 16 (drop 8 header) in
      let nonce = drop 24 header in
      if ltb (length file) (header_len + 16)
      then err (failed (said "this file is too short to be an ise2ise bundle"))
      else if not (same_bytes (take 7 file) magic)
      then err (failed (said "this file is not an ise2ise bundle (bad magic)"))
      else if not (nat_eq (byte_at file 7) format)
      then err (
          failed (
            lit "bundle format version "
            ∷ number (byte_at file 7)
            ∷ lit ", this build understands "
            ∷ number format
            ∷ []))
      else and_then (new_gcm passphrase salt)
          λ gcm. of_plain (gcm.unseal nonce (drop header_len file) header)
